-- ===== src/ControlPlane/Auth/Tests.antt =====
-- A library of tokens and a database with one user and one row, and instances on them of the
-- theorems on internal/service/auth_service.go and internal/auth/jwt.go.
use ghost_node.Prelude.{
  ℕ, ◌+◌, ◌/◌, String, ◌≡◌, refl, ap, ◌↔◌, inl, inr, Bool, true, ◌&&◌, Option, none, some, arith,
  ◌==◌, eq_iff, eqb, if◌then◌else◌, Bool-cases, Result, ok, err,
}
use ghost_node.ControlPlane.Models.{User, role_user, RefreshToken, is_valid}
use ghost_node.ControlPlane.Jwt.{
  JwtLibrary, JwtConfig, RegisteredClaims, TokenPair, generate_token_pair, validate_refresh_token,
  generate_refresh, generate_access,
}
use ghost_node.ControlPlane.Jwt.RoundTrip.{validate-generate_refresh}
use ghost_node.ControlPlane.Auth.{
  Database, Hashes, AuthError, FindError, not_found, store_refresh_token, issue, issued, renewed,
  spend, refresh_as, refresh, login, logout,
}
use ghost_node.ControlPlane.Auth.SingleUse.{revoked, refresh_once, logout_ends}
use ghost_node.ControlPlane.Auth.Login.{login_iff, MayEnter}

-- The only refresh claims that the library signs: those of "u1" at instant 0, for 60 seconds.
abbrev first_claims : RegisteredClaims
first_claims = record { subject = "u1"; expires_at = 60; issued_at = 0; issuer = "vpnplatform" }

abbrev seconds : ℕ → ℕ
seconds t = t / 1000

abbrev sign : String → RegisteredClaims → Result String String
sign secret c =
    if c.subject == "u1" && eqb c.expires_at 60 && eqb c.issued_at 0 && c.issuer == "vpnplatform"
    then ok "refresh"
    else err "no key"

abbrev parse : ℕ → String → String → Result String (RegisteredClaims × Bool)
parse now secret t = ok (first_claims, true)

abbrev jwt : JwtLibrary
jwt = record {
  numeric_date = seconds;
  sign_claims = λ secret c. ok "access";
  sign_registered = sign;
  parse_claims = λ now secret t. err "expired";
  parse_registered = parse;
  parse_uuid = λ t. ok t;
}

abbrev config : JwtConfig
config = record { secret = "s"; access_token_ttl = 15000; refresh_token_ttl = 60000 }

same_claims :
    (s i : String) (e d : ℕ)
    → s ≡ "u1"
    → e ≡ 60
    → d ≡ 0
    → i ≡ "vpnplatform"
    → first_claims ≡ record { subject = s; expires_at = e; issued_at = d; issuer = i }
same_claims s i e d hs he hd hi = rw (hs, he, hd, hi) refl

signed_claims :
    (c : RegisteredClaims) (t : String) → sign "s" c ≡ ok t → parse 1000 "s" t ≡ ok (c, true)
signed_claims c t h =
    ap (λ (x : RegisteredClaims). ok (x, true))
      (same_claims c.subject c.issuer c.expires_at c.issued_at
        (ground (arith, eq_iff c.subject "u1")) (ground arith) (ground arith)
        (ground (arith, eq_iff c.issuer "vpnplatform")))

first_token : generate_refresh jwt config 0 "u1" ≡ ok "refresh"
unfolding generate_refresh
first_token = refl

named : (now : ℕ) → validate_refresh_token jwt config now "refresh" ≡ ok "u1"
unfolding validate_refresh_token
named now = refl

validate-generate_refresh_example : validate_refresh_token jwt config 1000 "refresh" ≡ ok "u1"
validate-generate_refresh_example =
    validate-generate_refresh jwt config 0 1000 "u1" "refresh" (λ c t h fresh. signed_claims c t h)
      refl first_token (omega arith)

abbrev alice : User
alice = record {
  id = "u1";
  email = "alice@example.com";
  password_hash = "hash";
  role = role_user;
  is_active = true;
}

abbrev find_user : String → Result FindError User
find_user id = if id == "u1" then ok alice else err not_found

abbrev hits : RefreshToken → (hash user : String) → Bool
hits row hash user = row.token_hash == hash && row.user_id == user

abbrev find_row : Option RefreshToken → (hash user : String) → Result String RefreshToken
find_row none hash user = err "record not found"
find_row (some row) hash user = if hits row hash user then ok row else err "record not found"

abbrev create_row : Option RefreshToken → RefreshToken → Option RefreshToken × Option String
create_row none row = (some row, none)
create_row (some old) row = (some old, some "duplicated key")

abbrev revoke_row : Option RefreshToken → String → ℕ → Option RefreshToken × Option String
revoke_row none hash now = (none, none)
revoke_row (some row) hash now =
    if row.token_hash == hash then (some (revoked now row), none) else (some row, none)

-- A table of at most one refresh token.
abbrev table : Database
table = record {
  State = Option RefreshToken;
  find_by_email = λ s email. find_user "u1";
  find_by_id = λ s id. find_user id;
  create_user = λ s u. (s, err "duplicated key");
  create_subscription = λ s sub. (s, none);
  find_token = find_row;
  save_token = λ s row. (some row, none);
  create_token = create_row;
  revoke_token = revoke_row;
}

abbrev plain : Hashes
plain = record {
  hash_password = λ p. ok "hash";
  check_password = λ h p. if p == "secret" then none else some "mismatch";
  hash_token = λ t. t;
}

abbrev fresh_row : RefreshToken
fresh_row = record { user_id = "u1"; token_hash = "refresh"; expires_at = 60000; revoked_at = none }

abbrev pair_at : ℕ → TokenPair
pair_at now = record {
  access_token = "access";
  refresh_token = "refresh";
  expires_at = now + 15000;
}

generated : generate_token_pair jwt config 500 alice ≡ ok (pair_at 500)
unfolding generate_token_pair generate_access generate_refresh
generated = refl

login_iff_example :
    ((login jwt config plain table 500 none "alice@example.com" "secret").1 ≡ ok (pair_at 500)) ↔ (
      (u : User) × (table.find_by_email none "alice@example.com" ≡ ok u)
      × MayEnter jwt config plain table 500 "secret" (pair_at 500) u)
login_iff_example =
    login_iff jwt config plain table 500 none "alice@example.com" "secret" (pair_at 500)

renews :
    refresh jwt config plain table 500 (some fresh_row) "refresh"
    ≡ (some (revoked 500 fresh_row), ok (pair_at 500))
unfolding refresh refresh_as validate_refresh_token spend renewed issue issued store_refresh_token
    generate_token_pair generate_access generate_refresh is_valid
renews = refl

valid_at : is_valid 500 fresh_row ≡ true
unfolding is_valid
valid_at = refl

find_row_sound :
    (s : Option RefreshToken) (row : RefreshToken) (hash user : String)
    → find_row s hash user ≡ ok row
    → (row.token_hash ≡ hash) × (row.user_id ≡ user)
find_row_sound none row hash user h = absurd (ground arith)
find_row_sound (some r) row hash user h = ground (
  arith,
  eq_iff row.token_hash hash,
  eq_iff row.user_id user,
  eq_iff r.token_hash hash,
  eq_iff r.user_id user,
)

find_row_self : (row : RefreshToken) → find_row (some row) row.token_hash row.user_id ≡ ok row
find_row_self row =
    ground (arith, eq_iff row.token_hash row.token_hash, eq_iff row.user_id row.user_id)

find_row-one :
    (s : Option RefreshToken) (row other : RefreshToken) (hash user someone : String)
    → find_row s hash user ≡ ok row
    → find_row s hash someone ≡ ok other
    → row ≡ other
find_row-one none row other hash user someone h g = absurd (ground arith)
find_row-one (some r) row other hash user someone h g = ground arith

find_row-create :
    (s : Option RefreshToken) (row new : RefreshToken) (hash user : String)
    → find_row s hash user ≡ ok row
    → find_row (create_row s new).0 hash user ≡ ok row
find_row-create none row new hash user h = absurd (ground arith)
find_row-create (some r) row new hash user h = h

refresh_once_example :
    (e : AuthError) × (refresh jwt config plain table 700 (some (revoked 500 fresh_row)) "refresh"
      ≡ (some (revoked 500 fresh_row), err e))
refresh_once_example =
    refresh_once jwt config plain table 500 700 (some fresh_row) (some (revoked 500 fresh_row))
      "refresh" (pair_at 500) (λ row. refl) (λ s row saved. find_row_self row) find_row_sound
      find_row-one find_row-create renews

find_user-id : (user : String) (u : User) → find_user user ≡ ok u → u.id ≡ user
find_user-id user u h = ground (arith, eq_iff user "u1")

revoke_row-revoked :
    (s : Option RefreshToken) (row : RefreshToken) (hash user : String) (at : ℕ)
    → (revoke_row s hash at).1 ≡ none
    → find_row (revoke_row s hash at).0 hash user ≡ ok row
    → row.revoked_at ≡ some at
revoke_row-revoked none row hash user at h g = absurd (ground arith)
revoke_row-revoked (some r) row hash user at h g = elim (Bool-cases (r.token_hash == hash)) [
  | inl same ↦ let k = rw same at g in ground arith
  | inr other ↦ let k = rw other at g in absurd (let l = rw other at k in ground arith)
]

logged_out : (logout jwt config plain table 600 (some fresh_row) "refresh").1 ≡ none
unfolding logout
logged_out = refl

logout_ends_example :
    let st' = (logout jwt config plain table 600 (some fresh_row) "refresh").0 in
    (e : AuthError) × (refresh jwt config plain table 700 st' "refresh" ≡ (st', err e))
logout_ends_example =
    logout_ends jwt config plain table 600 700 (some fresh_row) "refresh" revoke_row-revoked
      logged_out
