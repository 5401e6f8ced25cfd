-- ===== src/ControlPlane/Auth.antt =====
-- internal/service/auth_service.go: registration, login, and refresh tokens that are used once. The
-- database and the password and token hashes are parameters. Each operation runs at one instant;
-- log messages and metrics are left out.
pub mod SingleUse
pub mod Renewal
pub mod Login
mod Tests
use ghost_node.Prelude.{
  ℕ, ◌+◌, ◌*◌, String, true, false, Option, none, some, if◌then◌else◌, Result, ok, err,
}
use ghost_node.Prelude.Int.{pos}
use ghost_node.ControlPlane.Models.{
  User, role_user, Subscription, plan_free, RefreshToken, is_valid,
}
use ghost_node.ControlPlane.Jwt.{
  JwtLibrary, JwtConfig, JwtError, TokenPair, generate_token_pair, validate_refresh_token,
}

-- What FindByEmail and FindByID return beside a user: ErrNotFound, or another error.
pub data FindError : Type 0 where
  not_found : FindError
  find_failed : String → FindError

-- UserRepository, and the queries on refresh tokens and subscriptions that the service builds with
-- gorm: First where hash and user match, Save, Create, and Update of revoked_at by the hash. A
-- created user comes back with its identifier.
pub record Database : Type 1 where
  pub State : Type 0
  pub find_by_email : State → String → Result FindError User
  pub find_by_id : State → String → Result FindError User
  pub create_user : State → User → State × Result String User
  pub create_subscription : State → Subscription → State × Option String
  pub find_token : State → (hash user : String) → Result String RefreshToken
  pub save_token : State → RefreshToken → State × Option String
  pub create_token : State → RefreshToken → State × Option String
  pub revoke_token : State → (hash : String) → ℕ → State × Option String

-- pkg/crypto's HashPassword and CheckPassword, and hashToken.
pub record Hashes : Type 0 where
  pub hash_password : String → Result String String
  pub check_password : (hash password : String) → Option String
  pub hash_token : String → String

pub data AuthError : Type 0 where
  checking_user hashing creating_user finding_user : String → AuthError
  generating : JwtError → AuthError
  email_registered invalid_credentials account_disabled : AuthError
  invalid_refresh_token token_not_found token_revoked user_missing : AuthError

module _ (lib : JwtLibrary) (cfg : JwtConfig) (hashes : Hashes) (db : Database) where
  open db use {State}

  -- storeRefreshToken
  pub store_refresh_token : ℕ → State → (user token : String) → State × Option String
  store_refresh_token now st user token = db.create_token st (record {
    user_id = user;
    token_hash = hashes.hash_token token;
    expires_at = now + cfg.refresh_token_ttl;
    revoked_at = none;
  })

  -- The end of Login and of Refresh: an error of storeRefreshToken is only logged.
  pub issued : ℕ → State → User → Result JwtError TokenPair → State × Result AuthError TokenPair
  issued now st u (err e) = (st, err (generating e))
  issued now st u (ok pair) = ((store_refresh_token now st u.id pair.refresh_token).0, ok pair)

  pub issue : ℕ → State → User → State × Result AuthError TokenPair
  issue now st u = issued now st u (generate_token_pair lib cfg now u)

  pub checked : ℕ → State → User → Option String → State × Result AuthError TokenPair
  checked now st u (some e) = (st, err invalid_credentials)
  checked now st u none = issue now st u

  pub admit :
      ℕ → State → (password : String) → Result FindError User → State × Result AuthError TokenPair
  admit now st password (err not_found) = (st, err invalid_credentials)
  admit now st password (err (find_failed e)) = (st, err (finding_user e))
  admit now st password (ok u) =
      if u.is_active
      then checked now st u (hashes.check_password u.password_hash password)
      else (st, err account_disabled)

  -- Login
  pub login : ℕ → State → (email password : String) → State × Result AuthError TokenPair
  login now st email password = admit now st password (db.find_by_email st email)

  -- The Subscription that Register passes to Create: ten gigabytes and three devices. IsActive and
  -- the other fields that are not set are zero here, and their columns have defaults.
  pub free_subscription : String → Subscription
  free_subscription user = record {
    user_id = user;
    plan = plan_free;
    bandwidth_quota = pos (10 * 1024 * 1024 * 1024);
    bandwidth_used = pos 0;
    max_devices = pos 3;
    expires_at = none;
    is_active = false;
  }

  -- Register after the token pair, whose user comes back too.
  registered :
      User → State × Result AuthError TokenPair → State × Result AuthError (User × TokenPair)
  registered u (st, err e) = (st, err e)
  registered u (st, ok pair) = (st, ok (u, pair))

  created : ℕ → State × Result String User → State × Result AuthError (User × TokenPair)
  unfolding registered
  created now (st, err e) = (st, err (creating_user e))
  created now (st, ok u) =
      registered u (issue now (db.create_subscription st (free_subscription u.id)).0 u)

  enrol :
      ℕ
      → State
      → (email : String) → Result String String
      → State × Result AuthError (User × TokenPair)
  unfolding created
  enrol now st email (err e) = (st, err (hashing e))
  enrol now st email (ok hash) = created now (
      db.create_user st (record {
        id = "";
        email = email;
        password_hash = hash;
        role = role_user;
        is_active = true;
      }))

  unclaimed :
      ℕ
      → State
      → (email password : String) → Result FindError User
      → State × Result AuthError (User × TokenPair)
  unfolding enrol
  unclaimed now st email password (ok u) = (st, err email_registered)
  unclaimed now st email password (err (find_failed e)) = (st, err (checking_user e))
  unclaimed now st email password (err not_found) =
      enrol now st email (hashes.hash_password password)

  -- Register
  pub register : ℕ → State → (email password : String) → State × Result AuthError (User × TokenPair)
  unfolding unclaimed
  register now st email password = unclaimed now st email password (db.find_by_email st email)

  pub renewed : ℕ → State → Result FindError User → State × Result AuthError TokenPair
  renewed now st (err not_found) = (st, err user_missing)
  renewed now st (err (find_failed e)) = (st, err (finding_user e))
  renewed now st (ok u) = issue now st u

  -- Refresh once a row is found: an error of Save is ignored.
  pub spend : ℕ → State → String → Result String RefreshToken → State × Result AuthError TokenPair
  spend now st id (err e) = (st, err token_not_found)
  spend now st id (ok row) =
      let st' = (db.save_token st (record row { revoked_at = some now })).0 in
      if is_valid now row then renewed now st' (db.find_by_id st' id) else (st, err token_revoked)

  pub refresh_as : ℕ → State → String → Result JwtError String → State × Result AuthError TokenPair
  refresh_as now st token (err e) = (st, err invalid_refresh_token)
  refresh_as now st token (ok id) = spend now st id (db.find_token st (hashes.hash_token token) id)

  -- Refresh
  pub refresh : ℕ → State → String → State × Result AuthError TokenPair
  refresh now st token = refresh_as now st token (validate_refresh_token lib cfg now token)

  -- Logout
  pub logout : ℕ → State → String → State × Option String
  logout now st token = db.revoke_token st (hashes.hash_token token) now
