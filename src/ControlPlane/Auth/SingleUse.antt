-- ===== src/ControlPlane/Auth/SingleUse.antt =====
-- A refresh token of internal/service/auth_service.go is used once, and the cases where it is not.
use ghost_node.Prelude.{
  ℕ, String, ◌≡◌, refl, ap, subst, ◌≢◌, inl, inr, none, some, arith, Bool-cases, Result, ok, err,
  Result-cases,
}
use ghost_node.ControlPlane.Models.{User, RefreshToken, is_valid}
use ghost_node.ControlPlane.Jwt.{
  JwtLibrary, JwtConfig, JwtError, TokenPair, generate_token_pair, validate_refresh_token,
}
use ghost_node.ControlPlane.Auth.{
  Database, Hashes, AuthError, invalid_refresh_token, token_not_found, token_revoked, FindError,
  not_found, find_failed, store_refresh_token, issue, issued, renewed, spend, refresh_as, refresh,
  logout,
}

-- The row as Refresh saves it.
abbrev pub revoked : ℕ → RefreshToken → RefreshToken
revoked now row = record row { revoked_at = some now }

module _ (lib : JwtLibrary) (cfg : JwtConfig) (hashes : Hashes) (db : Database) where
  open db use {State}

  -- The row with the token's hash is revoked in `st`, whatever user is asked for.
  abbrev pub IsSpent : State → String → Type 0
  IsSpent st token =
      (user : String) (row : RefreshToken)
      → db.find_token st (hashes.hash_token token) user ≡ ok row
      → row.revoked_at ≢ none

  spend-IsSpent :
      (now : ℕ) (st : State) (id : String) (row : RefreshToken)
      → row.revoked_at ≢ none
      → spend lib cfg hashes db now st id (ok row) ≡ (st, err token_revoked)
  unfolding spend is_valid
  spend-IsSpent now st id row revoked = ground arith

  refresh_as-IsSpent :
      (now : ℕ) (st : State) (token : String) (user : Result JwtError String)
      → IsSpent st token
      → (e : AuthError) × (refresh_as lib cfg hashes db now st token user ≡ (st, err e))
  unfolding refresh_as spend
  refresh_as-IsSpent now st token (err e) spent = (invalid_refresh_token, refl)
  refresh_as-IsSpent now st token (ok id) spent =
      elim (Result-cases (db.find_token st (hashes.hash_token token) id)) [
        | inl (row, found) ↦
            (token_revoked, rw found (spend-IsSpent now st id row (spent id row found)))
        | inr (e, missing) ↦ (token_not_found, rw (missing, spend) refl)
      ]

  refresh-IsSpent :
      (now : ℕ) (st : State) (token : String)
      → IsSpent st token
      → (e : AuthError) × (refresh lib cfg hashes db now st token ≡ (st, err e))
  unfolding refresh
  refresh-IsSpent now st token =
      refresh_as-IsSpent now st token (validate_refresh_token lib cfg now token)

  -- Creating a row leaves each row as it is that a query found before.
  abbrev pub KeepsFound : Type 0
  KeepsFound =
      (s : State) (row new : RefreshToken) (hash user : String)
      → db.find_token s hash user ≡ ok row
      → db.find_token (db.create_token s new).0 hash user ≡ ok row

  issue-find :
      KeepsFound
      → (now : ℕ) (st st' : State) (u : User) (pair : TokenPair) (hash user : String)
        (row : RefreshToken)
      → issue lib cfg hashes db now st u ≡ (st', ok pair)
      → db.find_token st hash user ≡ ok row
      → db.find_token st' hash user ≡ ok row
  unfolding issue issued store_refresh_token
  issue-find keeps now st st' u pair hash user row given found =
      elim (Result-cases (generate_token_pair lib cfg now u)) [
        | inl (p, made) ↦
            subst (λ s. db.find_token s hash user ≡ ok row)
              (ap (λ x. x.0) (rw (made, issued) at given)) (keeps st row _ hash user found)
        | inr (e, failed) ↦ absurd (let g = rw (failed, issued) at given in ground arith)
      ]

  renewed-find :
      KeepsFound
      → (now : ℕ) (st st' : State) (found_user : Result FindError User) (pair : TokenPair)
        (hash user : String) (row : RefreshToken)
      → renewed lib cfg hashes db now st found_user ≡ (st', ok pair)
      → db.find_token st hash user ≡ ok row
      → db.find_token st' hash user ≡ ok row
  unfolding renewed
  renewed-find keeps now st st' (ok u) pair hash user row given found =
      issue-find keeps now st st' u pair hash user row given found
  renewed-find keeps now st st' (err not_found) pair hash user row given found =
      absurd (ground arith)
  renewed-find keeps now st st' (err (find_failed e)) pair hash user row given found =
      absurd (ground arith)

  pub spend-renewed :
      (now : ℕ) (st st' : State) (id : String) (row : RefreshToken) (pair : TokenPair)
      → spend lib cfg hashes db now st id (ok row) ≡ (st', ok pair)
      → let s = (db.save_token st (revoked now row)).0 in
        renewed lib cfg hashes db now s (db.find_by_id s id) ≡ (st', ok pair)
  unfolding spend
  spend-renewed now st st' id row pair given = elim (Bool-cases (is_valid now row)) [
    | inl valid ↦ rw valid at given
    | inr spent ↦ absurd (let g = rw spent at given in ground arith)
  ]

  -- The row that a successful Refresh spent: it was found for the token's user.
  pub refresh-spent :
      (now : ℕ) (st st' : State) (token : String) (pair : TokenPair)
      → refresh lib cfg hashes db now st token ≡ (st', ok pair)
      → (id : String) × (row : RefreshToken) × (validate_refresh_token lib cfg now token ≡ ok id)
        × (db.find_token st (hashes.hash_token token) id ≡ ok row)
        × (spend lib cfg hashes db now st id (ok row) ≡ (st', ok pair))
  unfolding refresh refresh_as spend
  refresh-spent now st st' token pair given =
      elim (Result-cases (validate_refresh_token lib cfg now token)) [
        | inr (e, bad) ↦ absurd (let g = rw (bad, refresh_as) at given in ground arith)
        | inl (id, good) ↦
            let g = rw (good, refresh_as) at given in
            elim (Result-cases (db.find_token st (hashes.hash_token token) id)) [
              | inl (row, found) ↦ (id, row, good, found, rw found at g)
              | inr (e, missing) ↦ absurd (let h = rw (missing, spend) at g in ground arith)
            ]
      ]

  -- A refresh token is used once: after a successful Refresh each further Refresh with the same
  -- token is an error and changes nothing. Save does not fail there and is seen by the next query, the
  -- query of a token finds the row of that hash and user, a hash has one row, and creating a row
  -- leaves those that were found.
  pub refresh_once :
      (now later : ℕ) (st st' : State) (token : String) (pair : TokenPair)
      → ((row : RefreshToken) → (db.save_token st row).1 ≡ none)
      → ((s : State) (row : RefreshToken)
          → (db.save_token s row).1 ≡ none
          → db.find_token (db.save_token s row).0 row.token_hash row.user_id ≡ ok row)
      → ((s : State) (row : RefreshToken) (hash user : String)
          → db.find_token s hash user ≡ ok row
          → (row.token_hash ≡ hash) × (row.user_id ≡ user))
      → ((s : State) (row other : RefreshToken) (hash user someone : String)
          → db.find_token s hash user ≡ ok row
          → db.find_token s hash someone ≡ ok other
          → row ≡ other)
      → KeepsFound
      → refresh lib cfg hashes db now st token ≡ (st', ok pair)
      → (e : AuthError) × (refresh lib cfg hashes db later st' token ≡ (st', err e))
  refresh_once now later st st' token pair saves find_save found_row unique keeps given =
      let (id, row, named, found, spent) = refresh-spent now st st' token pair given in
      let s : State = (db.save_token st (revoked now row)).0 in
      let (same_hash, same_user) = found_row st row (hashes.hash_token token) id found in
      let saved : db.find_token s (hashes.hash_token token) id ≡ ok (revoked now row) =
        (subst (λ h. db.find_token s h id ≡ ok (revoked now row)) same_hash
          (subst (λ u. db.find_token s row.token_hash u ≡ ok (revoked now row)) same_user
            (find_save st (revoked now row) (saves (revoked now row))))) in
      let kept : db.find_token st' (hashes.hash_token token) id ≡ ok (revoked now row) =
        renewed-find keeps now s st' (db.find_by_id s id) pair (hashes.hash_token token) id
          (revoked now row) (spend-renewed now st st' id row pair spent) saved in
      refresh-IsSpent later st' token (λ user other seen.
        let same = unique st' (revoked now row) other (hashes.hash_token token) id user kept seen in
        subst (λ (r : RefreshToken). r.revoked_at ≢ none) same (λ e. absurd (cc)))

  -- After a Logout that did not fail, each Refresh with the token is an error and changes nothing,
  -- where the update of revoked_at reaches every row of the hash.
  pub logout_ends :
      (now later : ℕ) (st : State) (token : String)
      → ((s : State) (row : RefreshToken) (hash user : String) (at : ℕ)
          → (db.revoke_token s hash at).1 ≡ none
          → db.find_token (db.revoke_token s hash at).0 hash user ≡ ok row
          → row.revoked_at ≡ some at)
      → (logout lib cfg hashes db now st token).1 ≡ none
      → let st' = (logout lib cfg hashes db now st token).0 in
        (e : AuthError) × (refresh lib cfg hashes db later st' token ≡ (st', err e))
  unfolding logout
  logout_ends now later st token revokes done =
      refresh-IsSpent later (db.revoke_token st (hashes.hash_token token) now).0 token
        (λ user row seen e.
          let at = revokes st row (hashes.hash_token token) user now done seen in absurd (cc))
