-- ===== src/ControlPlane/Auth/Renewal.antt =====
-- What the refresh token that Refresh of internal/service/auth_service.go issues is worth.
use ghost_node.Prelude.{ℕ, ◌+◌, String, ◌≡◌, refl, inl, inr, arith, Result, ok, err, Result-cases}
use ghost_node.ControlPlane.Models.{User}
use ghost_node.ControlPlane.Jwt.{
  JwtLibrary, JwtConfig, TokenPair, generate_token_pair, validate_refresh_token, generate_refresh,
}
use ghost_node.ControlPlane.Auth.{
  Database, Hashes, FindError, not_found, find_failed, issue, issued, renewed, refresh,
}
use ghost_node.ControlPlane.Jwt.RoundTrip.{generate_token_pair-refresh, generate_refresh-same_date}
use ghost_node.ControlPlane.Auth.SingleUse.{revoked, refresh-spent, spend-renewed}

module _ (lib : JwtLibrary) (cfg : JwtConfig) (hashes : Hashes) (db : Database) where
  open db use {State}

  issue-made :
      (now : ℕ) (st st' : State) (u : User) (pair : TokenPair)
      → issue lib cfg hashes db now st u ≡ (st', ok pair)
      → generate_token_pair lib cfg now u ≡ ok pair
  unfolding issue issued
  issue-made now st st' u pair given = elim (Result-cases (generate_token_pair lib cfg now u)) [
    | inl (p, made) ↦ let g = rw (made, issued) at given in ground arith
    | inr (e, failed) ↦ absurd (let g = rw (failed, issued) at given in ground arith)
  ]

  renewed-made :
      (now : ℕ) (st st' : State) (found : Result FindError User) (pair : TokenPair)
      → renewed lib cfg hashes db now st found ≡ (st', ok pair)
      → (u : User) × (found ≡ ok u) × (generate_token_pair lib cfg now u ≡ ok pair)
  unfolding renewed
  renewed-made now st st' (ok u) pair given = (u, refl, issue-made now st st' u pair given)
  renewed-made now st st' (err not_found) pair given = absurd (ground arith)
  renewed-made now st st' (err (find_failed e)) pair given = absurd (ground arith)

  -- A token refreshed within the second in which it was issued comes back itself, although it has
  -- just been spent: where the library's numeric dates of the two instants and of the two expiries
  -- agree, and a user found by an identifier has it, the new refresh token is the old one.
  pub refresh_same_second :
      (issued_at now : ℕ) (st st' : State) (token id : String) (pair : TokenPair)
      → ((s : State) (user : String) (u : User) → db.find_by_id s user ≡ ok u → u.id ≡ user)
      → generate_refresh lib cfg issued_at id ≡ ok token
      → validate_refresh_token lib cfg now token ≡ ok id
      → lib.numeric_date issued_at ≡ lib.numeric_date now
      → lib.numeric_date (issued_at + cfg.refresh_token_ttl)
        ≡ lib.numeric_date (now + cfg.refresh_token_ttl)
      → refresh lib cfg hashes db now st token ≡ (st', ok pair)
      → pair.refresh_token ≡ token
  refresh_same_second issued_at now st st' token id pair identified made named start end given =
      let (user, row, named', found, spent) =
        refresh-spent lib cfg hashes db now st st' token pair given in
      let s : State = (db.save_token st (revoked now row)).0 in
      let (u, known, pair_made) =
        renewed-made now s st' (db.find_by_id s user) pair
          (spend-renewed lib cfg hashes db now st st' user row pair spent) in
      let whose = identified s user u known in
      let mine = generate_token_pair-refresh lib cfg now u pair pair_made in
      let again = generate_refresh-same_date lib cfg issued_at now id start end in cc
