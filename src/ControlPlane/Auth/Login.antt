-- ===== src/ControlPlane/Auth/Login.antt =====
-- Whom Login of internal/service/auth_service.go lets in.
use ghost_node.Prelude.{
  ℕ, String, ◌≡◌, refl, ◌↔◌, inl, inr, true, none, arith, Result, ok, err, Result-cases,
}
use ghost_node.ControlPlane.Models.{User}
use ghost_node.ControlPlane.Jwt.{JwtLibrary, JwtConfig, TokenPair, generate_token_pair}
use ghost_node.ControlPlane.Auth.{
  Database, Hashes, FindError, not_found, find_failed, issue, issued, checked, admit, login,
}

module _ (lib : JwtLibrary) (cfg : JwtConfig) (hashes : Hashes) (db : Database) where
  open db use {State}

  -- `u` is an active user whose password it is, and `pair` is issued to it.
  abbrev pub MayEnter : ℕ → String → TokenPair → User → Type 0
  MayEnter now password pair u =
      (u.is_active ≡ true)
      × (hashes.check_password u.password_hash password ≡ none)
      × (generate_token_pair lib cfg now u ≡ ok pair)

  issue-ok :
      (now : ℕ) (st : State) (u : User) (pair : TokenPair)
      → ((issue lib cfg hashes db now st u).1 ≡ ok pair)
        ↔ (generate_token_pair lib cfg now u ≡ ok pair)
  unfolding issue issued
  issue-ok now st u pair = elim (Result-cases (generate_token_pair lib cfg now u)) [
    | inl (p, made) ↦ rw (made, issued) (λ e. cc, λ e. cc)
    | inr (x, failed) ↦ rw (failed, issued) (λ e. absurd (ground arith), λ e. absurd (ground arith))
  ]

  admit-ok :
      (now : ℕ) (st : State) (password : String) (found : Result FindError User) (pair : TokenPair)
      → ((admit lib cfg hashes db now st password found).1 ≡ ok pair)
        ↔ ((u : User) × (found ≡ ok u) × MayEnter now password pair u)
  unfolding admit checked
  admit-ok now st password (err not_found) pair =
      (λ e. absurd (ground arith), λ (u, e, h). absurd (ground arith))
  admit-ok now st password (err (find_failed x)) pair =
      (λ e. absurd (ground arith), λ (u, e, h). absurd (ground arith))
  admit-ok now st password (ok u) pair = (
    λ e. (u, refl, ground (arith, issue-ok now st u pair)),
    λ (v, same, may). ground (arith, issue-ok now st u pair),
  )

  -- Login succeeds with a token pair exactly if the address belongs to an active user whose password
  -- it is, and the pair is the one generated for that user.
  pub login_iff :
      (now : ℕ) (st : State) (email password : String) (pair : TokenPair)
      → ((login lib cfg hashes db now st email password).1 ≡ ok pair)
        ↔ ((u : User) × (db.find_by_email st email ≡ ok u) × MayEnter now password pair u)
  unfolding login
  login_iff now st email password pair = admit-ok now st password (db.find_by_email st email) pair
