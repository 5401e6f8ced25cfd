-- ===== src/ControlPlane/Jwt/RoundTrip.antt =====
-- What internal/auth/jwt.go accepts of what it issued.
use ghost_node.Prelude.{ℕ, ◌+◌, ◌<◌, String, ◌≡◌, refl, inl, inr, true, arith, ok, Result-cases}
use ghost_node.ControlPlane.Models.{User}
use ghost_node.ControlPlane.Jwt.{
  TokenPair, generate_token_pair, generate_access, JwtLibrary, JwtConfig, RegisteredClaims,
  generate_refresh, validate_refresh_token, registered_for,
}

module _ (lib : JwtLibrary) (cfg : JwtConfig) where
  -- A refresh token, as long as its numeric date of expiry has not come, names the user that it was
  -- issued to, where the library parses the claims that it signed until they expire, and the
  -- identifier is one that uuid.Parse returns as it is.
  pub validate-generate_refresh :
      (issued now : ℕ) (id token : String)
      → ((c : RegisteredClaims) (t : String)
          → lib.sign_registered cfg.secret c ≡ ok t
          → lib.numeric_date now < c.expires_at
          → lib.parse_registered now cfg.secret t ≡ ok (c, true))
      → lib.parse_uuid id ≡ ok id
      → generate_refresh lib cfg issued id ≡ ok token
      → lib.numeric_date now < lib.numeric_date (issued + cfg.refresh_token_ttl)
      → validate_refresh_token lib cfg now token ≡ ok id
  unfolding generate_refresh validate_refresh_token
  validate-generate_refresh issued now id token parses uuid issued_ fresh =
      ground (arith, parses (registered_for lib cfg issued cfg.refresh_token_ttl id) token)

  pub generate_token_pair-refresh :
      (now : ℕ) (u : User) (pair : TokenPair)
      → generate_token_pair lib cfg now u ≡ ok pair
      → generate_refresh lib cfg now u.id ≡ ok pair.refresh_token
  unfolding generate_token_pair
  generate_token_pair-refresh now u pair made =
      elim (Result-cases (generate_access lib cfg now u)) [
        | inr (e, bad) ↦ absurd (let g = rw bad at made in ground arith)
        | inl (access, good) ↦
            let g = rw good at made in
            elim (Result-cases (generate_refresh lib cfg now u.id)) [
              | inr (e, bad) ↦ absurd (let h = rw bad at g in ground arith)
              | inl (token, signed) ↦ let h = rw signed at g in ground arith
            ]
      ]

  -- Refresh tokens carry their instants as numeric dates only.
  pub generate_refresh-same_date :
      (a b : ℕ) (id : String)
      → lib.numeric_date a ≡ lib.numeric_date b
      → lib.numeric_date (a + cfg.refresh_token_ttl) ≡ lib.numeric_date (b + cfg.refresh_token_ttl)
      → generate_refresh lib cfg a id ≡ generate_refresh lib cfg b id
  unfolding generate_refresh
  generate_refresh-same_date a b id start end = rw (start, end) refl
