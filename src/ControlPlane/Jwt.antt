-- ===== src/ControlPlane/Jwt.antt =====
-- internal/auth/jwt.go: the tokens of the control plane. The packages golang-jwt and uuid are a
-- parameter, JwtLibrary. Each function takes the instant at which it runs.
pub mod RoundTrip
use ghost_node.Prelude.{ℕ, ◌+◌, String, Bool, if◌then◌else◌, Result, ok, err, ◌>>=◌, ◌>>◌}
use ghost_node.ControlPlane.Models.{User, Role}

-- jwt.RegisteredClaims, as far as the service fills it in.
pub record RegisteredClaims : Type 0 where
  pub subject : String
  pub expires_at : ℕ
  pub issued_at : ℕ
  pub issuer : String

pub record Claims : Type 0 where
  pub user_id : String
  pub email : String
  pub role : Role
  pub registered : RegisteredClaims

pub record TokenPair : Type 0 where
  pub access_token : String
  pub refresh_token : String
  pub expires_at : ℕ

-- The part of config.JWTConfig that is read here.
pub record JwtConfig : Type 0 where
  pub secret : String
  pub access_token_ttl : ℕ
  pub refresh_token_ttl : ℕ

-- NewNumericDate, SignedString with HS256 for either type of claims, ParseWithClaims for either
-- type, with token.Valid, at an instant and under the check of the method, and uuid.Parse.
pub record JwtLibrary : Type 0 where
  pub numeric_date : ℕ → ℕ
  pub sign_claims : String → Claims → Result String String
  pub sign_registered : String → RegisteredClaims → Result String String
  pub parse_claims : ℕ → String → String → Result String (Claims × Bool)
  pub parse_registered : ℕ → String → String → Result String (RegisteredClaims × Bool)
  pub parse_uuid : String → Result String String

pub data JwtError : Type 0 where
  signing_access signing_refresh parsing_token parsing_refresh : String → JwtError
  invalid_claims invalid_refresh invalid_subject : JwtError

module _ (lib : JwtLibrary) (cfg : JwtConfig) where
  registered_for : ℕ → ℕ → String → RegisteredClaims
  registered_for now ttl id = record {
    subject = id;
    expires_at = lib.numeric_date (now + ttl);
    issued_at = lib.numeric_date now;
    issuer = "vpnplatform";
  }

  with_expiry : ℕ → Result String String → Result JwtError (String × ℕ)
  with_expiry at (ok token) = ok (token, at)
  with_expiry at (err e) = err (signing_access e)

  -- generateAccess
  unfoldable pub generate_access : ℕ → User → Result JwtError (String × ℕ)
  unfolding with_expiry registered_for
  generate_access now u =
      let at = now + cfg.access_token_ttl in
      with_expiry at (
        lib.sign_claims cfg.secret (record {
          user_id = u.id;
          email = u.email;
          role = u.role;
          registered = registered_for now cfg.access_token_ttl u.id;
        }))

  signed_refresh : Result String String → Result JwtError String
  signed_refresh (ok token) = ok token
  signed_refresh (err e) = err (signing_refresh e)

  -- generateRefresh
  unfoldable pub generate_refresh : ℕ → String → Result JwtError String
  unfolding signed_refresh registered_for
  generate_refresh now id =
      signed_refresh (lib.sign_registered cfg.secret (registered_for now cfg.refresh_token_ttl id))

  -- GenerateTokenPair
  unfoldable pub generate_token_pair : ℕ → User → Result JwtError TokenPair
  generate_token_pair now u = do
    access ← generate_access now u
    refresh ← generate_refresh now u.id
    ok (record { access_token = access.0; refresh_token = refresh; expires_at = access.1 })

  accepted_claims : Result String (Claims × Bool) → Result JwtError Claims
  accepted_claims (err e) = err (parsing_token e)
  accepted_claims (ok (c, valid)) = if valid then ok c else err invalid_claims

  -- ValidateAccessToken
  unfoldable pub validate_access_token : ℕ → String → Result JwtError Claims
  unfolding accepted_claims
  validate_access_token now token = accepted_claims (lib.parse_claims now cfg.secret token)

  subject_id : Result String String → Result JwtError String
  subject_id (ok id) = ok id
  subject_id (err e) = err invalid_subject

  accepted_registered : Result String (RegisteredClaims × Bool) → Result JwtError String
  unfolding subject_id
  accepted_registered (err e) = err (parsing_refresh e)
  accepted_registered (ok (c, valid)) =
      if valid then subject_id (lib.parse_uuid c.subject) else err invalid_refresh

  -- ValidateRefreshToken
  unfoldable pub validate_refresh_token : ℕ → String → Result JwtError String
  unfolding accepted_registered
  validate_refresh_token now token = accepted_registered (lib.parse_registered now cfg.secret token)
