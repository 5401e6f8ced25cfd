-- ===== src/ControlPlane/Models.antt =====
-- internal/models: the rows of the database that the services below use. A UUID is its text, an
-- instant a number of nanoseconds, and an optional time is `none` where the column is null. The
-- associations and the columns that only gorm reads and writes are left out.
use ghost_node.Prelude.{ℕ, ◌-◌, ◌%◌, String, Bool, false, Option, none, some, ltb, if◌then◌else◌}
use ghost_node.Prelude.Int.{ℤ, pos, negsuc, ◌-ℤ◌}

pub data Role : Type 0 where
  role_user role_admin : Role

-- User
pub record User : Type 0 where
  pub id : String
  pub email : String
  pub password_hash : String
  pub role : Role
  pub is_active : Bool

pub data PlanType : Type 0 where
  plan_free plan_basic plan_pro plan_unlimited : PlanType

-- Subscription
pub record Subscription : Type 0 where
  pub user_id : String
  pub plan : PlanType
  pub bandwidth_quota : ℤ
  pub bandwidth_used : ℤ
  pub max_devices : ℤ
  pub expires_at : Option ℕ
  pub is_active : Bool

-- RefreshToken
pub record RefreshToken : Type 0 where
  pub user_id : String
  pub token_hash : String
  pub expires_at : ℕ
  pub revoked_at : Option ℕ

-- RefreshToken.IsValid
unfoldable pub is_valid : ℕ → RefreshToken → Bool
is_valid now r = elim r.revoked_at [ some t ↦ false | none ↦ ltb now r.expires_at ]

-- Subscription.IsExpired
unfoldable pub is_expired : ℕ → Subscription → Bool
is_expired now s = elim s.expires_at [ none ↦ false | some t ↦ ltb t now ]

pub data DeviceType : Type 0 where
  desktop mobile router : DeviceType

-- Device
pub record Device : Type 0 where
  pub id : String
  pub user_id : String
  pub name : String
  pub type_ : DeviceType
  pub public_key : String
  pub last_seen_at : Option ℕ
  pub last_ip : String
  pub is_active : Bool

-- An integer as an int64 holds it.
unfoldable pub wrap_64 : ℤ → ℤ
wrap_64 (pos n) =
    let r = n % 18446744073709551616 in
    if ltb r 9223372036854775808 then pos r else negsuc (18446744073709551615 - r)
wrap_64 (negsuc n) =
    let r = n % 18446744073709551616 in
    if ltb r 9223372036854775808 then negsuc r else pos (18446744073709551615 - r)

-- Subscription.RemainingBytes
unfoldable pub remaining_bytes : Subscription → ℤ
remaining_bytes s = wrap_64 (s.bandwidth_quota -ℤ s.bandwidth_used)
