-- ===== src/ControlPlane/Traffic.antt =====
-- internal/service/traffic_service.go: the traffic that counts against a user's quota. The queries
-- are a parameter, and an operation runs at one instant. GetSummary's start of the period is a
-- parameter too, since it is a date of the calendar.
pub mod Quota
mod Tests
use ghost_node.Prelude.{
  ℕ, ◌*◌, String, Bool, false, ◌&&◌, Option, none, some, List, eqb, if◌then◌else◌, Result, ok, err,
  ◌>>=◌, ◌>>◌,
}
use ghost_node.Prelude.Int.{ℤ, pos, negsuc, ◌+ℤ◌, leb_ℤ}
use ghost_node.ControlPlane.Models.{
  PlanType, plan_free, Subscription, is_expired, remaining_bytes, wrap_64,
}
use ghost_node.ControlPlane.Auth.{FindError, not_found, find_failed}

-- A row of TrafficUsage, as far as a summary shows it.
pub record TrafficUsage : Type 0 where
  pub date : ℕ
  pub bytes_in : ℤ
  pub bytes_out : ℤ

-- TrafficRepository, and the service's own queries on subscriptions: First by the user, and the
-- update that adds to bandwidth_used.
pub record Ledger : Type 1 where
  pub State : Type 0
  pub find_subscription : State → String → Result FindError Subscription
  pub add_used : State → String → ℤ → State × Option String
  pub upsert_daily : State → String → (bytes_in bytes_out : ℤ) → State × Option String
  pub daily : State → String → ℕ → Result String (List TrafficUsage)
  pub period_total : State → String → ℕ → Result String (ℤ × ℤ)

pub data TrafficError : Type 0 where
  daily_failed updating_used fetching_subscription totals_failed : String → TrafficError
  subscription_expired quota_exceeded : TrafficError

pub record UsageSummary : Type 0 where
  pub plan : PlanType
  pub quota_bytes : ℤ
  pub used_bytes : ℤ
  pub expires_at : Option ℕ
  pub period_bytes_in : ℤ
  pub period_bytes_out : ℤ
  pub daily : List TrafficUsage

is_zero : ℤ → Bool
is_zero (pos n) = eqb n 0
is_zero (negsuc n) = false

module _ (ledger : Ledger) where
  open ledger use {State}

  used_added : State × Option String → State × Option TrafficError
  used_added (st, none) = (st, none)
  used_added (st, some e) = (st, some (updating_used e))

  after_daily : String → ℤ → State × Option String → State × Option TrafficError
  after_daily user total (st, some e) = (st, some (daily_failed e))
  after_daily user total (st, none) = used_added (ledger.add_used st user total)

  -- RecordUsage
  pub record_usage : State → String → (bytes_in bytes_out : ℤ) → State × Option TrafficError
  unfolding is_zero
  record_usage st user bytes_in bytes_out =
      if is_zero bytes_in && is_zero bytes_out
      then (st, none)
      else after_daily user (wrap_64 (bytes_in +ℤ bytes_out))
          (ledger.upsert_daily st user bytes_in bytes_out)

  -- CheckQuota once the subscription is looked up.
  checked : ℕ → Result FindError Subscription → Option TrafficError
  checked now (err not_found) = none
  checked now (err (find_failed e)) = some (fetching_subscription e)
  checked now (ok s) =
      if is_expired now s
      then some subscription_expired
      else if leb_ℤ (remaining_bytes s) (pos 0)
      then some quota_exceeded
      else none

  -- CheckQuota
  pub check_quota : ℕ → State → String → Option TrafficError
  check_quota now st user = checked now (ledger.find_subscription st user)

  -- The subscription of a summary, a free one where the user has none.
  subscribed : Result FindError Subscription → Result TrafficError Subscription
  subscribed (ok s) = ok s
  subscribed (err (find_failed e)) = err (fetching_subscription e)
  subscribed (err not_found) = ok (record {
    user_id = "";
    plan = plan_free;
    bandwidth_quota = pos (10 * 1024 * 1024 * 1024);
    bandwidth_used = pos 0;
    max_devices = pos 0;
    expires_at = none;
    is_active = false;
  })

  listed : Result String (List TrafficUsage) → Result TrafficError (List TrafficUsage)
  listed (ok rows) = ok rows
  listed (err e) = err (daily_failed e)

  totalled : Result String (ℤ × ℤ) → Result TrafficError (ℤ × ℤ)
  totalled (ok sums) = ok sums
  totalled (err e) = err (totals_failed e)

  -- GetSummary, for the period that starts at `since`.
  pub get_summary : (since : ℕ) → State → String → Result TrafficError UsageSummary
  unfolding subscribed listed totalled
  get_summary since st user = do
    s ← subscribed (ledger.find_subscription st user)
    rows ← listed (ledger.daily st user 30)
    sums ← totalled (ledger.period_total st user since)
    ok (record {
      plan = s.plan;
      quota_bytes = s.bandwidth_quota;
      used_bytes = s.bandwidth_used;
      expires_at = s.expires_at;
      period_bytes_in = sums.0;
      period_bytes_out = sums.1;
      daily = rows;
    })
