-- ===== src/ControlPlane/Traffic/Tests.antt =====
-- A ledger of one subscription, and instances on it of the theorems on
-- internal/service/traffic_service.go.
use ghost_node.Prelude.{◌+◌, ◌≡◌, refl, ap, ◌↔◌, true, none, [], arith, Result, ok, err}
use ghost_node.Prelude.Int.{pos, ◌+ℤ◌}
use ghost_node.ControlPlane.Models.{plan_free, Subscription, wrap_64}
use ghost_node.ControlPlane.Auth.{FindError}
use ghost_node.ControlPlane.Traffic.{
  Ledger, record_usage, check_quota, is_zero, after_daily, used_added,
}
use ghost_node.ControlPlane.Traffic.Quota.{
  IsWithin, check_quota_iff, record_usage_counts, with_used,
}

abbrev basic : Subscription
basic = record {
  user_id = "u1";
  plan = plan_free;
  bandwidth_quota = pos 100;
  bandwidth_used = pos 70;
  max_devices = pos 3;
  expires_at = none;
  is_active = true;
}

abbrev ledger : Ledger
ledger = record {
  State = Subscription;
  find_subscription = λ s user. ok s;
  add_used = λ s user amount. (record s { bandwidth_used = s.bandwidth_used +ℤ amount }, none);
  upsert_daily = λ s user i o. (s, none);
  daily = λ s user days. ok [];
  period_total = λ s user since. ok (pos 0, pos 0);
}

abbrev taken : Result FindError Subscription → Subscription
taken (ok s) = s
taken (err e) = basic

check_quota_iff_example : (check_quota ledger 5 basic "u1" ≡ none) ↔ IsWithin 5 basic 100 70
check_quota_iff_example =
    check_quota_iff ledger 5 basic "u1" basic 100 70 refl refl refl (omega arith) (omega arith)

recorded : record_usage ledger basic "u1" (pos 10) (pos 20) ≡ (with_used basic 100, none)
unfolding record_usage is_zero after_daily used_added wrap_64 ◌+ℤ◌
recorded = refl

record_usage_counts_example :
    ledger.find_subscription (with_used basic 100) "u1" ≡ ok (with_used basic (70 + (10 + 20)))
record_usage_counts_example =
    record_usage_counts ledger basic (with_used basic 100) "u1" basic 70 10 20 (λ i o. refl)
      (λ t amount sub added found.
        ap (λ r. ok (record (taken r) { bandwidth_used = (taken r).bandwidth_used +ℤ amount }))
          found)
      refl refl (omega arith) recorded
