-- ===== src/ControlPlane/Traffic/Quota.antt =====
-- Whom CheckQuota of internal/service/traffic_service.go lets through, and what RecordUsage does to
-- it.
use ghost_node.Prelude.{
  ℕ, ◌+◌, ◌<◌, String, ◌≡◌, ap, ◌∙◌, subst, ◌↔◌, inl, inr, false, ◌&&◌, Option, none, some, arith,
  leb, eqb, Bool-cases, ok,
}
use ghost_node.Prelude.Int.{ℤ, pos, ◌+ℤ◌, ◌-ℤ◌, leb_ℤ}
use ghost_node.ControlPlane.Traffic.{
  Ledger, check_quota, checked, record_usage, after_daily, used_added, is_zero,
}
use ghost_node.ControlPlane.Models.{Subscription, is_expired, wrap_64, remaining_bytes}

-- The subscription is not expired, and less than its quota is used.
abbrev pub IsWithin : ℕ → Subscription → ℕ → ℕ → Type 0
IsWithin now s quota used = (is_expired now s ≡ false) × (used < quota)

within-checked :
    (quota used : ℕ)
    → quota < 9223372036854775808
    → used < 9223372036854775808
    → leb_ℤ (wrap_64 (pos quota -ℤ pos used)) (pos 0) ≡ leb quota used
unfolding wrap_64 ◌-ℤ◌
within-checked quota used small few = ground arith

remaining-checked :
    (s : Subscription) (quota used : ℕ)
    → s.bandwidth_quota ≡ pos quota
    → s.bandwidth_used ≡ pos used
    → quota < 9223372036854775808
    → used < 9223372036854775808
    → leb_ℤ (remaining_bytes s) (pos 0) ≡ leb quota used
unfolding remaining_bytes
remaining-checked s quota used q u small few = rw (q, u) (within-checked quota used small few)

total-wrapped : (a b : ℕ) → a + b < 9223372036854775808 → wrap_64 (pos a +ℤ pos b) ≡ pos (a + b)
unfolding wrap_64 ◌+ℤ◌
total-wrapped a b small = ground arith

sum-pos : (a b : ℕ) → pos a +ℤ pos b ≡ pos (a + b)
unfolding ◌+ℤ◌
sum-pos a b = ground arith

-- The subscription with that many bytes used.
abbrev pub with_used : Subscription → ℕ → Subscription
with_used s used = record s { bandwidth_used = pos used }

with_used-same :
    (s : Subscription) (used more : ℕ)
    → s.bandwidth_used ≡ pos used
    → record s { bandwidth_used = s.bandwidth_used +ℤ pos more } ≡ with_used s (used + more)
with_used-same s used more u = ap (λ b. record s { bandwidth_used = b }) (rw u (sum-pos used more))

with_used_zero :
    (s : Subscription) (used : ℕ) → s.bandwidth_used ≡ pos used → s ≡ with_used s (used + 0)
with_used_zero s used u = ap (λ b. record s { bandwidth_used = b }) (ground arith)

module _ (ledger : Ledger) where
  open ledger use {State}

  -- Where a user has a subscription whose quota and use are numbers of bytes that an int64 holds,
  -- CheckQuota lets the user pass exactly if it is not expired and its use is below its quota.
  pub check_quota_iff :
      (now : ℕ) (st : State) (user : String) (s : Subscription) (quota used : ℕ)
      → ledger.find_subscription st user ≡ ok s
      → s.bandwidth_quota ≡ pos quota
      → s.bandwidth_used ≡ pos used
      → quota < 9223372036854775808
      → used < 9223372036854775808
      → (check_quota ledger now st user ≡ none) ↔ IsWithin now s quota used
  unfolding check_quota checked
  check_quota_iff now st user s quota used found q u small few =
      let test = remaining-checked s quota used q u small few in
      rw found ((λ h. (ground (arith), ground (arith))), (λ h. ground (arith)))

  used_added-ok :
      (x : State × Option String) (st' : State)
      → used_added ledger x ≡ (st', none)
      → x ≡ (st', none)
  unfolding used_added
  used_added-ok (s, none) st' h = ground arith
  used_added-ok (s, some e) st' h = absurd (ground arith)

  after_daily-ok :
      (user : String) (total : ℤ) (x : State × Option String) (st' : State)
      → after_daily ledger user total x ≡ (st', none)
      → ledger.add_used x.0 user total ≡ (st', none)
  unfolding after_daily
  after_daily-ok user total (s, none) st' h = used_added-ok _ st' h
  after_daily-ok user total (s, some e) st' h = absurd (ground arith)

  -- A RecordUsage without error adds the bytes of both directions to what the user's subscription has
  -- used, as long as an int64 holds the sum; the daily row leaves subscriptions as they are, and
  -- the update adds its amount to bandwidth_used.
  pub record_usage_counts :
      (st st' : State) (user : String) (s : Subscription) (used bytes_in bytes_out : ℕ)
      → ((i o : ℤ)
          → ledger.find_subscription (ledger.upsert_daily st user i o).0 user
            ≡ ledger.find_subscription st user)
      → ((t : State) (amount : ℤ) (sub : Subscription)
          → (ledger.add_used t user amount).1 ≡ none
          → ledger.find_subscription t user ≡ ok sub
          → ledger.find_subscription (ledger.add_used t user amount).0 user
            ≡ ok (record sub { bandwidth_used = sub.bandwidth_used +ℤ amount }))
      → ledger.find_subscription st user ≡ ok s
      → s.bandwidth_used ≡ pos used
      → used + bytes_in + bytes_out < 9223372036854775808
      → record_usage ledger st user (pos bytes_in) (pos bytes_out) ≡ (st', none)
      → ledger.find_subscription st' user ≡ ok (with_used s (used + (bytes_in + bytes_out)))
  unfolding record_usage is_zero
  record_usage_counts st st' user s used bytes_in bytes_out keeps adds found u small h =
      elim (Bool-cases (eqb bytes_in 0 && eqb bytes_out 0)) [
        | inl idle ↦
            let g = rw idle at h in
            subst
              (λ t.
                ledger.find_subscription t user ≡ ok (with_used s (used + (bytes_in + bytes_out))))
              (ap (λ x. x.0) g)
              (subst (λ n. ledger.find_subscription st user ≡ ok (with_used s (used + n)))
                (ground arith)
                (subst (λ x. ledger.find_subscription st user ≡ ok x) (with_used_zero s used u)
                  found))
        | inr busy ↦
            let total = wrap_64 (pos bytes_in +ℤ pos bytes_out) in
            let t = (ledger.upsert_daily st user (pos bytes_in) (pos bytes_out)).0 in
            let g =
              after_daily-ok user total (ledger.upsert_daily st user (pos bytes_in) (pos bytes_out))
                st' (rw busy at h) in
            let grown =
              adds t total s (ap (λ x. x.1) g) (keeps (pos bytes_in) (pos bytes_out) ∙ found) in
            let exact : total ≡ pos (bytes_in + bytes_out) =
              total-wrapped bytes_in bytes_out (omega arith) in
            subst
              (λ x.
                ledger.find_subscription x user ≡ ok (with_used s (used + (bytes_in + bytes_out))))
              (ap (λ x. x.0) g)
              (grown
                ∙ ap ok (
                    ap (λ b. record s { bandwidth_used = s.bandwidth_used +ℤ b }) exact
                    ∙ with_used-same s used (bytes_in + bytes_out) u))
      ]
