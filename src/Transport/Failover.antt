-- ===== src/Transport/Failover.antt =====
-- The failover of internal/transport/manager.go: when it switches, and to which engine.
use ghost_node.Prelude.{
  ℕ, ◌≤◌, String, ◌≡◌, refl, ◌∙◌, ◌≢◌, ◌⊎◌, inl, inr, Option, none, some, List, [], ◌∷◌, arith,
  eq_iff, ltb, Bool-cases, Option-cases, All, Some, Some-map, lookup,
}
use ghost_node.Transport.{
  Provider, HealthResult, Manager, check_one, poll, active_healthy, better, best_of, switch_to,
  select_best, check_and_failover,
}

-- Registered under `name`, and its health check passes.
abbrev pub IsHealthy : String → List (String × Provider) → Type 0
IsHealthy name ps = Some (λ e. (e.0 ≡ name) × (e.1.health_check ≡ none)) ps

-- No healthy engine answers faster.
abbrev pub IsFastest : ℕ → List (String × Provider) → Type 0
IsFastest latency ps = All (λ e. e.1.health_check ≡ none → latency ≤ e.1.get_latency) ps

-- The result of an engine that is healthy.
abbrev ComesFrom : HealthResult → List (String × Provider) → Type 0
ComesFrom r ps =
    Some (λ e. (e.0 ≡ r.transport) × (e.1.health_check ≡ none) × (e.1.get_latency ≡ r.latency)) ps

abbrev healthy_result : String → Provider → HealthResult
healthy_result name p = record {
  transport = name;
  status = p.get_status;
  latency = p.get_latency;
  error = none;
}

check_one-healthy :
    (name : String) (p : Provider)
    → p.health_check ≡ none
    → check_one name p ≡ healthy_result name p
unfolding check_one
check_one-healthy name p e = ground arith

module _ (name : String) (p : Provider) (ps : List (String × Provider))
    (best : Option HealthResult) where
  best_of-healthy :
      p.health_check ≡ none
      → best_of best (poll ((name, p) ∷ ps))
        ≡ best_of (better (healthy_result name p) best) (poll ps)
  unfolding best_of poll
  best_of-healthy e = rw (check_one-healthy name p e)

  best_of-unhealthy :
      {x : String}
      → p.health_check ≡ some x
      → best_of best (poll ((name, p) ∷ ps)) ≡ best_of best (poll ps)
  unfolding best_of poll check_one
  best_of-unhealthy e = rw e

-- What the loop has found when it ends with `b`, over the engines seen.
record Found (best : Option HealthResult) (ps : List (String × Provider)) (b : HealthResult)
    : Type 0 where
  source : (best ≡ some b) ⊎ ComesFrom b ps
  fastest : IsFastest b.latency ps
  improves : (a : HealthResult) → best ≡ some a → b.latency ≤ a.latency

better-cases :
    (r : HealthResult) (best : Option HealthResult)
    → (c : HealthResult) × (better r best ≡ some c)
      × ((c ≡ r) ⊎ (best ≡ some c))
      × (c.latency ≤ r.latency)
      × ((a : HealthResult) → best ≡ some a → c.latency ≤ a.latency)
unfolding better
better-cases r none = (r, refl, inl refl, omega arith, λ a e. absurd (cc e))
better-cases r (some a) = elim (Bool-cases (ltb r.latency a.latency)) [
  | inl lt ↦ (
    r,
    rw lt,
    inl refl,
    omega arith,
    λ a' e. let same : a ≡ a' = cc in rw (← same) (ground arith),
  )
  | inr ge ↦ (
    a,
    rw ge,
    inr refl,
    ground arith,
    λ a' e. let same : a ≡ a' = cc in rw (← same) (omega arith),
  )
]

best_of-Found :
    (ps : List (String × Provider)) (best : Option HealthResult) (b : HealthResult)
    → best_of best (poll ps) ≡ some b
    → Found best ps b
best_of-Found [] best b h = record {
  source = inl (unfold best_of poll in h);
  fastest = tt;
  improves = λ a e. let same : a ≡ b = (unfold best_of poll in cc) in rw same (omega arith);
}
best_of-Found ((name, p) ∷ ps) best b h = elim (Option-cases p.health_check) [
  | inr (x, e) ↦
      let f = best_of-Found ps best b (rw (best_of-unhealthy name p ps best e) at h) in
      record {
        source = elim f.source [ inl s ↦ inl s | inr s ↦ inr (inr s) ];
        fastest = (λ e'. cc, f.fastest);
        improves = f.improves;
      }
  | inl e ↦
      let (c, is_c, from, le, low) = better-cases (healthy_result name p) best in
      let f =
        best_of-Found ps (better (healthy_result name p) best) b
          (rw (best_of-healthy name p ps best e) at h) in
      record {
        source = elim f.source [
          | inl s ↦ elim from [
            | inl new ↦
                let same : b ≡ healthy_result name p = cc in
                inr (inl (rw same refl, e, rw same refl))
            | inr old ↦ inl (cc)
          ]
          | inr s ↦ inr (inr s)
        ];
        fastest = (λ _. omega (arith, f.improves c is_c), f.fastest);
        improves = λ a e'. omega (arith, f.improves c is_c, low a e');
      }
]

module _ (m : Manager) where
  switched :
      (x : String) (b : HealthResult)
      → active_healthy m.active (poll m.providers) ≡ some x
      → best_of none (poll m.providers) ≡ some b
      → (check_and_failover m).active ≡ b.transport
  unfolding check_and_failover select_best switch_to
  switched x b e f = ground (arith, eq_iff b.transport m.active)

best_of-some :
    (ps : List (String × Provider)) (a : HealthResult)
    → (b : HealthResult) × (best_of (some a) (poll ps) ≡ some b)
best_of-some [] a = (a, unfold best_of poll in refl)
best_of-some ((name, p) ∷ ps) a = elim (Option-cases p.health_check) [
  | inr (x, e) ↦ rw (best_of-unhealthy name p ps (some a) e) (best_of-some ps a)
  | inl e ↦
      let (c, is_c, _, _, _) = better-cases (healthy_result name p) (some a) in
      rw (best_of-healthy name p ps (some a) e, is_c) (best_of-some ps c)
]

best_of-none :
    (ps : List (String × Provider)) (name : String)
    → IsHealthy name ps
    → (b : HealthResult) × (best_of none (poll ps) ≡ some b)
best_of-none [] name h = elim h [ ]
best_of-none ((j, p) ∷ ps) name (inl (e, healthy)) =
    let (c, is_c, _, _, _) = better-cases (healthy_result j p) none in
    rw (best_of-healthy j p ps none healthy, is_c) (best_of-some ps c)
best_of-none ((j, p) ∷ ps) name (inr later) = elim (Option-cases p.health_check) [
  | inr (x, e) ↦ rw (best_of-unhealthy j p ps none e) (best_of-none ps name later)
  | inl e ↦
      let (c, is_c, _, _, _) = better-cases (healthy_result j p) none in
      rw (best_of-healthy j p ps none e, is_c) (best_of-some ps c)
]

-- The result of the active engine is the first entry under its name.
active_healthy-lookup :
    (active : String) (ps : List (String × Provider)) (p : Provider)
    → lookup active ps ≡ some p
    → active_healthy active (poll ps) ≡ p.health_check
unfolding lookup active_healthy poll check_one
active_healthy-lookup active [] p h = cc
active_healthy-lookup active ((name, q) ∷ ps) p h =
    ground (arith, active_healthy-lookup active ps p)

active_healthy-missing :
    (active : String) (ps : List (String × Provider))
    → lookup active ps ≡ none
    → active_healthy active (poll ps) ≡ none
unfolding lookup active_healthy poll check_one
active_healthy-missing active [] h = refl
active_healthy-missing active ((name, q) ∷ ps) h = ground (arith, active_healthy-missing active ps)

-- When the active engine is registered and fails its check, and some engine passes, the failover
-- leaves an engine active that passed its check.
pub failover_complete :
    (m : Manager) (p : Provider) (name : String)
    → lookup m.active m.providers ≡ some p
    → p.health_check ≢ none
    → IsHealthy name m.providers
    → IsHealthy (check_and_failover m).active m.providers
failover_complete m p name registered sick healthy =
    let (b, f) = best_of-none m.providers name healthy in
    let found = best_of-Found m.providers none b f in
    elim (Option-cases p.health_check) [
      | inl e ↦ absurd (sick e)
      | inr (x, e) ↦
          rw (switched m x b (active_healthy-lookup m.active m.providers p registered ∙ e) f)
            (elim found.source [
              | inl s ↦ absurd (cc s)
              | inr s ↦
                  Some-map
                    (λ (e' : String × Provider).
                      (e'.0 ≡ b.transport)
                      × (e'.1.health_check ≡ none)
                      × (e'.1.get_latency ≡ b.latency))
                    (λ e'. (e'.0 ≡ b.transport) × (e'.1.health_check ≡ none)) (λ e' h. (h.0, h.1))
                    m.providers s
            ])
    ]

-- When the active name is not registered, the empty name of a fresh manager included, a failover
-- changes nothing, however many engines are healthy.
pub failover_unregistered :
    (m : Manager) → lookup m.active m.providers ≡ none → check_and_failover m ≡ m
unfolding check_and_failover
failover_unregistered m h = rw (active_healthy-missing m.active m.providers h, check_and_failover)
