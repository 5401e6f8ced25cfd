-- ===== src/Provisioner/Probe/Outcome.antt =====
-- What the probe of internal/provisioner/probe.go has established when it returns.
use ghost_node.Prelude.{
  ℕ, zero, suc, ◌+◌, ◌≤◌, ◌<◌, String, ◌≡◌, refl, ◌≢◌, ◌⊎◌, inl, inr, true, false, none, some,
  arith, eqb, eqb_iff, Bool-cases, Option-cases, Result, ok, err, Result-cases,
}
use ghost_node.Prelude.Int.{ℤ}
use ghost_node.Provisioner.Probe.{
  ProbeResult, Network, started, pause_before, rounds, at_least_one, probe_tcp,
}

abbrev pub Failed : Result String ℕ → Type 0
Failed r = (e : String) × (r ≡ err e)

-- Dial `k` is the first of the dials i, …, i + left - 1 to succeed.
pub record IsFirst (net : Network) (i left k latency : ℕ) : Type 0 where
  pub from : i ≤ k
  pub below : k < i + left
  pub connected : net.dial k ≡ ok latency
  pub earlier : (j : ℕ) → i ≤ j → j < k → Failed (net.dial j)

IsFirst-suc :
    {net : Network} {i left k latency : ℕ} (e : String)
    → net.dial i ≡ err e
    → IsFirst net (i + 1) left k latency
    → IsFirst net i (suc left) k latency
IsFirst-suc {net} {i} e failed f = record {
  from = omega (arith, f.from);
  below = omega (arith, f.below);
  connected = f.connected;
  earlier = λ j ge lt. elim (Bool-cases (eqb j i)) [
    | inl same ↦ (e, rw ((eqb_iff j i).0 same) failed)
    | inr other ↦ f.earlier j (ground arith) lt
  ];
}

module _ (net : Network) (left i : ℕ) (result : ProbeResult) where
  rounds_connected :
      {latency : ℕ}
      → pause_before net i ≡ none
      → net.dial i ≡ ok latency
      → rounds net (suc left) i result
        ≡ record result { reachable = true; latency = latency; error = none }
  unfolding rounds
  rounds_connected quiet good = ground arith

  rounds_failed :
      {e : String}
      → pause_before net i ≡ none
      → net.dial i ≡ err e
      → rounds net (suc left) i result ≡ rounds net left (i + 1) (record result { error = some e })
  unfolding rounds
  rounds_failed quiet bad = ground arith

  rounds_cancelled :
      {e : String}
      → pause_before net i ≡ some e
      → rounds net (suc left) i result ≡ record result { error = some e }
  unfolding rounds
  rounds_cancelled stop = ground arith

rounds_sound :
    (net : Network) (left i : ℕ) (result : ProbeResult)
    → result.reachable ≡ false
    → (rounds net left i result).reachable ≡ true
    → (k : ℕ) × IsFirst net i left k (rounds net left i result).latency
rounds_sound net zero i result fresh h = absurd (unfold rounds in cc)
rounds_sound net (suc left) i result fresh h = elim (Option-cases (pause_before net i)) [
  | inr (done, e) ↦ absurd (ground (arith, rounds_cancelled net left i result e))
  | inl go ↦ elim (Result-cases (net.dial i)) [
    | inl (lat, e) ↦ (
      i,
      rw (rounds_connected net left i result go e) (record {
        from = omega arith;
        below = omega arith;
        connected = e;
        earlier = λ j ge lt. absurd (omega arith);
      }),
    )
    | inr (x, e) ↦
        let step = rounds_failed net left i result go e in
        let (k, first) =
          rounds_sound net left (i + 1) (record result { error = some x }) fresh (rw step at h) in
        (k, rw step (IsFirst-suc x e first))
  ]
]

rounds_complete :
    (net : Network) (left i k : ℕ) {latency : ℕ} (result : ProbeResult)
    → i ≤ k
    → k < i + left
    → net.dial k ≡ ok latency
    → ((j : ℕ) → i ≤ j → j ≤ k → pause_before net j ≡ none)
    → (rounds net left i result).reachable ≡ true
rounds_complete net zero i k result ge lt good quiet = absurd (omega arith)
rounds_complete net (suc left) i k result ge lt good quiet = elim (Result-cases (net.dial i)) [
  | inl (lat, e) ↦ rw (rounds_connected net left i result (quiet i (omega arith) ge) e)
  | inr (x, e) ↦
      let next : i + 1 ≤ k = ground arith in
      rw (rounds_failed net left i result (quiet i (omega arith) ge) e) (
        rounds_complete net left (i + 1) k _ next (omega arith) good
          (λ j from upto. quiet j (omega arith) upto))
]

pub at_least_one-pos : (attempts : ℤ) → 0 < at_least_one attempts
at_least_one-pos attempts = ground arith

rounds_error :
    (net : Network) (left i : ℕ) (result : ProbeResult)
    → (result.error ≢ none) ⊎ (0 < left)
    → (rounds net left i result).reachable ≡ false
    → (rounds net left i result).error ≢ none
unfolding rounds
rounds_error net zero i result (inl h) f = h
rounds_error net zero i result (inr h) f = absurd (omega arith)
rounds_error net (suc left) i result h f = elim (Option-cases (pause_before net i)) [
  | inr (done, e) ↦ rw (rounds_cancelled net left i result e) (λ q. cc)
  | inl go ↦ elim (Result-cases (net.dial i)) [
    | inl (lat, e) ↦ absurd (ground (arith, rounds_connected net left i result go e))
    | inr (x, e) ↦
        let step = rounds_failed net left i result go e in
        rw step (
          rounds_error net left (i + 1) (record result { error = some x }) (inl (λ q. cc))
            (rw step at f))
  ]
]

-- A probe that succeeds reports the latency of the first dial, among the allowed ones, that
-- connected; all dials before it failed.
pub probe_tcp_sound :
    (net : Network) (attempts : ℤ)
    → (probe_tcp net attempts).reachable ≡ true
    → (k : ℕ) × IsFirst net 0 (at_least_one attempts) k (probe_tcp net attempts).latency
unfolding probe_tcp
probe_tcp_sound net attempts h = rounds_sound net (at_least_one attempts) 0 started refl h

-- The probe succeeds if one of the allowed dials would connect and the context is not done
-- during a pause up to it.
pub probe_tcp_complete :
    (net : Network) (attempts : ℤ) (k latency : ℕ)
    → k < at_least_one attempts
    → net.dial k ≡ ok latency
    → ((j : ℕ) → 0 < j → j ≤ k → net.pause j ≡ none)
    → (probe_tcp net attempts).reachable ≡ true
unfolding probe_tcp
probe_tcp_complete net attempts k latency lt good quiet =
    rounds_complete net (at_least_one attempts) 0 k started (omega arith) (omega arith) good
      (λ j from upto. unfold pause_before in ground (arith, quiet j))

-- A probe that does not succeed reports an error.
pub probe_tcp_error :
    (net : Network) (attempts : ℤ)
    → (probe_tcp net attempts).reachable ≡ false
    → (probe_tcp net attempts).error ≢ none
unfolding probe_tcp
probe_tcp_error net attempts f =
    rounds_error net (at_least_one attempts) 0 started (inr (at_least_one-pos attempts)) f
