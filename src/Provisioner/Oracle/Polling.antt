-- ===== src/Provisioner/Oracle/Polling.antt =====
-- The loops of internal/provisioner/oracle.go that poll: where their results come from, and that
-- they end.
use ghost_node.Prelude.{
  ℕ, zero, suc, ◌+◌, ◌≤◌, ◌<◌, String, ◌≡◌, refl, ap, subst, ◌≢◌, inl, inr, Option, none, some,
  arith, ltb, Bool-cases, Result, ok, err,
}
use ghost_node.Provisioner.Ociclient.{Cloud}
use ghost_node.Provisioner.Oracle.{
  OracleError, out_of_fuel, Step, done, retry, resume, decide, poll,
}

-- A round does not itself run out of fuel.
unfoldable pub IsReal : {A : Type 0} → Step A → Type 0
IsReal (done r) = r ≢ err out_of_fuel
IsReal (retry e) = e ≢ out_of_fuel

module _ (cloud : Cloud) where
  open cloud use {State, now, pause}

  decide_sound :
      {A : Type 0} (again : State → State × Result OracleError A) (deadline : ℕ)
      (x : State × Step A) (a : A) (P : Type 0)
      → ((s : State) → (again s).1 ≡ ok a → P)
      → (x.1 ≡ done (ok a) → P)
      → (decide cloud again deadline x).1 ≡ ok a
      → P
  unfolding decide resume
  decide_sound again deadline (st, done r) a P later here h = here (ap done h)
  decide_sound again deadline (st, retry e) a P later here h =
      elim (Bool-cases (ltb deadline (now st))) [
        | inl over ↦ absurd (let g = rw over at h in ground arith)
        | inr early ↦ resumed (pause st) (rw early at h)
      ]
    where
      resumed : (x : State × Option String) → (resume cloud again x).1 ≡ ok a → P
      resumed (s, none) g = later s g
      resumed (s, some e) g = absurd (ground arith)

  -- A result comes from some call of the loop.
  pub poll_sound :
      {A : Type 0} (ask : State → State × Step A) (fuel deadline : ℕ) (st : State) (a : A)
      → (poll cloud ask fuel deadline st).1 ≡ ok a
      → (s : State) × ((ask s).1 ≡ done (ok a))
  unfolding poll
  poll_sound ask zero deadline st a h = absurd (ground arith)
  poll_sound ask (suc fuel) deadline st a h =
      decide_sound (poll cloud ask fuel deadline) deadline (ask st) a _
        (λ s. poll_sound ask fuel deadline s a) (λ e. (st, e)) h

  decide_ends :
      {A : Type 0} (again : State → State × Result OracleError A) (deadline from : ℕ)
      (x : State × Step A)
      → IsReal x.1
      → from ≤ now x.0
      → ((s : State) → (pause s).1 ≡ none → now s < now (pause s).0)
      → ((s : State) → from < now s → from ≤ deadline → (again s).1 ≢ err out_of_fuel)
      → (decide cloud again deadline x).1 ≢ err out_of_fuel
  unfolding decide resume IsReal
  decide_ends again deadline from (st, done r) real later ticks rest = real
  decide_ends again deadline from (st, retry e) real later ticks rest =
      elim (Bool-cases (ltb deadline (now st))) [
        | inl over ↦ rw over (λ g. real (ground arith))
        | inr early ↦ rw early (resumed (pause st) refl (ground arith))
      ]
    where
      resumed :
          (x : State × Option String)
          → pause st ≡ x
          → from ≤ deadline
          → (resume cloud again x).1 ≢ err out_of_fuel
      resumed (s, none) e due =
          let moved : now st < now s =
            (subst (λ x. now st < now x.0) e (ticks st (ap (λ x. x.1) e))) in
          rest s (omega arith) due
      resumed (s, some c) e due = λ g. absurd (ground arith)

  -- With more rounds than instants to the deadline, a loop does not run out of them, where a call does
  -- not turn the clock back and a pause that is not broken off moves it.
  pub poll_ends :
      {A : Type 0} (ask : State → State × Step A) (fuel deadline : ℕ) (st : State)
      → ((s : State) → IsReal (ask s).1 × (now s ≤ now (ask s).0))
      → ((s : State) → (pause s).1 ≡ none → now s < now (pause s).0)
      → deadline < now st + fuel
      → (poll cloud ask (suc fuel) deadline st).1 ≢ err out_of_fuel
  unfolding poll
  poll_ends ask zero deadline st real ticks enough =
      decide_ends (λ s. (s, err out_of_fuel)) deadline (now st) (ask st) (real st).0 (real st).1
        ticks (λ s past due. absurd (omega arith))
  poll_ends ask (suc fuel) deadline st real ticks enough =
      decide_ends (poll cloud ask (suc fuel) deadline) deadline (now st) (ask st) (real st).0
        (real st).1 ticks (λ s past due. poll_ends ask fuel deadline s real ticks (omega arith))
