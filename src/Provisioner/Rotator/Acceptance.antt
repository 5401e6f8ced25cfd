-- ===== src/Provisioner/Rotator/Acceptance.antt =====
-- Which addresses internal/provisioner/rotator.go accepts, and in how many draws.
use ghost_node.Prelude.{
  ℕ, zero, suc, ◌+◌, ◌≤◌, ◌<◌, String, ◌≡◌, refl, sym, subst, ◌⊎◌, inl, inr, Bool, true, false,
  Option, none, some, List, [], ◌∷◌, ◌++◌, arith, eqb, if◌then◌else◌, eqb-suc_zero, Bool-cases,
  length, length-concat,
}
use ghost_node.Provisioner.Burned.{BurnedStore, Why}
use ghost_node.Provisioner.Probe.{ProbeResult, skipped, probe_tcp, at_least_one}
use ghost_node.Provisioner.Probe.Outcome.{at_least_one-pos}
use ghost_node.Provisioner.Rotator.{
  failed, settled, again, draws, run_post, burn, fresh_rotation, World, Target, Provider, Rotator,
  Session, Rotation, Rejection, unverified_kept, unreachable, weigh, drawn, verdict, verify, round,
  note_old, reject, probe_port_of, rotate, finish, rotated, PostAction, Turn, start,
}
use ghost_node.Provisioner.Rotator.Actions.{run_post-result}
use ghost_node.Provisioner.Rotator.Loop.{Ends, draws_inv}

note_old-attempts :
    (ip : String) (res : Rotation)
    → ((note_old ip res).attempts ≡ res.attempts) × ((note_old ip res).rejected ≡ res.rejected)
unfolding note_old
note_old-attempts ip res = ground arith

-- The last draw is not held against the store.
verdict-last :
    (is_ipv6 : String → Bool) (w : World) (r : Rotator is_ipv6 w) (st : w.State) (ip : String)
    (store : Option BurnedStore)
    → verdict is_ipv6 w r (eqb 0 0) st ip store ≡ none
unfolding verdict
verdict-last is_ipv6 w r st ip none = refl
verdict-last is_ipv6 w r st ip (some store) = refl

module _ (is_ipv6 : String → Bool) (w : World) (r : Rotator is_ipv6 w) (t : Target) where
  -- The probe in the result is one of the new address, at the port of the target.
  abbrev pub IsProbed : Rotation → Type 0
  IsProbed res =
      (st : w.State) × (res.probe
        ≡ probe_tcp (w.network st res.new_ip (probe_port_of t)) r.probe_attempts)

  -- How the last address was accepted. The rejected addresses are those of the rounds before, and
  -- the new one too if it is kept unverified.
  abbrev pub Accepted : ℕ → Rotation → Type 0
  Accepted allowed res =
      ((r.probe ≡ false) × (res.probe ≡ skipped) × (length res.rejected + 1 ≡ res.attempts))
      ⊎ ((r.probe ≡ true)
          × IsProbed res
          × (res.probe.reachable ≡ true)
          × (length res.rejected + 1 ≡ res.attempts))
      ⊎ ((r.probe ≡ true)
          × IsProbed res
          × (res.probe.reachable ≡ false)
          × (res.attempts ≡ allowed)
          × ((earlier : List Rejection) × (res.rejected
                ≡ earlier ++ unverified_kept res.new_ip ∷ [])
              × (length earlier + 1 ≡ res.attempts)))

  -- Some draw of the provider gave the address.
  abbrev pub IsDrawn : Option (Provider is_ipv6 w) → String → Type 0
  IsDrawn none ip = ⊥
  IsDrawn (some draw) ip = (st : w.State) × ((draw st t.instance_id).1.new_ip ≡ ip)

module _ (is_ipv6 : String → Bool) (w : World) (r : Rotator is_ipv6 w) (t : Target)
    (draw : Provider is_ipv6 w) (allowed : ℕ) where
  -- Before round `attempt`, one address was rejected in each round before it.
  abbrev Before : ℕ → ℕ → Session is_ipv6 w → Type 0
  Before left attempt s = (attempt + left ≡ allowed) × (length s.result.rejected + 1 ≡ attempt)

  abbrev Done : Session is_ipv6 w → Type 0
  Done s =
      Accepted is_ipv6 w r t allowed s.result
      × (s.result.attempts ≤ allowed)
      × IsDrawn is_ipv6 w r t (some draw) s.result.new_ip

  abbrev Any : Session is_ipv6 w → String → Type 0
  Any s e = Unit

  abbrev GoesOn : ℕ → ℕ → Session is_ipv6 w → Type 0
  GoesOn left attempt s = (l : ℕ) × (left ≡ suc l) × Before l (attempt + 1) s

  Ends-then :
      (left attempt : ℕ) (b : Bool) (x y : Turn is_ipv6 w)
      → b ≡ true
      → Ends is_ipv6 w Any Done (GoesOn left attempt) x
      → Ends is_ipv6 w Any Done (GoesOn left attempt) (if b then x else y)
  Ends-then left attempt true x y e h = h
  Ends-then left attempt false x y e h = absurd (ground arith)

  Ends-else :
      (left attempt : ℕ) (b : Bool) (x y : Turn is_ipv6 w)
      → b ≡ false
      → Ends is_ipv6 w Any Done (GoesOn left attempt) y
      → Ends is_ipv6 w Any Done (GoesOn left attempt) (if b then x else y)
  Ends-else left attempt false x y e h = h
  Ends-else left attempt true x y e h = absurd (ground arith)

  -- The probe of `verify`.
  abbrev probe_of : Session is_ipv6 w → ProbeResult
  probe_of s = probe_tcp (w.network s.state s.result.new_ip (probe_port_of t)) r.probe_attempts

  -- The session after a probe that failed.
  abbrev burnt : Session is_ipv6 w → Session is_ipv6 w
  burnt s =
      let st = w.probed s.state s.result.new_ip (probe_port_of t) in
      record {
        state = st;
        store = burn is_ipv6 w st s.result.new_ip s.store;
        result = record s.result { probe = probe_of s };
      }

  verify-Ends :
      (left attempt : ℕ) (s : Session is_ipv6 w)
      → r.probe ≡ true
      → IsDrawn is_ipv6 w r t (some draw) s.result.new_ip
      → s.result.attempts ≡ attempt
      → Before left attempt s
      → Ends is_ipv6 w Any Done
          (GoesOn left attempt)
          (verify is_ipv6 w r t (eqb left 0) s.result.new_ip s)
  unfolding verify reject
  verify-Ends left attempt s probing from same h = elim (Bool-cases (probe_of s).reachable) [
    | inl good ↦ Ends-then left attempt _ _ _ good (
      inr (inl (probing, (s.state, refl), good, omega (arith, h.1, same))),
      omega (arith, h.0, same),
      from,
    )
    | inr bad ↦ Ends-else left attempt _ _ _ bad (unreached left bad h)
  ]
    where
      unreached :
          (n : ℕ)
          → (probe_of s).reachable ≡ false
          → Before n attempt s
          → Ends is_ipv6 w Any Done (GoesOn n attempt) (
              if eqb n 0
              then settled (reject is_ipv6 w (unverified_kept s.result.new_ip) (burnt s))
              else again
                  (reject is_ipv6 w (unreachable s.result.new_ip (probe_of s).error) (burnt s)))
      unreached zero bad k = (
        inr (
            inr (
              probing,
              (s.state, refl),
              bad,
              omega (arith, k.0, same),
              (s.result.rejected, refl, omega (arith, k.1, same)),
            )),
        omega (arith, k.0, same),
        from,
      )
      unreached (suc n) bad k =
          Ends-else (suc n) attempt _ _ _ (eqb-suc_zero n)
            (n, refl, (omega (arith, k.0), omega (arith, k.1, length-concat s.result.rejected _)))

  weigh-Ends :
      (left attempt : ℕ) (s : Session is_ipv6 w) (probing : Bool) (v : Option Why)
      → r.probe ≡ probing
      → (left ≡ 0 → v ≡ none)
      → IsDrawn is_ipv6 w r t (some draw) s.result.new_ip
      → s.result.attempts ≡ attempt
      → Before left attempt s
      → Ends is_ipv6 w Any Done
          (λ s'. (l : ℕ) × (left ≡ suc l) × Before l (attempt + 1) s')
          (weigh is_ipv6 w r t (eqb left 0) s.result.new_ip s probing v)
  unfolding weigh reject
  weigh-Ends zero attempt s probing (some why) on last from same h = absurd (cc (last refl))
  weigh-Ends (suc left) attempt s probing (some why) on last from same h =
      (left, refl, (omega (arith, h.0), omega (arith, h.1, length-concat s.result.rejected _)))
  weigh-Ends left attempt s true none on last from same h =
      verify-Ends left attempt s on from same h
  weigh-Ends left attempt s false none on last from same h =
      (inl (on, refl, omega (arith, h.1, same)), omega (arith, h.0, same), from)

  drawn-Ends :
      (left attempt : ℕ) (ip : String) (s : Session is_ipv6 w) (e : Option String)
      → IsDrawn is_ipv6 w r t (some draw) ip
      → s.result.attempts ≡ attempt
      → Before left attempt s
      → Ends is_ipv6 w Any Done
          (λ s'. (l : ℕ) × (left ≡ suc l) × Before l (attempt + 1) s')
          (drawn is_ipv6 w r t (eqb left 0) ip s e)
  unfolding drawn
  drawn-Ends left attempt ip s (some e) from same h = tt
  drawn-Ends left attempt ip s none from same h =
      weigh-Ends left attempt (record s { result = record s.result { new_ip = ip } }) r.probe _ refl
        (λ z. rw z (verdict-last is_ipv6 w r s.state ip s.store)) from same h

  round-Ends :
      (left attempt : ℕ) (s : Session is_ipv6 w)
      → Before left attempt s
      → Ends is_ipv6 w Any Done
          (λ s'. (l : ℕ) × (left ≡ suc l) × Before l (attempt + 1) s')
          (round is_ipv6 w r draw t (eqb left 0) attempt s)
  unfolding round
  round-Ends left attempt s h =
      let (st, d) = draw s.state t.instance_id in
      let kept = note_old-attempts d.old_ip (record s.result { attempts = attempt }) in
      drawn-Ends left attempt d.new_ip _ d.error (s.state, refl) kept.0 (h.0, rw kept.1 h.1)

  finish-Done :
      (post : List (PostAction is_ipv6 w)) (turn : Turn is_ipv6 w) (s : Session is_ipv6 w)
      → Ends is_ipv6 w Any Done (λ _. ⊥) turn
      → finish is_ipv6 w t post turn ≡ rotated s
      → Done s
  unfolding finish
  finish-Done post (failed s' e) s h eq = cc
  finish-Done post (again s') s h eq = absurd h
  finish-Done post (settled s') s h eq =
      let s'' : Session is_ipv6 w = record s' {
        store = burn is_ipv6 w s'.state s'.result.old_ip s'.store;
      } in
      let same : run_post is_ipv6 w t post s'' ≡ s = cc in
      subst (λ x. Done x) same
        (subst
          (λ (res : Rotation).
            Accepted is_ipv6 w r t allowed res
            × (res.attempts ≤ allowed)
            × IsDrawn is_ipv6 w r t (some draw) res.new_ip)
          (sym (run_post-result is_ipv6 w t post s'')) h)

-- A rotation that returns has drawn the new address from the provider, at most the allowed number of
-- times, and rejected one address in each draw before. The new address was not probed because probing
-- is off; or it was probed at the port of the target and reachable; or it was probed there in the
-- last allowed draw and not reachable, and is kept, and listed as rejected too, as unverified.
pub rotate-Accepted :
    (is_ipv6 : String → Bool) (w : World) (r : Rotator is_ipv6 w) (t : Target) (st : w.State)
    (s : Session is_ipv6 w)
    → rotate is_ipv6 w r t st ≡ rotated s
    → Accepted is_ipv6 w r t (at_least_one r.attempts) s.result
      × (s.result.attempts ≤ at_least_one r.attempts)
      × IsDrawn is_ipv6 w r t r.provider s.result.new_ip
unfolding rotate start
rotate-Accepted is_ipv6 w r t st s h = begun r.provider h
  where
    init : Session is_ipv6 w
    init = record { state = st; store = r.burned_store; result = fresh_rotation t }

    loop :
        (draw : Provider is_ipv6 w) (n : ℕ)
        → 0 < n
        → Ends is_ipv6 w
            (Any is_ipv6 w r t draw n)
            (Done is_ipv6 w r t draw n)
            (λ _. ⊥)
            (draws is_ipv6 w r draw t n 1 init)
    loop draw zero h' = absurd (omega arith)
    loop draw (suc n) h' =
        draws_inv is_ipv6 w r draw t _ _ (Before is_ipv6 w r t draw (suc n))
          (λ left attempt s'. round-Ends is_ipv6 w r t draw (suc n) left attempt s') n 1 init
          (omega arith, refl)

    begun :
        (p : Option (Provider is_ipv6 w))
        → start is_ipv6 w r t st p ≡ rotated s
        → Accepted is_ipv6 w r t (at_least_one r.attempts) s.result
          × (s.result.attempts ≤ at_least_one r.attempts)
          × IsDrawn is_ipv6 w r t p s.result.new_ip
    begun none q = absurd (cc q)
    begun (some draw) q =
        finish-Done is_ipv6 w r t draw (at_least_one r.attempts) r.post _ s
          (loop draw (at_least_one r.attempts) (at_least_one-pos r.attempts)) q
