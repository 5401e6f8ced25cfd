-- ===== src/Provisioner/Rotator/Burning.antt =====
-- What internal/provisioner/rotator.go leaves in the store of burned addresses.
use ghost_node.Prelude.{
  ℕ, String, ◌≡◌, refl, sym, subst, ◌≢◌, inl, inr, Bool, true, false, Option, none, some, List,
  arith, eq_iff, Bool-cases, All, lookup, All-concat, All-map,
}
use ghost_node.Provisioner.Burned.{BurnedStore, Why, add, lookup-add}
use ghost_node.Provisioner.Probe.{probe_tcp, at_least_one}
use ghost_node.Provisioner.Rotator.{
  failed, settled, again, run_post, burn, World, Target, Provider, Rotator, Session, Rotation,
  Rejection, near_burned, unverified_kept, unreachable, weigh, drawn, verify, round, note_old,
  reject, probe_port_of, rotate, finish, rotated, PostAction, Turn, start, Why, rotation_failed,
}
use ghost_node.Provisioner.Rotator.Actions.{run_post-result, run_post-store}
use ghost_node.Provisioner.Rotator.Loop.{Ends, draws_keep}

abbrev pub Recorded : BurnedStore → String → Type 0
Recorded b ip = lookup ip b.entries ≢ none

-- An address that failed its probe is in the store.
abbrev pub Known : BurnedStore → Rejection → Type 0
Known b (near_burned ip why) = Unit
Known b (unverified_kept ip) = ip ≢ "" → Recorded b ip
Known b (unreachable ip e) = ip ≢ "" → Recorded b ip

-- Nothing that was in `a` is missing in `b`.
abbrev pub Extends : BurnedStore → BurnedStore → Type 0
Extends a b = (ip : String) → Recorded a ip → Recorded b ip

Recorded-add : (now : ℕ) (ip : String) (b : BurnedStore) → ip ≢ "" → Recorded (add now ip b) ip
Recorded-add now ip b named = ground (arith, eq_iff ip "", eq_iff ip ip, lookup-add now ip ip b)

Extends-add : (now : ℕ) (ip : String) (b : BurnedStore) → Extends b (add now ip b)
Extends-add now ip b k h = ground (arith, lookup-add now ip k b)

Known-mono : (a b : BurnedStore) → Extends a b → (x : Rejection) → Known a x → Known b x
Known-mono a b ext (near_burned ip why) h = tt
Known-mono a b ext (unverified_kept ip) h = λ named. ext ip (h named)
Known-mono a b ext (unreachable ip e) h = λ named. ext ip (h named)

-- The store has all failed addresses of the list, and all that it had at the start.
abbrev pub Keeps : BurnedStore → Option BurnedStore → List Rejection → Type 0
Keeps start_ o rejected =
    (b : BurnedStore) × (o ≡ some b) × All (Known b) rejected × Extends start_ b

-- The store has moreover the address that was released.
abbrev pub Secured : BurnedStore → Option BurnedStore → Rotation → Type 0
Secured start_ o res =
    (b : BurnedStore) × (o ≡ some b)
    × All (Known b) res.rejected
    × Extends start_ b
    × (res.old_ip ≢ "" → Recorded b res.old_ip)

module _ (is_ipv6 : String → Bool) (w : World) (r : Rotator is_ipv6 w) (t : Target)
    (b₀ : BurnedStore) where
  abbrev Kept : Session is_ipv6 w → Type 0
  Kept s = Keeps b₀ s.store s.result.rejected

  Keeps-burn :
      (st : w.State) (ip : String) (o : Option BurnedStore) (rejected : List Rejection)
      → Keeps b₀ o rejected
      → (b : BurnedStore) × (burn is_ipv6 w st ip o ≡ some b)
        × All (Known b) rejected
        × Extends b₀ b
        × (ip ≢ "" → Recorded b ip)
  unfolding burn
  Keeps-burn st ip none rejected (b, e, known, ext) = absurd (cc e)
  Keeps-burn st ip (some c) rejected (b, e, known, ext) =
      let same : c ≡ b = cc in
      let grows = Extends-add (w.now st) ip b in
      (
        add (w.now st) ip b,
        rw same refl,
        All-map (Known b) (Known (add (w.now st) ip b)) rejected
            (Known-mono b (add (w.now st) ip b) grows) known,
        λ k h. grows k (ext k h),
        Recorded-add (w.now st) ip b,
      )

  verify-Kept :
      (last : Bool) (ip : String) (s : Session is_ipv6 w)
      → Kept s
      → Ends is_ipv6 w (λ s e. Kept s) Kept Kept (verify is_ipv6 w r t last ip s)
  unfolding verify reject
  verify-Kept last ip s h =
      let st = w.probed s.state ip (probe_port_of t) in
      let (b, e, known, ext, fresh) = Keeps-burn st ip s.store s.result.rejected h in
      elim (Bool-cases
        (probe_tcp (w.network s.state ip (probe_port_of t)) r.probe_attempts).reachable) [
          | inl good ↦ rw good h
          | inr bad ↦ elim (Bool-cases last) [
            | inl stop ↦
                rw (bad, stop) (b, e, All-concat (Known b) s.result.rejected known fresh, ext)
            | inr go ↦ rw (bad, go) (b, e, All-concat (Known b) s.result.rejected known fresh, ext)
          ]
        ]

  weigh-Kept :
      (last : Bool) (ip : String) (s : Session is_ipv6 w) (probing : Bool) (v : Option Why)
      → Kept s
      → Ends is_ipv6 w (λ s e. Kept s) Kept Kept (weigh is_ipv6 w r t last ip s probing v)
  unfolding weigh reject
  weigh-Kept last ip s probing (some why) (b, e, known, ext) =
      (b, e, All-concat (Known b) s.result.rejected known tt, ext)
  weigh-Kept last ip s true none h = verify-Kept last ip s h
  weigh-Kept last ip s false none h = h

  drawn-Kept :
      (last : Bool) (ip : String) (s : Session is_ipv6 w) (e : Option String)
      → Kept s
      → Ends is_ipv6 w (λ s e. Kept s) Kept Kept (drawn is_ipv6 w r t last ip s e)
  unfolding drawn
  drawn-Kept last ip s (some e) h = h
  drawn-Kept last ip s none h = weigh-Kept last ip _ r.probe _ h

  note_old-rejected : (ip : String) (res : Rotation) → (note_old ip res).rejected ≡ res.rejected
  unfolding note_old
  note_old-rejected ip res = ground arith

  round-Kept :
      (draw : Provider is_ipv6 w) (last : Bool) (attempt : ℕ) (s : Session is_ipv6 w)
      → Kept s
      → Ends is_ipv6 w (λ s e. Kept s) Kept Kept (round is_ipv6 w r draw t last attempt s)
  unfolding round
  round-Kept draw last attempt s h =
      let (st, d) = draw s.state t.instance_id in
      drawn-Kept last d.new_ip _ d.error
        (rw (note_old-rejected d.old_ip (record s.result { attempts = attempt })) h)

  finish-Secured :
      (post : List (PostAction is_ipv6 w)) (turn : Turn is_ipv6 w) (s : Session is_ipv6 w)
      → Ends is_ipv6 w (λ s e. Kept s) Kept (λ _. ⊥) turn
      → finish is_ipv6 w t post turn ≡ rotated s
      → Secured b₀ s.store s.result
  unfolding finish
  finish-Secured post (failed s' e) s h eq = cc
  finish-Secured post (again s') s h eq = absurd h
  finish-Secured post (settled s') s h eq =
      let s'' : Session is_ipv6 w = record s' {
        store = burn is_ipv6 w s'.state s'.result.old_ip s'.store;
      } in
      let after : Session is_ipv6 w = run_post is_ipv6 w t post s'' in
      let same : after ≡ s = cc in
      subst (λ (x : Session is_ipv6 w). Secured b₀ x.store x.result) same
        (subst (λ o. Secured b₀ o after.result) (sym (run_post-store is_ipv6 w t post s''))
          (subst (λ res. Secured b₀ s''.store res) (sym (run_post-result is_ipv6 w t post s''))
            (Keeps-burn s'.state s'.result.old_ip s'.store s'.result.rejected h)))

-- A rotation with a store that returns an address leaves in the store the address that it fled from
-- and each address that failed its probe, kept or not, and takes nothing out of it.
pub rotate_burns :
    (is_ipv6 : String → Bool) (w : World) (r : Rotator is_ipv6 w) (t : Target) (st : w.State)
    (s : Session is_ipv6 w) (b₀ : BurnedStore)
    → r.burned_store ≡ some b₀
    → rotate is_ipv6 w r t st ≡ rotated s
    → Secured b₀ s.store s.result
unfolding rotate start
rotate_burns is_ipv6 w r t st s b₀ given h = begun r.provider h
  where
    begun :
        (p : Option (Provider is_ipv6 w))
        → start is_ipv6 w r t st p ≡ rotated s
        → Secured b₀ s.store s.result
    begun none q = absurd (cc q)
    begun (some draw) q =
        finish-Secured is_ipv6 w r t b₀ r.post _ s
          (draws_keep is_ipv6 w r draw t (Kept is_ipv6 w r t b₀) (round-Kept is_ipv6 w r t b₀ draw)
            (at_least_one r.attempts) 1 _ (b₀, given, tt, λ ip known. known))
          q

-- A rotation with a store that fails leaves a store that has all it had.
pub rotate_fails-Keeps :
    (is_ipv6 : String → Bool) (w : World) (r : Rotator is_ipv6 w) (t : Target) (st : w.State)
    (s : Session is_ipv6 w) (e : String) (b₀ : BurnedStore)
    → r.burned_store ≡ some b₀
    → rotate is_ipv6 w r t st ≡ rotation_failed s e
    → Keeps b₀ s.store s.result.rejected
unfolding rotate start finish
rotate_fails-Keeps is_ipv6 w r t st s e b₀ given h = begun r.provider h
  where
    lost :
        (turn : Turn is_ipv6 w)
        → Ends is_ipv6 w (λ s e. Kept is_ipv6 w r t b₀ s) (Kept is_ipv6 w r t b₀) (λ _. ⊥) turn
        → finish is_ipv6 w t r.post turn ≡ rotation_failed s e
        → Keeps b₀ s.store s.result.rejected
    lost (failed s' e') k q =
        let same : s' ≡ s = cc in subst (λ x. Keeps b₀ x.store x.result.rejected) same k
    lost (settled s') k q = absurd (cc q)
    lost (again s') k q = absurd k

    begun :
        (p : Option (Provider is_ipv6 w))
        → start is_ipv6 w r t st p ≡ rotation_failed s e
        → Keeps b₀ s.store s.result.rejected
    begun none q = absurd (cc q)
    begun (some draw) q =
        lost _
          (draws_keep is_ipv6 w r draw t (Kept is_ipv6 w r t b₀) (round-Kept is_ipv6 w r t b₀ draw)
            (at_least_one r.attempts) 1 _ (b₀, given, tt, λ ip known. known))
          q
