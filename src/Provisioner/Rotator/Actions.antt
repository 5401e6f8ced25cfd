-- ===== src/Provisioner/Rotator/Actions.antt =====
-- The post actions of internal/provisioner/rotator.go: they run after the address is settled, and
-- a failure is recorded and changes nothing else.
use ghost_node.Prelude.{
  ℕ, String, ◌≡◌, refl, ap, subst, ◌≢◌, ◌↔◌, ◌⊎◌, inl, inr, Bool, Option, none, some, List, [], ◌∷◌,
  arith, eq_iff, Some, lookup, lookup-insert,
}
use ghost_node.Provisioner.Burned.{Why}
use ghost_node.Provisioner.Rotator.Loop.{Ends, draws_keep}
use ghost_node.Provisioner.Rotator.{
  World, Target, Provider, Rotator, PostAction, Session, Rotation, Turn, failed, settled, again,
  rotated, run_post, note, note_old, weigh, drawn, reject, verify, round, finish, start, rotate,
  burn,
}
use ghost_node.Provisioner.Probe.{at_least_one}

-- A round of a loop that collects facts of one kind: the head's fact, the tail's, the ones before.
gather : {X T L H K : Type 0} → X ↔ (T ⊎ L) → L ↔ (H ⊎ K) → X ↔ ((H ⊎ T) ⊎ K)
gather {X} {T} {L} {H} {K} (to, from) (into, out) = (λ x. up (to x), down)
  where
    side : H ⊎ K → (H ⊎ T) ⊎ K
    side (inl h) = inl (inl h)
    side (inr k) = inr k

    up : T ⊎ L → (H ⊎ T) ⊎ K
    up (inl t) = inl (inr t)
    up (inr l) = side (into l)

    down : (H ⊎ T) ⊎ K → X
    down (inl (inl h)) = from (inr (out (inl h)))
    down (inl (inr t)) = from (inl t)
    down (inr k) = from (inr (out (inr k)))

alone : {X T L : Type 0} → X ↔ (T ⊎ L) → ¬ L → X ↔ T
alone {X} {T} {L} (to, from) never = (λ x. only (to x), λ h. from (inl h))
  where
    only : T ⊎ L → T
    only (inl h) = h
    only (inr l) = absurd (never l)

module _ (is_ipv6 : String → Bool) (w : World) (t : Target) where
  pub run_post-store :
      (post : List (PostAction is_ipv6 w)) (s : Session is_ipv6 w)
      → (run_post is_ipv6 w t post s).store ≡ s.store
  unfolding run_post
  run_post-store [] s = refl
  run_post-store (a ∷ post) s = run_post-store post _

  -- The post actions change nothing of the result but the errors that they record.
  pub run_post-result :
      (post : List (PostAction is_ipv6 w)) (s : Session is_ipv6 w)
      → (run_post is_ipv6 w t post s).result
        ≡ record s.result { post_errors = (run_post is_ipv6 w t post s).result.post_errors }
  unfolding run_post
  run_post-result [] s = refl
  run_post-result (a ∷ post) s = run_post-result post _

  -- The actions in order, each from the state that the one before left: name and error.
  pub trace :
      (old new : String) → List (PostAction is_ipv6 w) → w.State → List (String × Option String)
  trace old new [] st = []
  trace old new (a ∷ post) st =
      let (st', e) = a.apply st t old new in (a.name, e) ∷ trace old new post st'

  abbrev pub FailedAs : String → String × Option String → Type 0
  FailedAs name entry = (entry.0 ≡ name) × (entry.1 ≢ none)

  lookup-note :
      (name k : String) (e : Option String) (errors : List (String × String))
      → (lookup k (note name e errors) ≢ none) ↔ (FailedAs k (name, e) ⊎ (lookup k errors ≢ none))
  unfolding note
  lookup-note name k none errors = ground arith
  lookup-note name k (some x) errors = ground (arith, lookup-insert name k x errors, eq_iff name k)

  run_post-errors :
      (post : List (PostAction is_ipv6 w)) (s : Session is_ipv6 w) (k : String)
      → (lookup k (run_post is_ipv6 w t post s).result.post_errors ≢ none) ↔ (
          Some (FailedAs k) (trace s.result.old_ip s.result.new_ip post s.state)
          ⊎ (lookup k s.result.post_errors ≢ none))
  unfolding run_post trace
  run_post-errors [] s k = ground arith
  run_post-errors (a ∷ post) s k =
      let (st, e) = a.apply s.state t s.result.old_ip s.result.new_ip in
      gather
        (run_post-errors post
          (record s {
            state = st;
            result = record s.result { post_errors = note a.name e s.result.post_errors };
          })
          k)
        (lookup-note a.name k e s.result.post_errors)

  abbrev NoErrors : Session is_ipv6 w → Type 0
  NoErrors s = s.result.post_errors ≡ []

  weigh-NoErrors :
      (r : Rotator is_ipv6 w) (last : Bool) (ip : String) (s : Session is_ipv6 w) (probing : Bool)
      (v : Option Why)
      → NoErrors s
      → Ends is_ipv6 w
          (λ s' e. NoErrors s')
          NoErrors
          NoErrors
          (weigh is_ipv6 w r t last ip s probing v)
  unfolding weigh reject verify
  weigh-NoErrors r last ip s probing v h = ground arith

  drawn-NoErrors :
      (r : Rotator is_ipv6 w) (last : Bool) (ip : String) (s : Session is_ipv6 w)
      (e : Option String)
      → NoErrors s
      → Ends is_ipv6 w (λ s' e. NoErrors s') NoErrors NoErrors (drawn is_ipv6 w r t last ip s e)
  unfolding drawn
  drawn-NoErrors r last ip s (some e) h = h
  drawn-NoErrors r last ip s none h = weigh-NoErrors r last ip _ r.probe _ h

  round-NoErrors :
      (r : Rotator is_ipv6 w) (draw : Provider is_ipv6 w) (last : Bool) (attempt : ℕ)
      (s : Session is_ipv6 w)
      → NoErrors s
      → Ends is_ipv6 w
          (λ s' e. NoErrors s')
          NoErrors
          NoErrors
          (round is_ipv6 w r draw t last attempt s)
  unfolding round note_old
  round-NoErrors r draw last attempt s h =
      let (st, d) = draw s.state t.instance_id in
      drawn-NoErrors r last d.new_ip _ d.error (ground arith)

  -- The post actions ran from some state, each on the released and the new address, whatever became
  -- of the others.
  abbrev pub Reported : List (PostAction is_ipv6 w) → Session is_ipv6 w → Type 0
  Reported post s =
      (from : w.State) × ((name : String)
        → (lookup name s.result.post_errors ≢ none)
          ↔ Some (FailedAs name) (trace s.result.old_ip s.result.new_ip post from))

  finish-Reported :
      (post : List (PostAction is_ipv6 w)) (turn : Turn is_ipv6 w) (s : Session is_ipv6 w)
      → Ends is_ipv6 w (λ s' e. NoErrors s') NoErrors (λ _. ⊥) turn
      → finish is_ipv6 w t post turn ≡ rotated s
      → Reported post s
  unfolding finish
  finish-Reported post (failed s' e) s h eq = cc
  finish-Reported post (again s') s h eq = absurd h
  finish-Reported post (settled s') s h eq =
      let s'' : Session is_ipv6 w = record s' {
        store = burn is_ipv6 w s'.state s'.result.old_ip s'.store;
      } in
      let same : run_post is_ipv6 w t post s'' ≡ s = cc in
      subst (λ (x : Session is_ipv6 w). Reported post x) same
        (
          s'.state,
          λ name.
              rw
                (
                  ap (λ (x : Rotation). x.old_ip) (run_post-result post s''),
                  ap (λ (x : Rotation). x.new_ip) (run_post-result post s''),
                )
                (alone (run_post-errors post s'' name) (λ before. before (unfold lookup in rw h))),
        )

-- When a rotation returns, all post actions have run in order, on the released and the new address;
-- an action's name stands among the errors exactly if an action of that name failed.
pub rotate_actions :
    (is_ipv6 : String → Bool) (w : World) (r : Rotator is_ipv6 w) (t : Target) (st : w.State)
    (s : Session is_ipv6 w)
    → rotate is_ipv6 w r t st ≡ rotated s
    → Reported is_ipv6 w t r.post s
unfolding rotate start
rotate_actions is_ipv6 w r t st s h = begun r.provider h
  where
    begun :
        (p : Option (Provider is_ipv6 w))
        → start is_ipv6 w r t st p ≡ rotated s
        → Reported is_ipv6 w t r.post s
    begun none q = absurd (cc q)
    begun (some draw) q =
        finish-Reported is_ipv6 w t r.post _ s
          (draws_keep is_ipv6 w r draw t (NoErrors is_ipv6 w t) (round-NoErrors is_ipv6 w t r draw)
            (at_least_one r.attempts) 1 _ refl)
          q
