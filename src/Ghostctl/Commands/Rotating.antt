-- ===== src/Ghostctl/Commands/Rotating.antt =====
-- What `ghostctl rotate` leaves in the store, over all targets.
use ghost_node.Prelude.{String, ◌≡◌, refl, ◌≢◌, Bool, some, List, [], ◌∷◌, All, All-concat, All-map}
use ghost_node.Provisioner.Burned.{BurnedStore}
use ghost_node.Provisioner.Rotator.{
  World, Target, Rotator, Outcome, no_provider, rotation_failed, rotated, rotate,
}
use ghost_node.Provisioner.Rotator.Burning.{Recorded, Extends, rotate_burns, rotate_fails-Keeps}
use ghost_node.Ghostctl.Commands.{Outside, Run, counted, rotate_each}

module _ (is_ipv6 : String → Bool) (w : World) (out : Outside is_ipv6 w) where
  -- The old address that a rotation reports, where it returned, stands in the store.
  abbrev pub Reported : BurnedStore → Target × Outcome is_ipv6 w → Type 0
  Reported b (t, no_provider) = Unit
  Reported b (t, rotation_failed s e) = Unit
  Reported b (t, rotated s) = s.result.old_ip ≢ "" → Recorded b s.result.old_ip

  -- The store has all that it had at first, and every old address reported.
  abbrev pub Holds : BurnedStore → Run is_ipv6 w out → Type 0
  Holds b₀ run =
      (b : BurnedStore) × (run.store ≡ some b) × Extends b₀ b × All (Reported b) run.rotations

  Reported-mono :
      (a b : BurnedStore)
      → Extends a b
      → (x : Target × Outcome is_ipv6 w) → Reported a x
      → Reported b x
  Reported-mono a b ext (t, no_provider) h = tt
  Reported-mono a b ext (t, rotation_failed s e) h = tt
  Reported-mono a b ext (t, rotated s) h = λ named. ext s.result.old_ip (h named)

  counted-Holds :
      (b₀ : BurnedStore) (r : Rotator is_ipv6 w) (t : Target) (run : Run is_ipv6 w out)
      (o : Outcome is_ipv6 w)
      → rotate is_ipv6 w (record r { burned_store = run.store }) t run.state ≡ o
      → Holds b₀ run
      → Holds b₀ (counted is_ipv6 w out t run o)
  unfolding counted
  counted-Holds b₀ r t run no_provider e (b, given, ext, all) =
      (b, given, ext, All-concat (Reported b) run.rotations all tt)
  counted-Holds b₀ r t run (rotation_failed s x) e (b, given, ext, all) =
      let (b', kept, known, more) =
        rotate_fails-Keeps is_ipv6 w (record r { burned_store = run.store }) t run.state s x b given
          e in
      (
        b',
        kept,
        (λ ip h. more ip (ext ip h)),
        All-concat (Reported b') run.rotations
            (All-map (Reported b) (Reported b') run.rotations (Reported-mono b b' more) all) tt,
      )
  counted-Holds b₀ r t run (rotated s) e (b, given, ext, all) =
      let (b', kept, known, more, released) =
        rotate_burns is_ipv6 w (record r { burned_store = run.store }) t run.state s b given e in
      (
        b',
        kept,
        (λ ip h. more ip (ext ip h)),
        All-concat (Reported b') run.rotations
            (All-map (Reported b) (Reported b') run.rotations (Reported-mono b b' more) all)
            released,
      )

  rotate_each-Holds :
      (b₀ : BurnedStore) (r : Rotator is_ipv6 w) (targets : List Target) (run : Run is_ipv6 w out)
      → Holds b₀ run
      → Holds b₀ (rotate_each is_ipv6 w out r targets run)
  unfolding rotate_each
  rotate_each-Holds b₀ r [] run h = h
  rotate_each-Holds b₀ r (t ∷ ts) run h =
      rotate_each-Holds b₀ r ts _ (counted-Holds b₀ r t run _ refl h)

  abbrev pub started : w.State → BurnedStore → Run is_ipv6 w out
  started st b = record { state = st; store = some b; failures = 0; rotations = [] }

  -- At the end of the loop over the targets the store has all that it had before, and the OldIP that
  -- each rotation which returned reports, where it is not empty. What later draws of a rotation
  -- release is not meant.
  pub rotate_each_burns :
      (b : BurnedStore) (r : Rotator is_ipv6 w) (targets : List Target) (st : w.State)
      → Holds b (rotate_each is_ipv6 w out r targets (started st b))
  rotate_each_burns b r targets st =
      rotate_each-Holds b r targets (started st b) (b, refl, (λ ip h. h), tt)
