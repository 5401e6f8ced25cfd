-- ===== src/Ghostctl/Commands/Asking.antt =====
-- When `ghostctl rotate` of cmd/ghostctl/main.go leaves the nodes and the store alone.
use ghost_node.Prelude.{
  ℕ, ◌+◌, String, ◌≡◌, refl, sym, subst, ◌≢◌, ◌⊎◌, inl, inr, Bool, true, false, ◌||◌, Option, none,
  some, List, [], ◌∷◌, map, arith, leb, eqb, if◌then◌else◌, Option-cases, Result, ok, err, All,
}
use ghost_node.Texts.{Text, codes, same, trim_space}
use ghost_node.Provisioner.Burned.{BurnedStore, StoreError}
use ghost_node.Provisioner.Oracle.{OracleError}
use ghost_node.Provisioner.Rotator.{World, Target, Provider}
use ghost_node.Ghostctl.Config.{Settings, ConfigError}
use ghost_node.Ghostctl.Commands.{
  Outside, Report, CommandError, RotateFlags, lower, agreed, asked, confirm, read_addresses,
  answered, confirmed, dry_run_rotate, dry_run, proceed, with_store, with_provider, with_targets,
  with_config, cmd_rotate,
}

-- The answers that are a consent.
abbrev pub consents : List Text
consents =
    codes "y"
    ∷ codes "Y"
    ∷ codes "yes"
    ∷ codes "yeS"
    ∷ codes "yEs"
    ∷ codes "yES"
    ∷ codes "Yes"
    ∷ codes "YeS"
    ∷ codes "YEs"
    ∷ codes "YES"
    ∷ []

-- No line was read, or one that is not a consent, spaces around it aside.
abbrev pub IsRefusal : Option Text → Type 0
IsRefusal none = Unit
IsRefusal (some line) = All (λ yes_. same (trim_space line) yes_ ≡ false) consents

lower-cases : (c d : ℕ) → leb 97 d ≡ true → eqb (lower c) d ≡ true → (c ≡ d) ⊎ (c + 32 ≡ d)
unfolding lower
lower-cases c d h e = ground arith

refused :
    (answer : Text)
    → All (λ yes_. same answer yes_ ≡ false) consents
    → (same (map lower answer) (codes "y") || same (map lower answer) (codes "yes")) ≡ false
unfolding same lower
refused [] h = refl
refused (a ∷ []) (h1, (h2, h)) = ground arith
refused (a ∷ b ∷ []) h = ground arith
refused (a ∷ b ∷ c ∷ []) (h1, (h2, (h3, (h4, (h5, (h6, (h7, (h8, (h9, (h10, u)))))))))) =
    ground arith
refused (a ∷ b ∷ c ∷ d ∷ s) h = ground arith

refusal-agreed : (line : Option Text) → IsRefusal line → agreed line ≡ false
unfolding agreed
refusal-agreed none h = refl
refusal-agreed (some line) h = refused (trim_space line) h

-- `P` is a property of the state that describing an instance, asking for its address, and reading
-- a line from the terminal keep.
module _ (is_ipv6 : String → Bool) (w : World) (out : Outside is_ipv6 w) (P : w.State → Type 0)
    (describes : (id : String) (st : w.State) → P st → P (out.describe id st).0)
    (asks : (id : String) (st : w.State) → P st → P (out.current_ip id st).0)
    (reads : (st : w.State) → P st → P (out.read_line st).0) where
  -- A report in which nothing was rotated and nothing saved, and the state has the property.
  abbrev pub Untouched : Report is_ipv6 w → Type 0
  Untouched report = P report.state × (report.rotations ≡ []) × (report.saved ≡ none)

  -- The flags or the terminal hold a rotation back.
  abbrev pub Held : RotateFlags → Type 0
  Held f =
      (f.dry_run ≡ true) ⊎ ((f.yes ≡ false) × ((st : w.State) → IsRefusal (out.read_line st).1))

  asked-keeps :
      (t : Target) (r : w.State × Result OracleError String) → P r.0 → P (asked is_ipv6 w out t r).0
  unfolding asked
  asked-keeps t (st, ok ip) p = p
  asked-keeps t (st, err e) p = ground arith

  read_addresses-keeps :
      (targets : List Target) (st : w.State) → P st → P (read_addresses is_ipv6 w out targets st).0
  unfolding read_addresses
  read_addresses-keeps [] st p = p
  read_addresses-keeps (t ∷ ts) st p =
      let r = asked is_ipv6 w out t (out.current_ip t.instance_id st) in
      let q = asked-keeps t (out.current_ip t.instance_id st) (asks t.instance_id st p) in
      elim (Option-cases r.1) [
        | inl n ↦ rw (n, read_addresses) (read_addresses-keeps ts r.0 q)
        | inr (x, y) ↦ rw (y, read_addresses) q
      ]

  dry_run_rotate-keeps :
      (cfg : Settings) (targets : List Target) (st : w.State)
      → P st
      → P (dry_run_rotate is_ipv6 w out cfg targets st).0
  unfolding dry_run_rotate
  dry_run_rotate-keeps cfg [] st p = p
  dry_run_rotate-keeps cfg (t ∷ ts) st p =
      dry_run_rotate-keeps cfg ts _ (describes t.instance_id st p)

  answered_held :
      (r : w.State × Option CommandError)
      → ((st : w.State) → IsRefusal (out.read_line st).1)
      → P r.0
      → P (answered is_ipv6 w out r).0 × ((answered is_ipv6 w out r).1 ≢ ok true)
  unfolding answered
  answered_held (st, some e) h p = (p, ground arith)
  answered_held (st, none) h p =
      (reads st p, rw (refusal-agreed (out.read_line st).1 (h st)) (ground arith))

  proceed-Untouched :
      (cfg : Settings) (f : RotateFlags) (draw : Provider is_ipv6 w) (targets : List Target)
      (b : BurnedStore) (a : w.State × Result CommandError Bool)
      → P a.0
      → a.1 ≢ ok true
      → Untouched (proceed is_ipv6 w out cfg f draw targets b a)
  unfolding proceed
  proceed-Untouched cfg f draw targets b (st, err e) p h = (p, refl, refl)
  proceed-Untouched cfg f draw targets b (st, ok false) p h = (p, refl, refl)
  proceed-Untouched cfg f draw targets b (st, ok true) p h = absurd (h refl)

  with_store-Untouched :
      (cfg : Settings) (f : RotateFlags) (draw : Provider is_ipv6 w) (targets : List Target)
      (st : w.State) (r : Result StoreError BurnedStore)
      → f.yes ≡ false
      → ((st' : w.State) → IsRefusal (out.read_line st').1)
      → P st
      → Untouched (with_store is_ipv6 w out cfg f draw targets st r)
  unfolding with_store confirmed confirm
  with_store-Untouched cfg f draw targets st (err e) no_yes h p = (p, refl, refl)
  with_store-Untouched cfg f draw targets st (ok b) no_yes h p =
      let (kept, held) =
        answered_held (read_addresses is_ipv6 w out targets st) h
          (read_addresses-keeps targets st p) in
      proceed-Untouched cfg f draw targets b _
        (subst (λ y. P (if y then (st, ok true) else confirm is_ipv6 w out targets st).0)
          (sym no_yes) kept)
        (subst (λ y. (if y then (st, ok true) else confirm is_ipv6 w out targets st).1 ≢ ok true)
          (sym no_yes) held)

  dry-Untouched :
      (b : Bool) (x y : Report is_ipv6 w) → b ≡ true → Untouched x → Untouched (if b then x else y)
  dry-Untouched true x y e h = h
  dry-Untouched false x y e h = absurd (ground arith)

  either-Untouched :
      (b : Bool) (x y : Report is_ipv6 w)
      → Untouched x
      → Untouched y
      → Untouched (if b then x else y)
  either-Untouched true x y h k = h
  either-Untouched false x y h k = k

  dry_run-Untouched :
      (cfg : Settings) (targets : List Target) (st : w.State)
      → P st
      → Untouched (dry_run is_ipv6 w out (dry_run_rotate is_ipv6 w out cfg targets st))
  unfolding dry_run
  dry_run-Untouched cfg targets st p = (dry_run_rotate-keeps cfg targets st p, refl, refl)

  with_provider-Untouched :
      (cfg : Settings) (f : RotateFlags) (targets : List Target) (st : w.State)
      (r : Result String (Provider is_ipv6 w))
      → Held f
      → P st
      → Untouched (with_provider is_ipv6 w out cfg f targets st r)
  unfolding with_provider
  with_provider-Untouched cfg f targets st (err e) held p = (p, refl, refl)
  with_provider-Untouched cfg f targets st (ok draw) (inl dry) p =
      dry-Untouched f.dry_run _ _ dry (dry_run-Untouched cfg targets st p)
  with_provider-Untouched cfg f targets st (ok draw) (inr (no_yes, h)) p =
      either-Untouched f.dry_run _ _ (dry_run-Untouched cfg targets st p)
        (with_store-Untouched cfg f draw targets st _ no_yes h p)

  with_targets-Untouched :
      (cfg : Settings) (f : RotateFlags) (st : w.State) (r : Result ConfigError (List Target))
      → Held f
      → P st
      → Untouched (with_targets is_ipv6 w out cfg f st r)
  unfolding with_targets
  with_targets-Untouched cfg f st (err e) held p = (p, refl, refl)
  with_targets-Untouched cfg f st (ok targets) held p =
      with_provider-Untouched cfg f targets st _ held p

  with_config-Untouched :
      (f : RotateFlags) (selector : String) (st : w.State)
      (r : Result ConfigError (Settings × String))
      → Held f
      → P st
      → Untouched (with_config is_ipv6 w out f selector st r)
  unfolding with_config
  with_config-Untouched f selector st (err e) held p = (p, refl, refl)
  with_config-Untouched f selector st (ok (cfg, path)) held p =
      with_targets-Untouched cfg f st _ held p

  -- With --dry-run, or without --yes where every line read from the terminal is refused or missing,
  -- whatever property of the state describing an instance, asking for its address and reading a
  -- line keep, the command keeps: no rotation, no post action and no write has changed the state.
  -- It reports no rotation, and has not saved the store.
  pub cmd_rotate-Untouched :
      (f : RotateFlags) (positional : List String) (st : w.State)
      → Held f
      → P st
      → Untouched (cmd_rotate is_ipv6 w out f positional st)
  unfolding cmd_rotate
  cmd_rotate-Untouched f [] st held p = (p, refl, refl)
  cmd_rotate-Untouched f (selector ∷ []) st held p = with_config-Untouched f selector st _ held p
  cmd_rotate-Untouched f (selector ∷ more ∷ rest) st held p = (p, refl, refl)
