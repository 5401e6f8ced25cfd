-- ===== src/Transport/Starting.antt =====
-- Which engine internal/transport/manager.go makes active at the start, and the channel that it
-- closes at the end.
use ghost_node.Prelude.{
  String, ◌≡◌, refl, sym, ap, ◌∙◌, subst, ◌≢◌, inl, inr, none, List, [], ◌∷◌, arith, eq_iff,
  Option-cases, All, Some, lookup,
}
use ghost_node.Transport.{Provider, Manager, start_each, start_all, check_and_failover}
use ghost_node.Transport.Failover.{failover_unregistered}

start_each-failed :
    (ps : List (String × Provider)) (active : String)
    → All (λ e. e.1.start ≢ none) ps
    → start_each ps active ≡ active
unfolding start_each
start_each-failed [] active h = refl
start_each-failed ((name, p) ∷ ps) active h = ground (arith, start_each-failed ps active)

-- Where no engine starts, the active name stays empty, and no later failover repairs that, whatever
-- the engines answer by then.
pub start_all_dead :
    (m : Manager) (later : List (String × Provider))
    → m.active ≡ ""
    → All (λ e. e.1.start ≢ none) m.providers
    → lookup "" later ≡ none
    → (check_and_failover (record (start_all m) { providers = later })).active ≡ ""
unfolding start_all
start_all_dead m later idle dead unnamed =
    let still : start_each m.providers m.active ≡ "" =
      start_each-failed m.providers m.active dead ∙ idle in
    ap (λ (x : Manager). x.active)
      (failover_unregistered
        (record m { providers = later; active = start_each m.providers m.active })
        (rw still unnamed))
    ∙ still

start_each-kept :
    (ps : List (String × Provider)) (active : String) → active ≢ "" → start_each ps active ≡ active
unfolding start_each
start_each-kept [] active h = refl
start_each-kept ((name, p) ∷ ps) active h =
    ground (arith, eq_iff active "", start_each-kept ps active h)

start_each-started :
    (ps : List (String × Provider))
    → All (λ e. e.0 ≢ "") ps
    → Some (λ e. e.1.start ≡ none) ps
    → Some (λ e. (e.0 ≡ start_each ps "") × (e.1.start ≡ none)) ps
unfolding start_each
start_each-started [] named h = elim h [ ]
start_each-started ((name, p) ∷ ps) named h = elim (Option-cases p.start) [
  | inl e ↦ inl (ground (arith, start_each-kept ps name named.0), e)
  | inr (x, e) ↦
      let same : start_each ((name, p) ∷ ps) "" ≡ start_each ps "" = ground arith in
      subst
        (λ a. Some (λ (e' : String × Provider). (e'.0 ≡ a) × (e'.1.start ≡ none)) ((name, p) ∷ ps))
        (sym same) (elim h [ inl s ↦ absurd (cc) | inr s ↦ inr (start_each-started ps named.1 s) ])
]

-- Where some engine starts and no engine is named by the empty text, StartAll leaves an engine
-- active that started.
pub start_all_active :
    (m : Manager)
    → m.active ≡ ""
    → All (λ e. e.0 ≢ "") m.providers
    → Some (λ e. e.1.start ≡ none) m.providers
    → Some (λ e. (e.0 ≡ (start_all m).active) × (e.1.start ≡ none)) m.providers
unfolding start_all
start_all_active m idle named started = rw idle (start_each-started m.providers named started)
