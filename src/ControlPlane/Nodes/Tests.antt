-- ===== src/ControlPlane/Nodes/Tests.antt =====
-- Two nodes with numbers for floats, and instances on them of the theorems on
-- internal/service/node_service.go.
use mathlib.Core.List.{Permᴰ}
use mathlib.Core.List.Permᴰ
use ghost_node.Prelude.{
  ℕ, ◌+◌, ◌*◌, String, ◌≡◌, refl, inl, inr, Bool, true, none, List, [], ◌∷◌, arith, ltb, leb,
  if◌then◌else◌, Bool-cases, ok,
}
use ghost_node.Prelude.Int.{pos, pos_part}
use ghost_node.ControlPlane.Nodes.{
  update_address, readdressed, updated, Floats, TransportProfile, Node, NodeRepository, online,
  score, candidate, pool, profiled, first_candidate, ranked, scores_less, select_best_node,
}
use ghost_node.ControlPlane.Nodes.Choice.{
  IsOrder, IsSorted, IsSorting, IsChosen, IsTop, select_best_node_sound,
}

-- Numbers in place of floats, where each share of the score is the whole.
abbrev whole : Floats
whole = record {
  Float = ℕ;
  of_ℤ = pos_part;
  half = 1;
  three_tenths = 1;
  fifth = 1;
  add = λ a b. a + b;
  mul = λ a b. a * b;
  div = λ a b. a;
  min = λ a b. if leb a b then a else b;
  less = ltb;
}

abbrev profile : TransportProfile
profile = record {
  id = "p";
  node_id = "n";
  type_ = "xray";
  port = pos 443;
  config = "{}";
  is_active = true;
  priority = pos 100;
}

abbrev node : String → ℕ → Node whole
node id load = record {
  id = id;
  name = id;
  address = "";
  region = "";
  country = "";
  status = online;
  cpu_usage = load;
  mem_usage = 0;
  active_conns = pos 0;
  transport_profiles = profile ∷ [];
}

-- A candidate before the least of the others, or after it.
-- An insertion sort.
put_in : {A : Type 0} → (A → A → Bool) → A → List A → List A
put_in below c [] = c ∷ []
put_in below c (d ∷ ds) =
    let later = put_in below c ds in if below d c then d ∷ later else c ∷ d ∷ ds

insertion_sort : {A : Type 0} → (A → A → Bool) → List A → List A
insertion_sort below [] = []
insertion_sort below (c ∷ cs) = put_in below c (insertion_sort below cs)

put_in-perm :
    {A : Type 0} (below : A → A → Bool) (c : A) (cs : List A)
    → Permᴰ (put_in below c cs) (c ∷ cs) × Permᴰ (c ∷ cs) (put_in below c cs)
unfolding put_in
put_in-perm below c [] = (Permᴰ.refl _, Permᴰ.refl _)
put_in-perm below c (d ∷ ds) = elim (Bool-cases (below d c)) [
  | inl lt ↦
      let (down, up) = put_in-perm below c ds in
      rw lt (
        Permᴰ.trans (Permᴰ.cons refl down) (Permᴰ.swap refl refl),
        Permᴰ.trans (Permᴰ.swap refl refl) (Permᴰ.cons refl up),
      )
  | inr ge ↦ rw ge (Permᴰ.refl _, Permᴰ.refl _)
]

insertion_sort-perm :
    {A : Type 0} (below : A → A → Bool) (cs : List A)
    → Permᴰ (insertion_sort below cs) cs × Permᴰ cs (insertion_sort below cs)
unfolding insertion_sort
insertion_sort-perm below [] = (Permᴰ.nil, Permᴰ.nil)
insertion_sort-perm below (c ∷ cs) =
    let (down, up) = put_in-perm below c (insertion_sort below cs) in
    let (back, forth) = insertion_sort-perm below cs in
    (Permᴰ.trans down (Permᴰ.cons refl back), Permᴰ.trans (Permᴰ.cons refl forth) up)

put_in-IsSorted :
    {A : Type 0} (below : A → A → Bool) (c : A) (cs : List A)
    → IsOrder below
    → IsSorted below cs
    → IsSorted below (put_in below c cs)
unfolding put_in
put_in-IsSorted below c [] order h = tt
put_in-IsSorted below c (d ∷ []) order h = elim (Bool-cases (below d c)) [
  | inl lt ↦ rw lt (order.0 d c lt, tt)
  | inr ge ↦ rw ge (ge, tt)
]
put_in-IsSorted below c (d ∷ e ∷ es) order (near, h) = elim (Bool-cases (below d c)) [
  | inl lt ↦ elim (Bool-cases (below e c)) [
    | inl lt' ↦
        let later = put_in-IsSorted below c (e ∷ es) order h in
        rw (lt, lt') (near, (let g = rw (put_in, lt') at later in g))
    | inr ge ↦ rw (lt, ge) (order.0 d c lt, (ge, h))
  ]
  | inr ge ↦ rw ge (ge, (near, h))
]

insertion_sort-IsSorted :
    {A : Type 0} (below : A → A → Bool) (cs : List A)
    → IsOrder below
    → IsSorted below (insertion_sort below cs)
unfolding insertion_sort
insertion_sort-IsSorted below [] order = tt
insertion_sort-IsSorted below (c ∷ cs) order =
    put_in-IsSorted below c (insertion_sort below cs) order (insertion_sort-IsSorted below cs order)

sorts : {A : Type 0} → IsSorting {A = A} insertion_sort
sorts below cs order =
    let (down, up) = insertion_sort-perm below cs in
    (down, up, insertion_sort-IsSorted below cs order)

ltb-IsOrder : IsOrder ltb
ltb-IsOrder = ((λ a b h. ground arith), (λ a b c h k. ground arith))

abbrev two_nodes : NodeRepository whole
two_nodes = record {
  State = Unit {0};
  create_node = λ s n. (s, ok n);
  find_node = λ s id. ok (node id 50);
  list_online = λ s. ok (node "tokyo" 70 ∷ node "osaka" 20 ∷ []);
  list_all = λ s. ok (node "tokyo" 70 ∷ node "osaka" 20 ∷ []);
  update_node = λ s n. (s, none);
  delete_node = λ s id. (s, none);
  create_profile = λ s p. (s, none);
  list_profiles = λ s id. ok (profile ∷ []);
}

selects : select_best_node whole two_nodes insertion_sort tt ≡ ok (node "osaka" 20, profile)
unfolding select_best_node ranked first_candidate profiled scores_less insertion_sort put_in pool
    candidate score
selects = refl

select_best_node_sound_example :
    IsChosen whole (node "tokyo" 70 ∷ node "osaka" 20 ∷ []) (node "osaka" 20)
    × IsTop whole profile (ok (profile ∷ []))
select_best_node_sound_example =
    select_best_node_sound whole two_nodes insertion_sort tt
      (node "tokyo" 70 ∷ node "osaka" 20 ∷ []) (node "osaka" 20) profile sorts ltb-IsOrder refl
      selects

readdresses :
    update_address whole two_nodes tt "tokyo" "198.51.100.4"
    ≡ (tt, ok (record (node "tokyo" 50) { address = "198.51.100.4" }))
unfolding update_address readdressed updated
readdresses = refl
