-- ===== src/ControlPlane/Nodes/Choice.antt =====
-- Which node SelectBestNode of internal/service/node_service.go chooses, and what UpdateAddress does.
use mathlib.Core.List.{Permᴰ}
use ghost_node.Prelude.{
  String, ◌≡◌, refl, sym, subst, ◌≢◌, inl, inr, Bool, true, false, List, [], ◌∷◌, arith, Bool-cases,
  Result, ok, err, All, Some, Some-Permᴰ, All-map,
}
use ghost_node.ControlPlane.Nodes.{
  Floats, TransportProfile, Node, score, candidate, pool, NodeRepository, profiled,
  select_best_node, scores_less, SortSlice, ranked, first_candidate,
}

-- What holds of all elements holds of one of them.
All-Some :
    {A : Type 0} (P : A → Type 0) (x : A) (xs : List A) → All P xs → Some (λ y. y ≡ x) xs → P x
All-Some P x (y ∷ ys) (h, hs) (inl e) = subst P e h
All-Some P x (y ∷ ys) (h, hs) (inr s) = All-Some P x ys hs s
All-Some P x [] h s = elim s [ ]

-- A strict weak order: asymmetric, and where c is not below b nor b below a, c is not below a.
abbrev pub IsOrder : {A : Type 0} → (A → A → Bool) → Type 0
IsOrder {A} below =
    ((a b : A) → below a b ≡ true → below b a ≡ false)
    × ((a b c : A) → below b a ≡ false → below c b ≡ false → below c a ≡ false)

-- No element is below the one before it.
abbrev pub IsSorted : {A : Type 0} → (A → A → Bool) → List A → Type 0
IsSorted below [] = Unit
IsSorted below (x ∷ []) = Unit
IsSorted below (x ∷ y ∷ zs) = (below y x ≡ false) × IsSorted below (y ∷ zs)

-- What is documented of sort.Slice: by a strict weak order it permutes the elements, and sorts them.
abbrev pub IsSorting : {A : Type 0} → ((A → A → Bool) → List A → List A) → Type 0
IsSorting {A} sort =
    (below : A → A → Bool) (cs : List A)
    → IsOrder below
    → Permᴰ (sort below cs) cs × Permᴰ cs (sort below cs) × IsSorted below (sort below cs)

IsOrder-irreflexive :
    {A : Type 0} (below : A → A → Bool) → IsOrder below → (a : A) → below a a ≡ false
IsOrder-irreflexive below (asym, next) a = elim (Bool-cases (below a a)) [
  | inl y ↦ asym a a y
  | inr n ↦ n
]

-- In a sorted list, no element is below the first.
sorted_first :
    {A : Type 0} (below : A → A → Bool) (c : A) (rest : List A)
    → IsOrder below
    → IsSorted below (c ∷ rest)
    → All (λ d. below d c ≡ false) (c ∷ rest)
sorted_first below c [] order h = (IsOrder-irreflexive below order c, tt)
sorted_first below c (d ∷ ds) order (near, h) = (
  IsOrder-irreflexive below order c,
  All-map (λ e. below e d ≡ false) (λ e. below e c ≡ false) (d ∷ ds) (λ e g. order.1 c d e near g)
      (sorted_first below d ds order h),
)

module _ (floats : Floats) where
  open floats use {Float, less}

  in_later :
      (n : Node floats) (ps : List TransportProfile) (x : Node floats × Float)
      (later : List (Node floats × Float))
      → Some (λ c. c ≡ x) later
      → Some (λ c. c ≡ x) (candidate floats n ps later)
  unfolding candidate
  in_later n [] x later h = h
  in_later n (p ∷ ps) x later h = inr h

  is_first :
      (n : Node floats) (ps : List TransportProfile) (later : List (Node floats × Float))
      → ps ≢ []
      → Some (λ c. c ≡ (n, score floats n)) (candidate floats n ps later)
  unfolding candidate
  is_first n [] later has = absurd (has refl)
  is_first n (p ∷ ps) later has = inl refl

  Some-pool :
      (n : Node floats) (nodes : List (Node floats))
      → Some (λ m. m ≡ n) nodes
      → n.transport_profiles ≢ []
      → Some (λ c. c ≡ (n, score floats n)) (pool floats nodes)
  unfolding pool
  Some-pool n [] h has = elim h [ ]
  Some-pool n (m ∷ rest) (inl e) has =
      subst
        (λ k.
          Some (λ c. c ≡ (n, score floats n))
            (candidate floats k k.transport_profiles (pool floats rest)))
        (sym e) (is_first n n.transport_profiles (pool floats rest) has)
  Some-pool n (m ∷ rest) (inr h) has =
      in_later m m.transport_profiles (n, score floats n) (pool floats rest)
        (Some-pool n rest h has)

  -- A node that is listed, has a profile, and stands beside its score.
  abbrev pub IsListed : List (Node floats) → Node floats × Float → Type 0
  IsListed nodes c =
      Some (λ m. m ≡ c.0) nodes × (c.1 ≡ score floats c.0) × (c.0.transport_profiles ≢ [])

  All-IsListed :
      (nodes ms : List (Node floats))
      → ((n : Node floats) → Some (λ m. m ≡ n) ms → Some (λ m. m ≡ n) nodes)
      → All (IsListed nodes) (pool floats ms)
  unfolding pool candidate
  All-IsListed nodes [] there = tt
  All-IsListed nodes (m ∷ ms) there =
      chosen m.transport_profiles refl (there m (inl refl))
        (All-IsListed nodes ms (λ n h. there n (inr h)))
    where
      chosen :
          (ps : List TransportProfile)
          → m.transport_profiles ≡ ps
          → Some (λ k. k ≡ m) nodes
          → All (IsListed nodes) (pool floats ms)
          → All (IsListed nodes) (candidate floats m ps (pool floats ms))
      chosen [] e h later = later
      chosen (p ∷ ps) e h later = ((h, refl, λ none_. absurd (ground arith)), later)

  -- `p` is the first profile of the list.
  abbrev pub IsTop : TransportProfile → Result String (List TransportProfile) → Type 0
  IsTop p found = (ps : List TransportProfile) × (found ≡ ok (p ∷ ps))

  -- An online node with profiles, such that no online node with profiles scores lower.
  abbrev pub IsChosen : List (Node floats) → Node floats → Type 0
  IsChosen nodes best =
      Some (λ m. m ≡ best) nodes
      × (best.transport_profiles ≢ [])
      × ((n : Node floats)
          → Some (λ m. m ≡ n) nodes
          → n.transport_profiles ≢ []
          → less (score floats n) (score floats best) ≡ false)

  profiled-ok :
      (repo : NodeRepository floats) (n best : Node floats) (p : TransportProfile)
      (found : Result String (List TransportProfile))
      → profiled floats repo n found ≡ ok (best, p)
      → (n ≡ best) × IsTop p found
  unfolding profiled
  profiled-ok repo n best p (err e) h = absurd (ground arith)
  profiled-ok repo n best p (ok []) h = absurd (ground arith)
  profiled-ok repo n best p (ok (q ∷ qs)) h = (cc, (qs, cc))

  module _ (repo : NodeRepository floats) where
    open repo use {State}

    scores_less-IsOrder : IsOrder less → IsOrder (scores_less floats repo)
    unfolding scores_less
    scores_less-IsOrder (asym, next) =
        ((λ a b h. asym a.1 b.1 h), (λ a b c h k. next a.1 b.1 c.1 h k))

    -- SelectBestNode returns an online node with profiles, such that no online node with profiles
    -- scores lower, and the first of its active profiles, where sort.Slice sorts by a strict weak
    -- order, and the comparison of floating-point numbers is one: none is NaN.
    pub select_best_node_sound :
        (sort : SortSlice floats repo) (st : State) (nodes : List (Node floats))
        (best : Node floats) (p : TransportProfile)
        → IsSorting sort
        → IsOrder less
        → repo.list_online st ≡ ok nodes
        → select_best_node floats repo sort st ≡ ok (best, p)
        → IsChosen nodes best × IsTop p (repo.list_profiles st best.id)
    unfolding select_best_node ranked first_candidate scores_less
    select_best_node_sound sort st nodes best p sorting order online given =
        ranked_sound nodes refl (rw online at given)
      where
        chosen :
            (cs : List (Node floats × Float))
            → sort (scores_less floats repo) (pool floats nodes) ≡ cs
            → first_candidate floats repo st cs ≡ ok (best, p)
            → IsChosen nodes best × IsTop p (repo.list_profiles st best.id)
        chosen [] e h = absurd (ground arith)
        chosen (c ∷ rest) e h =
            let (same, top) = profiled-ok repo c.0 best p (repo.list_profiles st c.0.id) h in
            let (down, up, sorted) =
              sorting (scores_less floats repo) (pool floats nodes) (scores_less-IsOrder order) in
            let (there, scored, has) =
              All-Some (IsListed nodes) c (pool floats nodes) (All-IsListed nodes nodes (λ n h. h))
                (Some-Permᴰ (λ x. x ≡ c) down
                  (subst (λ l. Some (λ x. x ≡ c) l) (sym e) (inl refl))) in
            subst (λ (b : Node floats). IsChosen nodes b × IsTop p (repo.list_profiles st b.id))
              same
              (
                (
                  there,
                  has,
                  λ n listed full.
                      subst (λ f. less (score floats n) f ≡ false) scored
                        (All-Some (λ (d : Node floats × Float). less d.1 c.1 ≡ false)
                          (n, score floats n) (c ∷ rest)
                          (sorted_first (scores_less floats repo) c rest (scores_less-IsOrder order)
                            (subst (IsSorted (scores_less floats repo)) e sorted))
                          (subst (λ l. Some (λ x. x ≡ (n, score floats n)) l) e
                            (Some-Permᴰ (λ x. x ≡ (n, score floats n)) up
                              (Some-pool n nodes listed full)))),
                ),
                top,
              )

        ranked_sound :
            (ns : List (Node floats))
            → nodes ≡ ns
            → ranked floats repo sort st (ok ns) ≡ ok (best, p)
            → IsChosen nodes best × IsTop p (repo.list_profiles st best.id)
        ranked_sound [] e h = absurd (ground arith)
        ranked_sound (n ∷ ns) e h =
            chosen (sort (scores_less floats repo) (pool floats nodes)) refl (
              subst
                (λ l.
                  first_candidate floats repo st (sort (scores_less floats repo) (pool floats l))
                  ≡ ok (best, p))
                (sym e) h)
