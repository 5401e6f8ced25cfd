-- ===== src/Provisioner/Burned/Recency.antt =====
-- The order in which internal/provisioner/burned.go lists the addresses.
use mathlib.Core.List.{Permᴰ}
use mathlib.Core.List.Permᴰ
use ghost_node.Prelude.{
  ℕ, ◌≤◌, String, ◌≡◌, refl, inl, inr, List, [], ◌∷◌, map, arith, ltb, Bool-cases, All,
}
use ghost_node.Provisioner.Burned.{BurnedStore, place, by_recency, listed}

-- No entry is older than one after it.
abbrev pub NewestFirst : List (String × ℕ) → Type 0
NewestFirst [] = Unit
NewestFirst (e ∷ es) = All (λ f. f.1 ≤ e.1) es × NewestFirst es

All-trans :
    (a b : ℕ) (es : List (String × ℕ)) → a ≤ b → All (λ f. f.1 ≤ a) es → All (λ f. f.1 ≤ b) es
All-trans a b [] le h = tt
All-trans a b (e ∷ es) le h = (omega (arith, h.0), All-trans a b es le h.1)

All-place :
    (n : ℕ) (e : String × ℕ) (es : List (String × ℕ))
    → e.1 ≤ n
    → All (λ f. f.1 ≤ n) es
    → All (λ f. f.1 ≤ n) (place e es)
unfolding place
All-place n e [] le h = (le, tt)
All-place n e (f ∷ es) le h = elim (Bool-cases (ltb f.1 e.1)) [
  | inl lt ↦ rw lt (le, h)
  | inr ge ↦ rw ge (h.0, All-place n e es le h.1)
]

place-NewestFirst :
    (e : String × ℕ) (es : List (String × ℕ)) → NewestFirst es → NewestFirst (place e es)
unfolding place
place-NewestFirst e [] h = (tt, tt)
place-NewestFirst e (f ∷ es) h = elim (Bool-cases (ltb f.1 e.1)) [
  | inl lt ↦ let le : f.1 ≤ e.1 = ground arith in rw lt ((le, All-trans f.1 e.1 es le h.0), h)
  | inr ge ↦
      let le : e.1 ≤ f.1 = ground arith in
      rw ge (All-place f.1 e es le h.0, place-NewestFirst e es h.1)
]

place-perm : (e : String × ℕ) (es : List (String × ℕ)) → Permᴰ (place e es) (e ∷ es)
unfolding place
place-perm e [] = Permᴰ.refl _
place-perm e (f ∷ es) = elim (Bool-cases (ltb f.1 e.1)) [
  | inl lt ↦ rw lt (Permᴰ.refl _)
  | inr ge ↦ rw ge (Permᴰ.trans (Permᴰ.cons refl (place-perm e es)) (Permᴰ.swap refl refl))
]

by_recency-NewestFirst : (es : List (String × ℕ)) → NewestFirst (by_recency es)
unfolding by_recency
by_recency-NewestFirst [] = tt
by_recency-NewestFirst (e ∷ es) = place-NewestFirst e (by_recency es) (by_recency-NewestFirst es)

by_recency-perm : (es : List (String × ℕ)) → Permᴰ (by_recency es) es
unfolding by_recency
by_recency-perm [] = Permᴰ.nil
by_recency-perm (e ∷ es) =
    Permᴰ.trans (place-perm e (by_recency es)) (Permᴰ.cons refl (by_recency-perm es))

-- List returns the stored addresses, each as often as it is stored, newest first.
pub listed_newest :
    (s : BurnedStore)
    → (es : List (String × ℕ)) × (listed s ≡ map (λ e. e.0) es)
      × Permᴰ es s.entries
      × NewestFirst es
unfolding listed
listed_newest s =
    (by_recency s.entries, refl, by_recency-perm s.entries, by_recency-NewestFirst s.entries)
