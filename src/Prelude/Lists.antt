-- ===== src/Prelude/Lists.antt =====
-- Lists measured by native numbers, predicates on lists, and a Go map as an association list.
use Prim.Native.Nat.{ℕ, suc, ◌+◌}
use Prim.Native.String.{String}
use mathlib.Core.Path.{◌≡◌, refl, ap, subst}
use mathlib.Core.Logic.{◌⊎◌, inl, inr}
use mathlib.Core.Option.{Option, none, some}
use mathlib.Core.List.{List, [], ◌∷◌, ◌++◌, Permᴰ}
use native.Mathlib.Omega.{arith}
use text.Mathlib.Text.{◌==◌}
use text.Mathlib.TextEquality.{eq_iff}
use ghost_node.Prelude.Tests.{if◌then◌else◌, Bool-cases}

module _ {ℓ} {A : Type ℓ} where
  abbrev pub length : List A → ℕ
  length [] = 0
  length (x ∷ xs) = suc (length xs)

  pub append_nil : (xs : List A) → xs ++ [] ≡ xs
  append_nil [] = refl
  append_nil (x ∷ xs) = ap (λ ys. x ∷ ys) (append_nil xs)

  pub append_one : (xs : List A) (x : A) (ys : List A) → (xs ++ x ∷ []) ++ ys ≡ xs ++ x ∷ ys
  append_one [] x ys = refl
  append_one (z ∷ xs) x ys = ap (λ zs. z ∷ zs) (append_one xs x ys)

  pub length-append : (xs ys : List A) → length (xs ++ ys) ≡ length xs + length ys
  length-append [] ys = omega arith
  length-append (x ∷ xs) ys = omega (arith, length-append xs ys)

  pub length-concat : (xs : List A) (x : A) → length (xs ++ x ∷ []) ≡ length xs + 1
  length-concat xs x = omega (arith, length-append xs (x ∷ []))

module _ {ℓ κ} {A : Type ℓ} where
  -- Every element satisfies `P`.
  abbrev pub All : (A → Type κ) → List A → Type κ
  All P [] = Unit
  All P (x ∷ xs) = P x × All P xs

-- Some element satisfies `P`.
abbrev pub Some {ℓ} : {A : Type ℓ} → (A → Type 0) → List A → Type 0
Some P [] = ⊥
Some P (x ∷ xs) = P x ⊎ Some P xs

-- What some element satisfies does not depend on the order.
pub Some-Permᴰ {ℓ} :
    {A : Type ℓ} (P : A → Type 0) {xs ys : List A} → Permᴰ xs ys → Some P xs → Some P ys
Some-Permᴰ P Permᴰ.nil h = h
Some-Permᴰ P (Permᴰ.cons e p) (inl h) = inl (subst P e h)
Some-Permᴰ P (Permᴰ.cons e p) (inr h) = inr (Some-Permᴰ P p h)
Some-Permᴰ P (Permᴰ.swap d e) (inl h) = inr (inl (subst P d h))
Some-Permᴰ P (Permᴰ.swap d e) (inr (inl h)) = inl (subst P e h)
Some-Permᴰ P (Permᴰ.swap d e) (inr (inr h)) = inr (inr h)
Some-Permᴰ P (Permᴰ.trans p q) h = Some-Permᴰ P q (Some-Permᴰ P p h)

pub Some-map {ℓ} :
    {A : Type ℓ} (P Q : A → Type 0) → ((a : A) → P a → Q a) → (xs : List A) → Some P xs → Some Q xs
Some-map P Q f [] h = elim h [ ]
Some-map P Q f (x ∷ xs) (inl h) = inl (f x h)
Some-map P Q f (x ∷ xs) (inr h) = inr (Some-map P Q f xs h)

-- A Go map with string keys. The order of the list is one order in which `range` may visit it.
module _ {ℓ} {V : Type ℓ} where
  -- delete(m, k)
  unfoldable pub erase : String → List (String × V) → List (String × V)
  erase key [] = []
  erase key (entry ∷ es) = let rest = erase key es in if entry.0 == key then rest else entry ∷ rest

  -- m[k] = v
  unfoldable pub insert : String → V → List (String × V) → List (String × V)
  insert key value [] = (key, value) ∷ []
  insert key value (entry ∷ es) =
      let later = insert key value es in if entry.0 == key then (key, value) ∷ es else entry ∷ later

  -- m[k], `none` where the key is missing
  unfoldable pub lookup : String → List (String × V) → Option V
  lookup key [] = none
  lookup key (entry ∷ es) =
      let later = lookup key es in if entry.0 == key then some entry.1 else later

  pub lookup-erase :
      (key asked : String) (es : List (String × V))
      → lookup asked (erase key es) ≡ (if key == asked then none else lookup asked es)
  unfolding erase lookup
  lookup-erase key asked [] = ground arith
  lookup-erase key asked (entry ∷ es) =
      ground (
        arith,
        lookup-erase key asked es,
        eq_iff entry.0 key,
        eq_iff entry.0 asked,
        eq_iff key asked,
      )

  pub lookup-insert :
      (key asked : String) (value : V) (es : List (String × V))
      → lookup asked (insert key value es) ≡ (if key == asked then some value else lookup asked es)
  unfolding insert lookup
  lookup-insert key asked value [] = refl
  lookup-insert key asked value (entry ∷ es) = ground (
    arith,
    eq_iff entry.0 key,
    eq_iff key asked,
    eq_iff entry.0 asked,
    lookup-insert key asked value es,
  )

pub Some-insert {ℓ} :
    {V : Type ℓ} (P : String × V → Type 0) (k : String) (v : V) (m : List (String × V))
    → P (k, v)
    → Some P (insert k v m)
unfolding insert
Some-insert P k v [] h = inl h
Some-insert P k v ((j, w) ∷ m) h = elim (Bool-cases (j == k)) [
  | inl same ↦ rw same (inl h)
  | inr other ↦ rw other (inr (Some-insert P k v m h))
]

pub ruleset map_laws = (lookup-insert, lookup-erase)

pub All-concat {ℓ κ} :
    {A : Type ℓ} (P : A → Type κ) (xs : List A) {x : A} → All P xs → P x → All P (xs ++ x ∷ [])
All-concat P [] h p = (p, tt)
All-concat P (y ∷ xs) (q, h) p = (q, All-concat P xs h p)

pub All-map {ℓ κ ν} :
    {A : Type ℓ} (P : A → Type κ) (Q : A → Type ν) (xs : List A)
    → ((a : A) → P a → Q a)
    → All P xs
    → All Q xs
All-map P Q [] f h = tt
All-map P Q (x ∷ xs) f (p, h) = (f x p, All-map P Q xs f h)
