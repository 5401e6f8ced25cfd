-- ===== src/Texts/Lines.antt =====
-- Splitting a text into lines and joining them are inverse.
use ghost_node.Prelude.{
  ℕ, ◌≡◌, refl, ap, ◌∙◌, ◌≢◌, inl, inr, false, List, [], ◌∷◌, ◌++◌, arith, eqb, Bool-cases, All,
}
use ghost_node.Texts.{Text, extend, split_lines, join_lines}

-- A text without a line break.
abbrev pub IsLine : Text → Type 0
IsLine l = All (λ c. eqb c 10 ≡ false) l

All-extend : (c : ℕ) (ls : List Text) → eqb c 10 ≡ false → All IsLine ls → All IsLine (extend c ls)
unfolding extend
All-extend c [] e h = ((e, tt), tt)
All-extend c (l ∷ ls) e (h, hs) = ((e, h), hs)

pub All-split_lines : (s : Text) → All IsLine (split_lines s)
unfolding split_lines
All-split_lines [] = (tt, tt)
All-split_lines (c ∷ s) = elim (Bool-cases (eqb c 10)) [
  | inl e ↦ rw e (tt, All-split_lines s)
  | inr e ↦ rw e (All-extend c (split_lines s) e (All-split_lines s))
]

pub split_lines_full : (s : Text) → split_lines s ≢ []
unfolding split_lines extend
split_lines_full [] = ground arith
split_lines_full (c ∷ s) = elim (Bool-cases (eqb c 10)) [
  | inl e ↦ rw e (ground arith)
  | inr e ↦ rw e (extended (split_lines s))
]
  where
    extended : (ls : List Text) → extend c ls ≢ []
    extended [] = ground arith
    extended (l ∷ ls) = ground arith

split_lines_one : (l : Text) → IsLine l → split_lines l ≡ l ∷ []
unfolding split_lines extend
split_lines_one [] h = refl
split_lines_one (c ∷ l) (h, hs) = rw (h, split_lines_one l hs)

split_lines_break : (l s : Text) → IsLine l → split_lines (l ++ 10 ∷ s) ≡ l ∷ split_lines s
unfolding split_lines extend
split_lines_break [] s h = refl
split_lines_break (c ∷ l) s (h, hs) = rw (h, split_lines_break l s hs)

pub split_lines-join_lines :
    (ls : List Text) → ls ≢ [] → All IsLine ls → split_lines (join_lines ls) ≡ ls
unfolding join_lines
split_lines-join_lines [] full h = absurd (full refl)
split_lines-join_lines (l ∷ []) full (h, hs) = split_lines_one l h
split_lines-join_lines (l ∷ m ∷ ls) full (h, hs) =
    split_lines_break l _ h ∙ ap (λ x. l ∷ x) (split_lines-join_lines (m ∷ ls) (ground arith) hs)
