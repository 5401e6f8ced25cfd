-- ===== src/Texts.antt =====
-- The part of Go's package strings that the program calls, on texts as lists of code points:
-- TrimSpace, Fields, EqualFold, Split and Join at one character.
pub mod Lines
pub mod Words
use Prim.Native.Char.{code}
use ghost_node.Prelude.{
  ℕ, ◌+◌, String, ◌≡◌, refl, Bool, true, false, ◌&&◌, ◌||◌, List, [], ◌∷◌, ◌++◌, map, arith, leb,
  eqb, if◌then◌else◌, eqb_refl,
}

abbrev pub Text : Type 0
Text = List ℕ

abbrev pub codes : String → Text
codes String.[] = []
codes (String.◌∷◌ c s) = code c ∷ codes s

unfoldable pub same : Text → Text → Bool
same [] [] = true
same [] (d ∷ t) = false
same (c ∷ s) [] = false
same (c ∷ s) (d ∷ t) = let rest = same s t in if eqb c d then rest else false

pub same_refl : (s : Text) → same s s ≡ true
unfolding same
same_refl [] = refl
same_refl (c ∷ s) = rw (eqb_refl c, same_refl s)

pub same_eq : (s t : Text) → same s t ≡ true → s ≡ t
unfolding same
same_eq [] [] h = refl
same_eq [] (d ∷ t) h = ground arith
same_eq (c ∷ s) [] h = ground arith
same_eq (c ∷ s) (d ∷ t) h = ground (arith, same_eq s t)

-- unicode.IsSpace
unfoldable pub is_space : ℕ → Bool
is_space c =
    (leb 9 c && leb c 13)
    || eqb c 32
    || eqb c 133
    || eqb c 160
    || eqb c 5760
    || (leb 8192 c && leb c 8202)
    || eqb c 8232
    || eqb c 8233
    || eqb c 8239
    || eqb c 8287
    || eqb c 12288

-- The letter that unicode.SimpleFold identifies with a character, where there is an ASCII one.
unfoldable pub fold : ℕ → ℕ
fold c =
    if leb 65 c && leb c 90
    then c + 32
    else if eqb c 383
    then 115
    else if eqb c 8490
    then 107
    else c

-- strings.EqualFold, where one of the texts is ASCII.
unfoldable pub equal_fold : Text → Text → Bool
equal_fold s t = same (map fold s) (map fold t)

unfoldable pub trim_left : Text → Text
trim_left [] = []
trim_left (c ∷ s) = elim (is_space c) [ true ↦ trim_left s | false ↦ c ∷ s ]

-- A character is dropped at the end if it is a space before nothing but spaces.
unfoldable pub keep : ℕ → Text → Text
keep c [] = if is_space c then [] else c ∷ []
keep c (d ∷ s) = c ∷ d ∷ s

unfoldable pub trim_right : Text → Text
trim_right [] = []
trim_right (c ∷ s) = keep c (trim_right s)

-- strings.TrimSpace
unfoldable pub trim_space : Text → Text
trim_space s = trim_right (trim_left s)

unfoldable pub close : Text → List Text → List Text
close [] words = words
close (c ∷ w) words = (c ∷ w) ∷ words

-- `word` is the field being read.
unfoldable pub fields_from : Text → Text → List Text
fields_from word [] = close word []
fields_from word (c ∷ s) = elim (is_space c) [
  | true ↦ close word (fields_from [] s)
  | false ↦ fields_from (word ++ c ∷ []) s
]

-- strings.Fields
unfoldable pub fields : Text → List Text
fields s = fields_from [] s

unfoldable pub extend : ℕ → List Text → List Text
extend c [] = (c ∷ []) ∷ []
extend c (l ∷ ls) = (c ∷ l) ∷ ls

-- strings.Split(s, "\n")
unfoldable pub split_lines : Text → List Text
split_lines [] = [] ∷ []
split_lines (c ∷ s) = let rest = split_lines s in if eqb c 10 then [] ∷ rest else extend c rest

-- strings.Join(lines, "\n")
unfoldable pub join_lines : List Text → Text
join_lines [] = []
join_lines (l ∷ []) = l
join_lines (l ∷ m ∷ ls) = l ++ 10 ∷ join_lines (m ∷ ls)
