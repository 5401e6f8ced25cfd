-- ===== src/Texts/Words.antt =====
-- The fields of a text: trimming keeps them, and a word stays one field.
use ghost_node.Prelude.{
  ℕ, ◌≡◌, refl, ◌∙◌, subst, ◌≢◌, inl, inr, true, false, List, [], ◌∷◌, ◌++◌, arith, Bool-cases, All,
  All-concat, append_nil, append_one,
}
use ghost_node.Texts.{
  Text, is_space, trim_left, keep, trim_right, trim_space, close, fields_from, fields,
}

abbrev NoSpace : ℕ → Type 0
NoSpace c = is_space c ≡ false

-- A text that is one field.
abbrev pub IsWord : Text → Type 0
IsWord w = (w ≢ []) × All NoSpace w

fields_from-word :
    (word w s : Text) → All NoSpace w → fields_from word (w ++ s) ≡ fields_from (word ++ w) s
unfolding fields_from
fields_from-word word [] s h = rw (append_nil word)
fields_from-word word (c ∷ w) s (h, hs) =
    rw (h, fields_from, fields_from-word (word ++ c ∷ []) w s hs, append_one word c w)

close-IsWord : (w : Text) (words : List Text) → w ≢ [] → close w words ≡ w ∷ words
unfolding close
close-IsWord [] words h = absurd (h refl)
close-IsWord (c ∷ w) words h = refl

-- A text that is one word is its only field.
pub fields_word : (w : Text) → IsWord w → fields w ≡ w ∷ []
unfolding fields fields_from
fields_word w (full, h) =
    subst (λ x. fields_from [] x ≡ w ∷ []) (append_nil w)
      (fields_from-word [] w [] h ∙ close-IsWord w [] full)

-- A word before a space is the first field.
pub fields_first : (w s : Text) → IsWord w → fields (w ++ 32 ∷ s) ≡ w ∷ fields s
unfolding fields fields_from close is_space
fields_first w s (full, h) = fields_from-word [] w (32 ∷ s) h ∙ close-IsWord w _ full

fields_from-trim_left : (s : Text) → fields_from [] (trim_left s) ≡ fields_from [] s
unfolding fields_from trim_left close
fields_from-trim_left [] = refl
fields_from-trim_left (c ∷ s) = elim (Bool-cases (is_space c)) [
  | inl h ↦ rw (h, trim_left, fields_from) (fields_from-trim_left s)
  | inr h ↦ rw (h, trim_left)
]

fields_from-keep :
    (word : Text) (c : ℕ) (s : Text) → fields_from word (keep c s) ≡ fields_from word (c ∷ s)
unfolding fields_from keep close
fields_from-keep word c [] = elim (Bool-cases (is_space c)) [
  | inl h ↦ rw (h, keep, fields_from)
  | inr h ↦ rw (h, keep, fields_from, h)
]
fields_from-keep word c (d ∷ s) = refl

fields_from-trim_right : (word s : Text) → fields_from word (trim_right s) ≡ fields_from word s
unfolding fields_from trim_right
fields_from-trim_right word [] = refl
fields_from-trim_right word (c ∷ s) =
    fields_from-keep word c (trim_right s) ∙ elim (Bool-cases (is_space c)) [
      | inl h ↦ rw (h, fields_from, fields_from-trim_right [] s)
      | inr h ↦ rw (h, fields_from, fields_from-trim_right (word ++ c ∷ []) s)
    ]

pub fields-trim_space : (s : Text) → fields (trim_space s) ≡ fields s
unfolding fields trim_space
fields-trim_space s = fields_from-trim_right [] (trim_left s) ∙ fields_from-trim_left s

-- Spaces in front are no field.
pub fields_indented : (c : ℕ) (s : Text) → is_space c ≡ true → fields (c ∷ s) ≡ fields s
unfolding fields fields_from close
fields_indented c s h = rw (h, fields_from)

All-close :
    (word : Text) (words : List Text)
    → All NoSpace word
    → All IsWord words
    → All IsWord (close word words)
unfolding close
All-close [] words h hs = hs
All-close (c ∷ w) words h hs = ((ground arith, h), hs)

All-fields_from : (word s : Text) → All NoSpace word → All IsWord (fields_from word s)
unfolding fields_from
All-fields_from word [] h = All-close word [] h tt
All-fields_from word (c ∷ s) h = elim (Bool-cases (is_space c)) [
  | inl e ↦ rw (e, fields_from) (All-close word _ h (All-fields_from [] s tt))
  | inr e ↦ rw (e, fields_from) (All-fields_from (word ++ c ∷ []) s (All-concat NoSpace word h e))
]

-- Every field is a word.
pub All-fields : (s : Text) → All IsWord (fields s)
unfolding fields
All-fields s = All-fields_from [] s tt
