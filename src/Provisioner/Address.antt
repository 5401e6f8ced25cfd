-- ===== src/Provisioner/Address.antt =====
-- The part of Go's net/netip that internal/provisioner/burned.go calls: ParseAddr on dotted quads,
-- Is4, and the /24 prefix of an address. Which texts are IPv6 addresses is left to a parameter,
-- since such an address has no /24 here.
use ghost_node.Prelude.{
  ℕ, ◌+◌, ◌-◌, ◌*◌, String, ◌≡◌, refl, Bool, true, false, ◌&&◌, Option, none, some, List, [], ◌∷◌,
  ltb, leb, eqb, if◌then◌else◌,
}
use ghost_node.Texts.{codes}

pub data Addr : Type 0 where
  v4 : ℕ → ℕ → ℕ → ℕ → Addr
  v6 : String → Addr

is_digit : ℕ → Bool
is_digit c = leb b'0' c && leb c b'9'

push : ℕ → Option (List ℕ) → Option (List ℕ)
push v none = none
push v (some vs) = some (v ∷ vs)

-- The fields of a dotted quad: `val` and `len` are the number and the digits read so far. An empty
-- field, a leading zero, a number above 255 and any other character are errors.
fields_from : ℕ → ℕ → List ℕ → Option (List ℕ)
fields_from val len [] = if eqb len 0 then none else some (val ∷ [])
fields_from val len (c ∷ s) = elim (is_digit c) [
  | true ↦
      let val' = val * 10 + (c - b'0') in
      let rest = fields_from val' (len + 1) s in
      if eqb len 1 && eqb val 0 then none else if ltb 255 val' then none else rest
  | false ↦
      let rest = fields_from 0 0 s in
      if eqb c b'.' then (if eqb len 0 then none else push val rest) else none
]

quad : Option (List ℕ) → Option Addr
quad (some (a ∷ b ∷ c ∷ d ∷ [])) = some (v4 a b c d)
quad _ = none

-- ParseAddr chooses by the first of `.`, `:` and `%`.
first_mark : List ℕ → ℕ
first_mark [] = 0
first_mark (c ∷ s) =
    let rest = first_mark s in
    if eqb c b'.' then 4 else if eqb c b':' then 6 else if eqb c b'%' then 0 else rest

-- netip.ParseAddr
unfoldable pub parse_addr : (String → Bool) → String → Option Addr
unfolding quad fields_from is_digit first_mark push
parse_addr is_ipv6 s =
    let mark = first_mark (codes s) in
    if eqb mark 4
    then quad (fields_from 0 0 (codes s))
    else if eqb mark 6
    then (if is_ipv6 s then some (v6 s) else none)
    else none

-- candidate.Prefix(24).Contains(other), false where `candidate` is not IPv4.
unfoldable pub same_24 : Addr → Addr → Bool
same_24 (v4 a b c d) (v4 a' b' c' d') = eqb a a' && eqb b b' && eqb c c'
same_24 (v4 a b c d) (v6 s) = false
same_24 (v6 s) other = false

parse_quad : parse_addr (λ _. false) "140.238.7.19" ≡ some (v4 140 238 7 19)
unfolding parse_addr
parse_quad = refl

parse_bad : parse_addr (λ _. false) "140.238.07.19" ≡ none
unfolding parse_addr
parse_bad = refl

parse_short : parse_addr (λ _. false) "140.238.7." ≡ none
unfolding parse_addr
parse_short = refl
