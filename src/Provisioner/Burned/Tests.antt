-- ===== src/Provisioner/Burned/Tests.antt =====
-- Runs of the model of internal/provisioner/burned.go, and instances of its theorems.
use mathlib.Core.List.Permᴰ
use ghost_node.Prelude.{
  ℕ, String, ◌≡◌, refl, ◌≢◌, ◌↔◌, Bool, true, false, none, some, List, [], ◌∷◌, arith, ◌==◌, eq_iff,
  eqb, if◌then◌else◌, Result, ok, err,
}
use ghost_node.Prelude.Int.{pos}
use ghost_node.Provisioner.Address.{parse_addr, same_24, v4}
use ghost_node.Provisioner.Burned.{
  BurnedStore, burned, scan, in_prefix, save, load, contents, same_prefix, prune, retained,
}
use ghost_node.Provisioner.Burned.Verdict.{IsBurned, burned-ne-none_iff}
use ghost_node.Provisioner.Burned.Retention.{load-save}

abbrev no_ipv6 : String → Bool
no_ipv6 s = false

abbrev two_burned : BurnedStore
two_burned = record { path = "/b.json"; entries = ("1.2.3.4", 5) ∷ ("9.9.9.9", 8) ∷ [] }

abbrev other_order : BurnedStore
other_order = record { path = "/b.json"; entries = ("9.9.9.9", 8) ∷ ("1.2.3.4", 5) ∷ [] }

neighbour_run : burned no_ipv6 10 "1.2.3.77" (pos 6) two_burned ≡ some (same_prefix "1.2.3.4" 5)
unfolding burned scan in_prefix parse_addr same_24
neighbour_run = refl

stale_run : burned no_ipv6 12 "1.2.3.77" (pos 6) two_burned ≡ none
unfolding burned scan in_prefix parse_addr same_24
stale_run = refl

neighbour_found : burned no_ipv6 10 "1.2.3.77" (pos 6) two_burned ≢ none
neighbour_found e = cc neighbour_run

burned-ne-none_iff_example :
    (burned no_ipv6 10 "1.2.3.77" (pos 6) two_burned ≢ none)
    ↔ IsBurned no_ipv6 10 "1.2.3.77" (pos 6) two_burned
burned-ne-none_iff_example = burned-ne-none_iff no_ipv6 10 "1.2.3.77" (pos 6) two_burned

parse_neighbour : parse_addr no_ipv6 "1.2.3.77" ≡ some (v4 1 2 3 77)
unfolding parse_addr
parse_neighbour = refl

parse_burned : parse_addr no_ipv6 "1.2.3.4" ≡ some (v4 1 2 3 4)
unfolding parse_addr
parse_burned = refl

same_three_bytes : same_24 (v4 1 2 3 77) (v4 1 2 3 4) ≡ true
unfolding same_24
same_three_bytes = refl

named : (s : String) → (s == "") ≡ false → s ≢ ""
named s h = ground (arith, eq_iff s "")

-- A codec for stores with a single entry of instant 5, written as its address.
abbrev encode_one : List (String × ℕ) → Result String String
encode_one ((ip, when) ∷ []) = if eqb when 5 then ok ip else err "other instant"
encode_one _ = err "other length"

abbrev decode_one : String → Result String (List (String × ℕ))
decode_one ip = ok ((ip, 5) ∷ [])

abbrev one_burned : BurnedStore
one_burned = record { path = "/b.json"; entries = ("1.2.3.4", 5) ∷ [] }

saved_one : (save encode_one none none 9 (pos 7) one_burned).written ≡ some "1.2.3.4"
unfolding save
saved_one = refl

codec_one :
    (t : String)
    → encode_one (prune 9 (pos 7) one_burned.entries) ≡ ok t
    → (es : List (String × ℕ)) × (decode_one t ≡ ok es)
      × mathlib.Core.List.Permᴰ (prune 9 (pos 7) one_burned.entries) es
unfolding prune retained
codec_one t h = (("1.2.3.4", 5) ∷ [], cc, mathlib.Core.List.Permᴰ.refl _)

load-save_example :
    (es : List (String × ℕ)) × (load decode_one "/b.json" (contents "1.2.3.4")
      ≡ ok (record { path = "/b.json"; entries = es }))
    × mathlib.Core.List.Permᴰ (save encode_one none none 9 (pos 7) one_burned).store.entries es
load-save_example =
    load-save encode_one none none decode_one 9 (pos 7) one_burned "1.2.3.4" codec_one saved_one
