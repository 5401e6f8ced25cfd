-- ===== src/Provisioner/Burned/Verdict.antt =====
-- When internal/provisioner/burned.go reports an address as burned.
use mathlib.Core.List.{Permᴰ}
use ghost_node.Prelude.{
  ℕ, ◌+◌, ◌≤◌, ◌<◌, String, ◌≡◌, refl, ◌≢◌, ◌↔◌, ◌⊎◌, inl, inr, Bool, true, none, some, List, [],
  ◌∷◌, arith, eq_iff, Option-cases, Some, Some-Permᴰ, Some-insert, insert,
}
use ghost_node.Prelude.Int.{ℤ, pos, negsuc, pos_part}
use ghost_node.Provisioner.Address.{Addr, parse_addr, same_24}
use ghost_node.Provisioner.Burned.{BurnedStore, add, in_prefix, scan, burned}

entries-add :
    (now : ℕ) (ip : String) (s : BurnedStore)
    → ip ≢ ""
    → (add now ip s).entries ≡ insert ip now s.entries
unfolding add
entries-add now ip s named = ground (arith, eq_iff ip "")

module _ (is_ipv6 : String → Bool) where
  -- The entry is inside the window, and is the address or one with its first three bytes.
  abbrev pub Matches : ℕ → ℕ → String → Addr → String × ℕ → Type 0
  Matches now within ip candidate e =
      (now ≤ e.1 + within) × ((e.0 ≡ ip) ⊎ (in_prefix is_ipv6 candidate e.0 ≡ true))

  -- What Burned is asked for makes sense, and some entry matches.
  abbrev pub IsBurned : ℕ → String → ℤ → BurnedStore → Type 0
  IsBurned now ip within s =
      (candidate : Addr) × (parse_addr is_ipv6 ip ≡ some candidate)
      × (ip ≢ "")
      × (0 < pos_part within)
      × Some (Matches now (pos_part within) ip candidate) s.entries

  scan-ne-none_iff :
      (now within : ℕ) (ip : String) (candidate : Addr) (es : List (String × ℕ))
      → (scan is_ipv6 now within ip candidate es ≢ none) ↔ Some (Matches now within ip candidate) es
  unfolding scan
  scan-ne-none_iff now within ip candidate [] = ground arith
  scan-ne-none_iff now within ip candidate ((raw, when) ∷ es) =
      ground (arith, eq_iff raw ip, scan-ne-none_iff now within ip candidate es)

  burned_of_IsBurned :
      (now : ℕ) (ip : String) (within : ℤ) (s : BurnedStore)
      → IsBurned now ip within s
      → burned is_ipv6 now ip within s ≢ none
  unfolding burned
  burned_of_IsBurned now ip (negsuc n) s h = absurd (omega (arith, h.3))
  burned_of_IsBurned now ip (pos within) s (candidate, parsed, named, window, found) =
      ground (arith, eq_iff ip "", (scan-ne-none_iff now within ip candidate s.entries).1 found)

  IsBurned-of_burned :
      (now : ℕ) (ip : String) (within : ℤ) (s : BurnedStore)
      → burned is_ipv6 now ip within s ≢ none
      → IsBurned now ip within s
  unfolding burned
  IsBurned-of_burned now ip (negsuc n) s h = absurd (h refl)
  IsBurned-of_burned now ip (pos within) s h = elim (Option-cases (parse_addr is_ipv6 ip)) [
    | inl bad ↦ absurd (h (rw (bad, burned)))
    | inr (candidate, parsed) ↦ (
      candidate,
      parsed,
      ground (arith, eq_iff ip ""),
      ground arith,
      (scan-ne-none_iff now within ip candidate s.entries).0 (ground arith),
    )
  ]

  -- Burned answers true exactly for a parsable non-empty address and a positive window when some
  -- stored entry, no older than the window, is the same text or lies in the same IPv4 /24.
  pub burned-ne-none_iff :
      (now : ℕ) (ip : String) (within : ℤ) (s : BurnedStore)
      → (burned is_ipv6 now ip within s ≢ none) ↔ IsBurned now ip within s
  burned-ne-none_iff now ip within s =
      (IsBurned-of_burned now ip within s, burned_of_IsBurned now ip within s)

  -- Whether an address is reported does not depend on the order in which the map is visited.
  pub burned_order :
      (now : ℕ) (ip : String) (within : ℤ) (s t : BurnedStore)
      → Permᴰ s.entries t.entries
      → burned is_ipv6 now ip within s ≢ none
      → burned is_ipv6 now ip within t ≢ none
  burned_order now ip within s t p h =
      let (candidate, parsed, named, window, found) = IsBurned-of_burned now ip within s h in
      burned_of_IsBurned now ip within t (candidate, parsed, named, window, Some-Permᴰ _ p found)

  -- Once an address is added at `then_`, every address of its /24 is reported until the window
  -- has passed.
  pub burned-add :
      (then_ now : ℕ) (raw ip : String) (within : ℕ) (s : BurnedStore) (a b : Addr)
      → parse_addr is_ipv6 ip ≡ some a
      → parse_addr is_ipv6 raw ≡ some b
      → same_24 a b ≡ true
      → raw ≢ ""
      → ip ≢ ""
      → 0 < within
      → now ≤ then_ + within
      → burned is_ipv6 now ip (pos within) (add then_ raw s) ≢ none
  unfolding in_prefix
  burned-add then_ now raw ip within s a b pa pb near named asked window fresh =
      burned_of_IsBurned now ip (pos within) (add then_ raw s) (
        a,
        pa,
        asked,
        window,
        rw (entries-add then_ raw s named) (
            Some-insert (Matches now within ip a) raw then_ s.entries
              (fresh, inr (rw (pb, in_prefix) near))),
      )
