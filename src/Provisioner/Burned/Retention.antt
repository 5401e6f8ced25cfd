-- ===== src/Provisioner/Burned/Retention.antt =====
-- What survives when internal/provisioner/burned.go saves the store and reads it back.
use mathlib.Core.List.{Permᴰ}
use ghost_node.Prelude.{
  ℕ, ◌+◌, ◌≤◌, String, ◌≡◌, ◌≢◌, ◌↔◌, ◌⊎◌, inl, inr, Bool, Option, none, some, List, [], ◌∷◌, arith,
  Result, ok, Some,
}
use ghost_node.Prelude.Int.{ℤ, pos}
use ghost_node.Provisioner.Burned.{BurnedStore, contents, retained, prune, save, load, burned}
use ghost_node.Provisioner.Burned.Verdict.{Matches, burned-ne-none_iff}

Some-retained :
    (P : String × ℕ → Type 0) (saved retain : ℕ) (es : List (String × ℕ))
    → ((e : String × ℕ) → P e → saved ≤ e.1 + retain)
    → Some P es
    → Some P (retained saved retain es)
unfolding retained
Some-retained P saved retain [] live h = elim h [ ]
Some-retained P saved retain ((ip, when) ∷ es) live (inl h) =
    let fresh : saved ≤ when + retain = live (ip, when) h in ground arith
Some-retained P saved retain ((ip, when) ∷ es) live (inr h) =
    ground (arith, Some-retained P saved retain es live h)

Some-of_retained :
    (P : String × ℕ → Type 0) (saved retain : ℕ) (es : List (String × ℕ))
    → Some P (retained saved retain es)
    → Some P es
unfolding retained
Some-of_retained P saved retain [] h = elim h [ ]
Some-of_retained P saved retain ((ip, when) ∷ es) h =
    ground (arith, Some-of_retained P saved retain es)

module _ (encode : List (String × ℕ) → Result String String) (mkdir write : Option String) where
  -- The store after Save has the old entries or the retained ones.
  entries-save :
      (saved retain : ℕ) (s : BurnedStore)
      → ((save encode mkdir write saved (pos retain) s).store.entries ≡ s.entries)
        ⊎ ((save encode mkdir write saved (pos retain) s).store.entries
            ≡ retained saved retain s.entries)
  unfolding save
  entries-save saved retain s = ground arith

  is_kept :
      (P : String × ℕ → Type 0) (saved retain : ℕ) (s : BurnedStore)
      → ((e : String × ℕ) → P e → saved ≤ e.1 + retain)
      → Some P s.entries
      → Some P (save encode mkdir write saved (pos retain) s).store.entries
  is_kept P saved retain s live h = elim (entries-save saved retain s) [
    | inl e ↦ rw e h
    | inr e ↦ rw e (Some-retained P saved retain s.entries live h)
  ]

  was_there :
      (P : String × ℕ → Type 0) (saved retain : ℕ) (s : BurnedStore)
      → Some P (save encode mkdir write saved (pos retain) s).store.entries
      → Some P s.entries
  was_there P saved retain s h = elim (entries-save saved retain s) [
    | inl e ↦ rw e at h
    | inr e ↦ Some-of_retained P saved retain s.entries (rw e at h)
  ]

  save_text :
      (saved : ℕ) (retain : ℤ) (s : BurnedStore) (text : String)
      → (save encode mkdir write saved retain s).written ≡ some text
      → (encode (prune saved retain s.entries) ≡ ok text)
        × ((save encode mkdir write saved retain s).store.entries ≡ prune saved retain s.entries)
  unfolding save
  save_text saved retain s text h = (ground arith, ground arith)

  load_ok :
      (decode : String → Result String (List (String × ℕ))) (saved : ℕ) (retain : ℤ)
      (s : BurnedStore) (text : String) (es : List (String × ℕ))
      → (save encode mkdir write saved retain s).written ≡ some text
      → decode text ≡ ok es
      → load decode s.path (contents text) ≡ ok (record { path = s.path; entries = es })
  unfolding save load
  load_ok decode saved retain s text es h d = ground arith

  -- What Save wrote, read back by LoadBurnedStore, is the store that Save left in memory, in some
  -- order, where the codec decodes the entries that it encoded, in some order.
  pub load-save :
      (decode : String → Result String (List (String × ℕ))) (saved : ℕ) (retain : ℤ)
      (s : BurnedStore) (text : String)
      → ((t : String)
          → encode (prune saved retain s.entries) ≡ ok t
          → (es : List (String × ℕ)) × (decode t ≡ ok es) × Permᴰ (prune saved retain s.entries) es)
      → (save encode mkdir write saved retain s).written ≡ some text
      → (es : List (String × ℕ)) × (load decode s.path (contents text)
          ≡ ok (record { path = s.path; entries = es }))
        × Permᴰ (save encode mkdir write saved retain s).store.entries es
  load-save decode saved retain s text codec h =
      let (encoded, left) = save_text saved retain s text h in
      let (es, decoded, same) = codec text encoded in
      (es, load_ok decode saved retain s text es h decoded, rw left same)

  -- Saving with a retention no shorter than the window does not change what is reported later.
  pub burned-save :
      (is_ipv6 : String → Bool) (saved now within retain : ℕ) (ip : String) (s : BurnedStore)
      → within ≤ retain
      → saved ≤ now
      → (burned is_ipv6 now ip (pos within) (save encode mkdir write saved (pos retain) s).store
          ≢ none)
        ↔ (burned is_ipv6 now ip (pos within) s ≢ none)
  burned-save is_ipv6 saved now within retain ip s wide later = (
    λ h.
        let (a, parsed, named, window, found) =
          (burned-ne-none_iff is_ipv6 now ip (pos within)
              (save encode mkdir write saved (pos retain) s).store).0
            h in
        (burned-ne-none_iff is_ipv6 now ip (pos within) s).1 (
          a,
          parsed,
          named,
          window,
          was_there (Matches is_ipv6 now within ip a) saved retain s found,
        ),
    λ h.
        let (a, parsed, named, window, found) =
          (burned-ne-none_iff is_ipv6 now ip (pos within) s).0 h in
        (burned-ne-none_iff is_ipv6 now ip (pos within)
            (save encode mkdir write saved (pos retain) s).store).1
          (
            a,
            parsed,
            named,
            window,
            is_kept (Matches is_ipv6 now within ip a) saved retain s (λ e m. omega (arith, m.0))
                found,
          ),
  )
