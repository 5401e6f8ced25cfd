-- ===== src/Provisioner/Burned.antt =====
-- internal/provisioner/burned.go: the store of addresses that failed verification. An instant is a
-- number of nanoseconds, and the clock is an argument. `entries` lists the Go map in the order in
-- which `range` visits it. The JSON codec and the disk are arguments.
pub mod Verdict
pub mod Retention
pub mod Recency
mod Tests
use ghost_node.Prelude.{
  ℕ, ◌+◌, String, ◌≡◌, Bool, false, ◌||◌, Option, none, some, List, [], ◌∷◌, map, arith, ◌==◌,
  eq_iff, ltb, eqb, if◌then◌else◌, Result, ok, err, lookup, insert, lookup-insert,
}
use ghost_node.Prelude.Int.{ℤ, pos, negsuc}
use ghost_node.Provisioner.Address.{Addr, parse_addr, same_24}

pub record BurnedStore : Type 0 where
  pub path : String
  pub entries : List (String × ℕ)

-- The text that Burned returns beside true: "burned … ago", or "same /24 as …".
pub data Why : Type 0 where
  burned_before : ℕ → Why
  same_prefix : String → ℕ → Why

-- What os.ReadFile finds at the store's path.
pub data File : Type 0 where
  missing : File
  unreadable : String → File
  contents : String → File

pub data StoreError : Type 0 where
  reading parsing encoding creating writing : String → StoreError

parsed : String → Result String (List (String × ℕ)) → Result StoreError BurnedStore
parsed path (ok es) = ok (record { path = path; entries = es })
parsed path (err e) = err (parsing e)

-- LoadBurnedStore; `decode` is json.Unmarshal.
pub load :
    (String → Result String (List (String × ℕ))) → String → File → Result StoreError BurnedStore
unfolding parsed
load decode path file =
    if path == "" then ok (record { path = path; entries = [] }) else elim file [
      | missing ↦ ok (record { path = path; entries = [] })
      | unreadable e ↦ err (reading e)
      | contents text ↦ parsed path (decode text)
    ]

-- Add
unfoldable pub add : ℕ → String → BurnedStore → BurnedStore
add now ip s = if ip == "" then s else record s { entries = insert ip now s.entries }

pub lookup-add :
    (now : ℕ) (ip k : String) (s : BurnedStore)
    → lookup k (add now ip s).entries
      ≡ (if ip == "" then lookup k s.entries else if ip == k then some now else lookup k s.entries)
unfolding add
lookup-add now ip k s = ground (arith, eq_iff ip "", lookup-insert ip k now s.entries)

module _ (is_ipv6 : String → Bool) where
  -- `prefix.Contains(other)` where `raw` parses.
  unfoldable pub in_prefix : Addr → String → Bool
  in_prefix candidate raw = elim (parse_addr is_ipv6 raw) [
    | none ↦ false
    | some other ↦ same_24 candidate other
  ]

  -- The loop of Burned: `when.Before(now - within)` skips an entry.
  unfoldable pub scan : ℕ → ℕ → String → Addr → List (String × ℕ) → Option Why
  scan now within ip candidate [] = none
  scan now within ip candidate ((raw, when) ∷ rest) =
      let later = scan now within ip candidate rest in
      if ltb (when + within) now
      then later
      else if raw == ip
      then some (burned_before when)
      else if in_prefix candidate raw
      then some (same_prefix raw when)
      else later

  -- Burned: `none` is (false, "").
  unfoldable pub burned : ℕ → String → ℤ → BurnedStore → Option Why
  burned now ip (negsuc n) s = none
  burned now ip (pos within) s = elim (parse_addr is_ipv6 ip) [
    | none ↦ none
    | some candidate ↦
        if ip == "" || eqb within 0 then none else scan now within ip candidate s.entries
  ]

-- The deletions of Save.
retained : ℕ → ℕ → List (String × ℕ) → List (String × ℕ)
retained now retain [] = []
retained now retain ((ip, when) ∷ rest) =
    let kept = retained now retain rest in
    if ltb (when + retain) now then kept else (ip, when) ∷ kept

pub prune : ℕ → ℤ → List (String × ℕ) → List (String × ℕ)
prune now (negsuc n) es = es
prune now (pos retain) es = if ltb 0 retain then retained now retain es else es

-- What Save leaves: the store, the bytes that it wrote, and its error.
pub record Saved : Type 0 where
  pub store : BurnedStore
  pub written : Option String
  pub error : Option StoreError

write_step : BurnedStore → String → Option String → Option String → Saved
write_step s text (some e) write = record { store = s; written = none; error = some (creating e) }
write_step s text none (some e) = record { store = s; written = none; error = some (writing e) }
write_step s text none none = record { store = s; written = some text; error = none }

encode_step : BurnedStore → Result String String → Option String → Option String → Saved
unfolding write_step
encode_step s (err e) mkdir write = record { store = s; written = none; error = some (encoding e) }
encode_step s (ok text) mkdir write = write_step s text mkdir write

-- Save; `encode` is json.MarshalIndent, `mkdir` and `write` the errors of os.MkdirAll and
-- os.WriteFile.
pub save :
    (List (String × ℕ) → Result String String)
    → (mkdir write : Option String) (now : ℕ) → ℤ
    → BurnedStore
    → Saved
unfolding encode_step prune retained
save encode mkdir write now retain s =
    let s' : BurnedStore = record s { entries = prune now retain s.entries } in
    if s.path == ""
    then record { store = s; written = none; error = none }
    else encode_step s' (encode s'.entries) mkdir write

-- sort.Slice by `After`, as an insertion sort.
place : String × ℕ → List (String × ℕ) → List (String × ℕ)
place e [] = e ∷ []
place e (f ∷ fs) = let rest = place e fs in if ltb f.1 e.1 then e ∷ f ∷ fs else f ∷ rest

by_recency : List (String × ℕ) → List (String × ℕ)
unfolding place
by_recency [] = []
by_recency (e ∷ es) = place e (by_recency es)

-- List
pub listed : BurnedStore → List String
unfolding by_recency
listed s = map (λ e. e.0) (by_recency s.entries)
