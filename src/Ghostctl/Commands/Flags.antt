-- ===== src/Ghostctl/Commands/Flags.antt =====
-- parseFlags of cmd/ghostctl/main.go: flags may follow positional arguments. fs.Parse is a
-- parameter, which returns the flags and the arguments that it has not read.
use ghost_node.Prelude.{
  ℕ, zero, suc, ◌≤◌, ◌<◌, String, ◌≡◌, refl, ◌≢◌, Option, none, some, List, [], ◌∷◌, ◌++◌, arith,
  Result, ok, err, length,
}

module _ (F : Type 0) where
  abbrev Parsed : Type 0
  Parsed = Result String (F × List String)

  -- One round of the loop, after fs.Parse; `next` is the rest of the loop.
  parsed : List String → (F → List String → List String → Option Parsed) → Parsed → Option Parsed
  parsed positional next (err e) = some (err e)
  parsed positional next (ok (flags, [])) = some (ok (flags, positional))
  parsed positional next (ok (flags, arg ∷ rest)) = next flags (positional ++ arg ∷ []) rest

  -- The loop, where `none` means that the fuel has run out.
  pub parse_flags : (F → List String → Parsed) → ℕ → F → List String → List String → Option Parsed
  parse_flags parse zero flags positional rest = none
  parse_flags parse (suc fuel) flags positional rest =
      parsed positional (parse_flags parse fuel) (parse flags rest)

  -- fs.Parse leaves no more arguments than it is given.
  abbrev pub Consumes : (F → List String → Parsed) → Type 0
  Consumes parse =
      (flags flags' : F) (args rest : List String)
      → parse flags args ≡ ok (flags', rest)
      → length rest ≤ length args

  parsed_returns :
      (positional : List String) (next : F → List String → List String → Option Parsed) (r : Parsed)
      → ((flags : F) (arg : String) (rest : List String)
          → r ≡ ok (flags, arg ∷ rest)
          → next flags (positional ++ arg ∷ []) rest ≢ none)
      → parsed positional next r ≢ none
  unfolding parsed
  parsed_returns positional next (err e) h = ground arith
  parsed_returns positional next (ok (flags, [])) h = ground arith
  parsed_returns positional next (ok (flags, arg ∷ rest)) h = h flags arg rest refl

  -- Fuel above the number of arguments is enough for parseFlags.
  pub parse_flags_returns :
      (parse : F → List String → Parsed) (fuel : ℕ) (flags : F) (positional args : List String)
      → Consumes parse
      → length args < fuel
      → parse_flags parse fuel flags positional args ≢ none
  unfolding parse_flags
  parse_flags_returns parse zero flags positional args consumes enough = absurd (omega arith)
  parse_flags_returns parse (suc fuel) flags positional args consumes enough =
      parsed_returns positional (parse_flags parse fuel) (parse flags args) (λ flags' arg rest e.
        parse_flags_returns parse fuel flags' (positional ++ arg ∷ []) rest consumes
          (omega (arith, consumes flags flags' args (arg ∷ rest) e)))
