-- ===== src/Provisioner/Ociclient/File.antt =====
-- internal/provisioner/ociclient/ocifile.go: the credentials of a profile of ~/.oci/config. What the
-- scanner yields, its lines and its error, is an argument, and so is the user's home directory.
pub mod Printed
mod Tests
use ghost_node.Prelude.{
  ℕ, String, Bool, true, false, ◌||◌, Option, none, some, List, [], ◌∷◌, eqb, if◌then◌else◌, Result,
  ok, err, ◌>>=◌,
}
use ghost_node.Texts.{Text, codes, same, trim_space}

-- The part of Config that the file holds.
pub record Credentials : Type 0 where
  pub tenancy_ocid : Text
  pub user_ocid : Text
  pub fingerprint : Text
  pub region : Text
  pub private_key_path : Text

pub data FileError : Type 0 where
  locating_home : String → FileError
  opening reading : Text → String → FileError
  profile_not_found : (profile path : Text) → FileError

-- os.UserHomeDir, filepath.Join, and a file: its lines, and the error of the scanner.
pub record Files : Type 0 where
  pub user_home : Result String Text
  pub join : List Text → Text
  pub open_ : Text → Result String (List Text × Option String)

-- strings.HasPrefix for one character.
pub starts_with : ℕ → Text → Bool
starts_with c [] = false
starts_with c (d ∷ s) = eqb d c

-- strings.TrimSuffix(line, "]"), `none` where the line has not that suffix.
pub before_bracket : Text → Option Text
before_bracket [] = none
before_bracket (c ∷ []) = if eqb c b']' then some [] else none
before_bracket (c ∷ d ∷ s) = elim (before_bracket (d ∷ s)) [
  | some rest ↦ some (c ∷ rest)
  | none ↦ none
]

-- The name of a section, where the line starts with `[` and ends with `]`.
pub section : Text → Option Text
section [] = none
section (c ∷ s) = let rest = before_bracket s in if eqb c b'[' then rest else none

-- strings.Cut(line, "=")
pub cut : Text → Option (Text × Text)
cut [] = none
cut (c ∷ s) =
    let rest = cut s in
    if eqb c b'='
    then some ([], s)
    else elim rest [ some (key, value) ↦ some (c ∷ key, value) | none ↦ none ]

-- The variables of the loop: `values` has the newest entry of the map first.
pub record Reading : Type 0 where
  pub current : Text
  pub values : List (Text × Text)

pub stored : Option (Text × Text) → Reading → Reading
stored none r = r
stored (some (key, value)) r = record r { values = (trim_space key, trim_space value) ∷ r.values }

pub in_section : Text → Text → Reading → Option Text → Reading
in_section profile line r (some name) = record r { current = name }
in_section profile line r none = if same r.current profile then stored (cut line) r else r

is_skipped : Text → Bool
is_skipped [] = true
is_skipped (c ∷ s) = eqb c b'#' || eqb c b';'

-- One round of the loop, on a trimmed line.
pub on_line : Text → Text → Reading → Reading
on_line profile line r =
    let done = in_section profile line r (section line) in if is_skipped line then r else done

pub on_lines : Text → List Text → Reading → Reading
on_lines profile [] r = r
on_lines profile (l ∷ ls) r = on_lines profile ls (on_line profile (trim_space l) r)

-- values[key], empty where the key is missing.
pub value_of : Text → List (Text × Text) → Text
value_of key [] = []
value_of key ((k, v) ∷ entries) = let rest = value_of key entries in if same k key then v else rest

pub or_default : Text → Text
or_default [] = codes "DEFAULT"
or_default (c ∷ s) = c ∷ s

module _ (files : Files) where
  in_home : Text → Text → Result String Text → Text
  in_home path rest (ok home) = files.join (home ∷ rest ∷ [])
  in_home path rest (err e) = path

  -- expandHome
  pub expand_home : Text → Text
  expand_home [] = []
  expand_home (c ∷ s) = if eqb c b'~' then in_home (c ∷ s) s files.user_home else c ∷ s

  pub default_path : Text → Result FileError Text
  default_path (c ∷ s) = ok (c ∷ s)
  default_path [] = elim files.user_home [
    | ok home ↦ ok (files.join (home ∷ codes ".oci" ∷ codes "config" ∷ []))
    | err e ↦ err (locating_home e)
  ]

  pub credentials_of : Text → Text → List (Text × Text) → Result FileError Credentials
  credentials_of profile path [] = err (profile_not_found profile path)
  credentials_of profile path (v ∷ vs) = ok (record {
    tenancy_ocid = value_of (codes "tenancy") (v ∷ vs);
    user_ocid = value_of (codes "user") (v ∷ vs);
    fingerprint = value_of (codes "fingerprint") (v ∷ vs);
    region = value_of (codes "region") (v ∷ vs);
    private_key_path = expand_home (value_of (codes "key_file") (v ∷ vs));
  })

  pub scanned :
      Text → Text → Result String (List Text × Option String) → Result FileError Credentials
  scanned profile path (err e) = err (opening path e)
  scanned profile path (ok (lines, some e)) = err (reading path e)
  scanned profile path (ok (lines, none)) =
      credentials_of profile path
        (on_lines profile lines (record { current = []; values = [] })).values

  -- LoadFromFile
  pub load_from_file : Text → Text → Result FileError Credentials
  load_from_file path profile = default_path path >>= λ p.
      scanned (or_default profile) (expand_home p) (files.open_ (expand_home p))
