-- ===== src/Provisioner/Ociclient/File/Printed.antt =====
-- A file written for LoadFromFile of internal/provisioner/ociclient/ocifile.go is read back.
use ghost_node.Prelude.{
  ℕ, ◌≡◌, refl, ap, ◌∙◌, Bool, true, false, none, some, List, [], ◌∷◌, ◌++◌, if◌then◌else◌, ok, All,
}
use ghost_node.Texts.{
  Text, codes, same, same_refl, is_space, trim_left, keep, trim_right, trim_space,
}
use ghost_node.Provisioner.Ociclient.File.{
  Credentials, Files, before_bracket, section, cut, Reading, stored, in_section, is_skipped,
  on_line, on_lines, value_of, or_default, expand_home, default_path, credentials_of, scanned,
  load_from_file,
}

-- The lines of one profile.
abbrev pub printed : Text → Credentials → List Text
printed profile c =
    (b'[' ∷ profile ++ b']' ∷ [])
    ∷ (codes "tenancy=" ++ c.tenancy_ocid)
    ∷ (codes "user=" ++ c.user_ocid)
    ∷ (codes "fingerprint=" ++ c.fingerprint)
    ∷ (codes "region=" ++ c.region)
    ∷ (codes "key_file=" ++ c.private_key_path)
    ∷ []

-- The lines of several profiles.
unfoldable pub printed_all : List (Text × Credentials) → List Text → List Text
printed_all [] rest = rest
printed_all ((profile, c) ∷ others) rest = printed profile c ++ printed_all others rest

-- No space at either end.
abbrev pub IsTrimmed : Text → Type 0
IsTrimmed v = (trim_left v ≡ v) × (trim_right v ≡ v)

abbrev pub AreTrimmed : Credentials → Type 0
AreTrimmed c =
    IsTrimmed c.tenancy_ocid
    × IsTrimmed c.user_ocid
    × IsTrimmed c.fingerprint
    × IsTrimmed c.region
    × IsTrimmed c.private_key_path

trim_right-closed :
    (s v : Text) (c : ℕ)
    → is_space c ≡ false
    → trim_right v ≡ v
    → trim_right (s ++ c ∷ v) ≡ s ++ c ∷ v
unfolding trim_right keep
trim_right-closed [] [] c h t = rw h refl
trim_right-closed [] (d ∷ v) c h t = rw t refl
trim_right-closed (x ∷ []) v c h t = ap (keep x) (trim_right-closed [] v c h t)
trim_right-closed (x ∷ y ∷ s) v c h t = ap (keep x) (trim_right-closed (y ∷ s) v c h t)

trim_left-closed : (x : ℕ) (s : Text) → is_space x ≡ false → trim_left (x ∷ s) ≡ x ∷ s
unfolding trim_left
trim_left-closed x s h = rw (trim_left, h) refl

-- A text that starts with no space and ends in no space is trimmed already.
trim_space-closed :
    (x : ℕ) (s v : Text) (c : ℕ)
    → is_space x ≡ false
    → is_space c ≡ false
    → trim_right v ≡ v
    → trim_space (x ∷ s ++ c ∷ v) ≡ x ∷ s ++ c ∷ v
unfolding trim_space
trim_space-closed x s v c first h t =
    ap trim_right (trim_left-closed x (s ++ c ∷ v) first) ∙ trim_right-closed (x ∷ s) v c h t

trim_space-IsTrimmed : (v : Text) → IsTrimmed v → trim_space v ≡ v
unfolding trim_space
trim_space-IsTrimmed v (l, r) = ap trim_right l ∙ r

before_bracket-concat : (q : Text) → before_bracket (q ++ b']' ∷ []) ≡ some q
unfolding before_bracket
before_bracket-concat [] = refl
before_bracket-concat (c ∷ []) = refl
before_bracket-concat (c ∷ d ∷ q) = rw (before_bracket-concat (d ∷ q)) refl

-- The line of a section is read as its start.
on_line-section :
    (profile q : Text) (r : Reading)
    → on_line profile (trim_space (b'[' ∷ q ++ b']' ∷ [])) r ≡ record r { current = q }
unfolding on_line in_section section is_skipped is_space trim_right
on_line-section profile q r =
    rw (trim_space-closed b'[' q [] b']' refl refl refl, before_bracket-concat q) refl

-- The line of a key in the profile adds the entry; elsewhere it is passed over.
on_line-entry :
    (profile key v line : Text) (r : Reading)
    → trim_space line ≡ line
    → section line ≡ none
    → is_skipped line ≡ false
    → cut line ≡ some (key, v)
    → trim_space key ≡ key
    → IsTrimmed v
    → on_line profile (trim_space line) r
      ≡ (if same r.current profile then record r { values = (key, v) ∷ r.values } else r)
unfolding on_line in_section stored
on_line-entry profile key v line r t none_ not_skipped split key_t trimmed =
    rw (t, none_, not_skipped, split, key_t, trim_space-IsTrimmed v trimmed) refl

abbrev entries : Credentials → List (Text × Text)
entries c =
    (codes "key_file", c.private_key_path)
    ∷ (codes "region", c.region)
    ∷ (codes "fingerprint", c.fingerprint)
    ∷ (codes "user", c.user_ocid)
    ∷ (codes "tenancy", c.tenancy_ocid)
    ∷ []

line_of_tenancy :
    (profile v : Text) (r : Reading)
    → IsTrimmed v
    → on_line profile (trim_space (codes "tenancy=" ++ v)) r ≡ (
        if same r.current profile then record r { values = (codes "tenancy", v) ∷ r.values } else r)
unfolding section is_skipped cut trim_space trim_left trim_right keep is_space
line_of_tenancy profile v r t =
    on_line-entry profile (codes "tenancy") v (codes "tenancy=" ++ v) r
      (trim_space-closed b't' (codes "enancy") v b'=' refl refl t.1) refl refl refl refl t

line_of_user :
    (profile v : Text) (r : Reading)
    → IsTrimmed v
    → on_line profile (trim_space (codes "user=" ++ v)) r
      ≡ (if same r.current profile then record r { values = (codes "user", v) ∷ r.values } else r)
unfolding section is_skipped cut trim_space trim_left trim_right keep is_space
line_of_user profile v r t =
    on_line-entry profile (codes "user") v (codes "user=" ++ v) r
      (trim_space-closed b'u' (codes "ser") v b'=' refl refl t.1) refl refl refl refl t

line_of_fingerprint :
    (profile v : Text) (r : Reading)
    → IsTrimmed v
    → on_line profile (trim_space (codes "fingerprint=" ++ v)) r ≡ (
        if same r.current profile
        then record r { values = (codes "fingerprint", v) ∷ r.values }
        else r)
unfolding section is_skipped cut trim_space trim_left trim_right keep is_space
line_of_fingerprint profile v r t =
    on_line-entry profile (codes "fingerprint") v (codes "fingerprint=" ++ v) r
      (trim_space-closed b'f' (codes "ingerprint") v b'=' refl refl t.1) refl refl refl refl t

line_of_region :
    (profile v : Text) (r : Reading)
    → IsTrimmed v
    → on_line profile (trim_space (codes "region=" ++ v)) r
      ≡ (if same r.current profile then record r { values = (codes "region", v) ∷ r.values } else r)
unfolding section is_skipped cut trim_space trim_left trim_right keep is_space
line_of_region profile v r t =
    on_line-entry profile (codes "region") v (codes "region=" ++ v) r
      (trim_space-closed b'r' (codes "egion") v b'=' refl refl t.1) refl refl refl refl t

line_of_key_file :
    (profile v : Text) (r : Reading)
    → IsTrimmed v
    → on_line profile (trim_space (codes "key_file=" ++ v)) r ≡ (
        if same r.current profile
        then record r { values = (codes "key_file", v) ∷ r.values }
        else r)
unfolding section is_skipped cut trim_space trim_left trim_right keep is_space
line_of_key_file profile v r t =
    on_line-entry profile (codes "key_file") v (codes "key_file=" ++ v) r
      (trim_space-closed b'k' (codes "ey_file") v b'=' refl refl t.1) refl refl refl refl t

choose_true : {A : Type 0} {b : Bool} (x y : A) → b ≡ true → (if b then x else y) ≡ x
choose_true x y h = rw h refl

choose_false : {A : Type 0} {b : Bool} (x y : A) → b ≡ false → (if b then x else y) ≡ y
choose_false x y h = rw h refl

step :
    (profile line : Text) (lines : List Text) (r s : Reading)
    → on_line profile (trim_space line) r ≡ s
    → on_lines profile (line ∷ lines) r ≡ on_lines profile lines s
unfolding on_lines
step profile line lines r s e = ap (on_lines profile lines) e

-- The lines of the profile asked for store its entries.
on_lines-own :
    (profile : Text) (c : Credentials) (rest : List Text) (r : Reading)
    → AreTrimmed c
    → on_lines profile (printed profile c ++ rest) r
      ≡ on_lines profile rest (record { current = profile; values = entries c ++ r.values })
on_lines-own profile c rest r (t1, t2, t3, t4, t5) =
    let own = same_refl profile in
    step profile _ _ r _ (on_line-section profile profile r)
    ∙ step profile _ _ _ _ (line_of_tenancy profile c.tenancy_ocid _ t1 ∙ choose_true _ _ own)
    ∙ step profile _ _ _ _ (line_of_user profile c.user_ocid _ t2 ∙ choose_true _ _ own)
    ∙ step profile _ _ _ _ (line_of_fingerprint profile c.fingerprint _ t3 ∙ choose_true _ _ own)
    ∙ step profile _ _ _ _ (line_of_region profile c.region _ t4 ∙ choose_true _ _ own)
    ∙ step profile _ _ _ _ (line_of_key_file profile c.private_key_path _ t5 ∙ choose_true _ _ own)

-- The lines of another profile store nothing.
on_lines-other :
    (profile q : Text) (c : Credentials) (rest : List Text) (r : Reading)
    → same q profile ≡ false
    → AreTrimmed c
    → on_lines profile (printed q c ++ rest) r
      ≡ on_lines profile rest (record { current = q; values = r.values })
on_lines-other profile q c rest r other (t1, t2, t3, t4, t5) =
    step profile _ _ r _ (on_line-section profile q r)
    ∙ step profile _ _ _ _ (line_of_tenancy profile c.tenancy_ocid _ t1 ∙ choose_false _ _ other)
    ∙ step profile _ _ _ _ (line_of_user profile c.user_ocid _ t2 ∙ choose_false _ _ other)
    ∙ step profile _ _ _ _ (line_of_fingerprint profile c.fingerprint _ t3 ∙ choose_false _ _ other)
    ∙ step profile _ _ _ _ (line_of_region profile c.region _ t4 ∙ choose_false _ _ other)
    ∙ step profile _ _ _ _
        (line_of_key_file profile c.private_key_path _ t5 ∙ choose_false _ _ other)

-- Another profile than the one asked for, with trimmed entries.
abbrev pub IsOther : Text → Text × Credentials → Type 0
IsOther profile (q, c) = (same q profile ≡ false) × AreTrimmed c

-- The profile that the reading is in after those profiles.
last_name : Text → List (Text × Credentials) → Text
last_name current [] = current
last_name current ((q, c) ∷ others) = last_name q others

-- The lines of other profiles store nothing.
on_lines-others :
    (profile : Text) (others : List (Text × Credentials)) (rest : List Text) (r : Reading)
    → All (IsOther profile) others
    → on_lines profile (printed_all others rest) r
      ≡ on_lines profile rest (record { current = last_name r.current others; values = r.values })
unfolding printed_all last_name
on_lines-others profile [] rest r h = refl
on_lines-others profile ((q, c) ∷ others) rest r ((other, trimmed), h) =
    on_lines-other profile q c (printed_all others rest) r other trimmed
    ∙ on_lines-others profile others rest (record { current = q; values = r.values }) h

-- The reading of a file with the profile among others.
values-printed :
    (profile : Text) (c : Credentials) (before after : List (Text × Credentials)) (r : Reading)
    → AreTrimmed c
    → All (IsOther profile) before
    → All (IsOther profile) after
    → (on_lines profile (printed_all before (printed profile c ++ printed_all after [])) r).values
      ≡ entries c ++ r.values
unfolding on_lines
values-printed profile c before after r t hb ha =
    ap (λ s. s.values)
      (on_lines-others profile before (printed profile c ++ printed_all after []) r hb
        ∙ on_lines-own profile c (printed_all after []) _ t
        ∙ on_lines-others profile after [] _ ha)

-- Where the place of the file is known, which is the path given or else the one in the home
-- directory, the scanner yields the lines of the profile asked for among those of profiles with
-- other names, without an error, and no entry starts or ends with a space, LoadFromFile returns
-- the entries of the profile, with the home directory put into the path of the key.
pub load_from_file-printed :
    (files : Files) (path place asked : Text) (c : Credentials)
    (before after : List (Text × Credentials))
    → AreTrimmed c
    → All (IsOther (or_default asked)) before
    → All (IsOther (or_default asked)) after
    → default_path files path ≡ ok place
    → files.open_ (expand_home files place)
      ≡ ok (printed_all before (printed (or_default asked) c ++ printed_all after []), none)
    → load_from_file files path asked
      ≡ ok (record c { private_key_path = expand_home files c.private_key_path })
unfolding load_from_file scanned credentials_of value_of same
load_from_file-printed files path place asked c before after t hb ha given opened =
    let read =
      values-printed (or_default asked) c before after (record { current = []; values = [] }) t hb
        ha in
    rw (given, opened, read) refl
