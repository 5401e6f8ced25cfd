-- ===== src/Provisioner/SshConfig/Entries.antt =====
-- What a line of an ssh config says, read off its fields, and which HostName a host gets.
use ghost_node.Prelude.{
  ℕ, ◌≡◌, refl, ap, ◌∙◌, subst, inl, inr, Bool, true, false, ◌||◌, Option, none, some, List, [],
  ◌∷◌, ◌++◌, arith, eqb, if◌then◌else◌, Bool-cases, All, append_nil,
}
use ghost_node.Texts.{Text, codes, equal_fold, fields, is_space, split_lines, fold, same}
use ghost_node.Texts.Words.{IsWord, fields_word, fields_first, fields_indented}
use ghost_node.Texts.Lines.{IsLine}
use ghost_node.Provisioner.SshConfig.{named, indent, renamed, same}

pub data Entry : Type 0 where
  host : List Text → Entry
  host_name : Text → Entry
  other : Entry

unfoldable pub entry_of : List Text → Entry
entry_of [] = other
entry_of (word ∷ []) = if equal_fold word (codes "Host") then host [] else other
entry_of (word ∷ value ∷ values) =
    if equal_fold word (codes "Host")
    then host (value ∷ values)
    else if equal_fold word (codes "HostName")
    then host_name value
    else other

-- Whether the lines after an entry stand in a block that names the host.
unfoldable pub applies_after : Text → Entry → Bool → Bool
applies_after alias (host names) applies = named alias names
applies_after alias (host_name value) applies = applies
applies_after alias other applies = applies

unfoldable pub or_later : Entry → Bool → Option Text → Option Text
or_later (host_name value) true later = some value
or_later (host_name value) false later = later
or_later (host names) applies later = later
or_later other applies later = later

-- The first HostName that applies to the host: `applies` tells whether the lines stand in a block
-- that names it.
unfoldable pub resolved : Text → Bool → List Text → Option Text
resolved alias applies [] = none
resolved alias applies (l ∷ ls) =
    let e = entry_of (fields l) in
    or_later e applies (resolved alias (applies_after alias e applies) ls)

-- The first HostName in the blocks of a host in a file, from a Host line that names the host to the
-- next Host line. Match lines, patterns and `HostName=`, which ssh knows, are not told apart.
abbrev pub host_name_of : Text → Text → Option Text
host_name_of config alias = resolved alias false (split_lines config)

blank-is_space : (c : ℕ) → (eqb c 32 || eqb c 9) ≡ true → is_space c ≡ true
unfolding is_space
blank-is_space c e = ground arith

host_name-IsWord : IsWord (codes "HostName")
unfolding is_space
host_name-IsWord =
    (ground arith, (refl, (refl, (refl, (refl, (refl, (refl, (refl, (refl, tt)))))))))

blank_line : (c : ℕ) → (eqb c 32 || eqb c 9) ≡ true → eqb c 10 ≡ false
blank_line c e = ground arith

module _ (ip : Text) (h : IsWord ip) where
  -- The fields of a rewritten line.
  pub fields-renamed :
      (line word : Text) → IsWord word → fields (renamed ip line word) ≡ word ∷ ip ∷ []
  unfolding renamed indent
  fields-renamed [] word hw = fields_first word ip hw ∙ ap (λ x. word ∷ x) (fields_word ip h)
  fields-renamed (c ∷ line) word hw = elim (Bool-cases (eqb c 32 || eqb c 9)) [
    | inl e ↦
        rw (e, fields_indented c (renamed ip line word) (blank-is_space c e))
          (fields-renamed line word hw)
    | inr e ↦ rw e (fields_first word ip hw ∙ ap (λ x. word ∷ x) (fields_word ip h))
  ]

  -- The line that is added says that the HostName is `ip`.
  pub entry_of-added : entry_of (fields (codes "    HostName " ++ ip)) ≡ host_name ip
  unfolding entry_of is_space equal_fold fold same
  entry_of-added =
      let word = codes "HostName" in
      let t = word ++ 32 ∷ ip in
      ap entry_of (
        fields_indented 32 (32 ∷ 32 ∷ 32 ∷ t) refl
        ∙ fields_indented 32 (32 ∷ 32 ∷ t) refl
        ∙ fields_indented 32 (32 ∷ t) refl
        ∙ fields_indented 32 t refl
        ∙ fields_first word ip host_name-IsWord
        ∙ ap (λ x. word ∷ x) (fields_word ip h))

  space_line : (c : ℕ) → is_space c ≡ false → eqb c 10 ≡ false
  unfolding is_space
  space_line c e = ground arith

  IsWord-IsLine : (w s : Text) → All (λ c. is_space c ≡ false) w → IsLine s → IsLine (w ++ s)
  IsWord-IsLine [] s hw hs = hs
  IsWord-IsLine (c ∷ w) s (e, hw) hs = (space_line c e, IsWord-IsLine w s hw hs)

  pub ip-IsLine : IsLine ip
  ip-IsLine = subst IsLine (append_nil ip) (IsWord-IsLine ip [] h.1 tt)

  pub renamed-IsLine : (line word : Text) → IsWord word → IsLine (renamed ip line word)
  unfolding renamed indent
  renamed-IsLine [] word hw = IsWord-IsLine word (32 ∷ ip) hw.1 (refl, ip-IsLine)
  renamed-IsLine (c ∷ line) word hw = elim (Bool-cases (eqb c 32 || eqb c 9)) [
    | inl e ↦ rw e (blank_line c e, renamed-IsLine line word hw)
    | inr e ↦ rw e (IsWord-IsLine word (32 ∷ ip) hw.1 (refl, ip-IsLine))
  ]
