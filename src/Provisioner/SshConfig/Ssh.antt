-- ===== src/Provisioner/SshConfig/Ssh.antt =====
-- What ssh reads as the HostName of a host, as its manual says, and where the files that
-- setSSHHostName of internal/provisioner/actions.go writes are read so.
use ghost_node.Prelude.{
  ℕ, ◌≡◌, refl, ap, ◌∙◌, Bool, true, false, ◌&&◌, ◌||◌, not, Option, none, List, [], ◌∷◌, map,
  arith, eqb, if◌then◌else◌, All,
}
use ghost_node.Texts.{Text, codes, equal_fold, fields, split_lines, same}
use ghost_node.Provisioner.SshConfig.{named}
use ghost_node.Provisioner.SshConfig.Entries.{
  Entry, host, host_name, other, entry_of, applies_after, or_later, resolved, host_name_of,
}

-- The texts that a pattern with `*` and `?` matches.
star : (Text → Bool) → Text → Bool
star rest [] = rest []
star rest (c ∷ s) = rest (c ∷ s) || star rest s

one_of : (Text → Bool) → (ℕ → Bool) → Text → Bool
one_of rest fits [] = false
one_of rest fits (c ∷ s) = fits c && rest s

is_empty : Text → Bool
is_empty [] = true
is_empty (c ∷ s) = false

unfoldable pub glob : Text → Text → Bool
unfolding star one_of is_empty
glob [] s = is_empty s
glob (p ∷ ps) s =
    if eqb p b'*' then star (glob ps) s else one_of (glob ps) (λ c. eqb p b'?' || eqb p c) s

-- Whether a pattern names the host, and whether it is a `!` pattern that rules it out.
names_it : Text → Text → Bool
names_it alias [] = glob [] alias
names_it alias (c ∷ p) = if eqb c b'!' then false else glob (c ∷ p) alias

rules_out : Text → Text → Bool
rules_out alias [] = false
rules_out alias (c ∷ p) = eqb c b'!' && glob p alias

any : (Text → Bool) → List Text → Bool
any test [] = false
any test (x ∷ xs) = test x || any test xs

-- Whether the patterns of a Host line select the host.
unfoldable pub selected : Text → List Text → Bool
unfolding any names_it rules_out
selected alias patterns = any (names_it alias) patterns && not (any (rules_out alias) patterns)

-- `=` may stand between an option and its value.
spaced : ℕ → ℕ
spaced c = if eqb c b'=' then 32 else c

unfoldable pub ssh_fields : Text → List Text
unfolding spaced
ssh_fields line = fields (map spaced line)

unfoldable pub is_match : List Text → Bool
is_match [] = false
is_match (word ∷ rest) = equal_fold word (codes "Match")

-- The state of the block after an entry that is no Match line.
after_entry : Text → Entry → Bool → Bool
after_entry alias (host patterns) applies = selected alias patterns
after_entry alias (host_name value) applies = applies
after_entry alias other applies = applies

-- The first HostName in force for the host. The criteria of a Match line are tested by `criteria`.
unfoldable pub ssh_resolved : (List Text → Bool) → Text → Bool → List Text → Option Text
unfolding is_match after_entry
ssh_resolved criteria alias applies [] = none
ssh_resolved criteria alias applies (l ∷ ls) =
    let words = ssh_fields l in
    let e = entry_of words in
    or_later e applies (
      ssh_resolved criteria alias
        (if is_match words then criteria words else after_entry alias e applies) ls)

-- What stands before the first Host line applies to every host.
abbrev pub ssh_host_name : (List Text → Bool) → Text → Text → Option Text
ssh_host_name criteria config alias = ssh_resolved criteria alias true (split_lines config)

-- A name without the signs of a pattern.
abbrev pub IsName : Text → Type 0
IsName = All (λ c. (eqb c b'*' || eqb c b'?' || eqb c b'!') ≡ false)

abbrev pub AreNames : Entry → Type 0
AreNames (host names) = All IsName names
AreNames (host_name value) = Unit
AreNames other = Unit

-- A line without `=`, patterns and Match.
abbrev pub IsPlainLine : Text → Type 0
IsPlainLine line =
    All (λ c. eqb c b'=' ≡ false) line
    × (is_match (fields line) ≡ false)
    × AreNames (entry_of (fields line))

-- No HostName stands before the first Host line.
abbrev pub Before : Entry → Type 0 → Type 0
Before (host names) later = Unit
Before (host_name value) later = ⊥
Before other later = later

abbrev pub StartsWithHost : List Text → Type 0
StartsWithHost [] = Unit
StartsWithHost (l ∷ ls) = Before (entry_of (fields l)) (StartsWithHost ls)

spaced-plain : (line : Text) → All (λ c. eqb c b'=' ≡ false) line → map spaced line ≡ line
unfolding spaced
spaced-plain [] h = refl
spaced-plain (c ∷ s) (no_sign, h) = rw no_sign (ap (λ t. c ∷ t) (spaced-plain s h))

glob-name : (name alias : Text) → IsName name → glob name alias ≡ same name alias
unfolding glob same
glob-name [] [] h = refl
glob-name [] (d ∷ s) h = refl
glob-name (c ∷ p) [] (plain, h) = ground arith
glob-name (c ∷ p) (d ∷ s) (plain, h) = ground (arith, glob-name p s h)

names_it-name : (alias name : Text) → IsName name → names_it alias name ≡ same name alias
unfolding names_it
names_it-name alias [] h = glob-name [] alias h
names_it-name alias (c ∷ p) (plain, h) =
    let usual : eqb c b'!' ≡ false = ground arith in rw usual (glob-name (c ∷ p) alias (plain, h))

rules_out-name : (alias name : Text) → IsName name → rules_out alias name ≡ false
unfolding rules_out
rules_out-name alias [] h = refl
rules_out-name alias (c ∷ p) (plain, h) = ground arith

any-names :
    (alias : Text) (names : List Text)
    → All IsName names
    → any (names_it alias) names ≡ named alias names
unfolding any named
any-names alias [] h = refl
any-names alias (n ∷ ns) (plain, h) =
    rw (names_it-name alias n plain, any-names alias ns h) (or_if (same n alias) (named alias ns))
  where
    or_if : (b c : Bool) → (b || c) ≡ (if b then true else c)
    or_if true c = refl
    or_if false c = refl

none_out :
    (alias : Text) (names : List Text) → All IsName names → any (rules_out alias) names ≡ false
unfolding any
none_out alias [] h = refl
none_out alias (n ∷ ns) (plain, h) = rw (rules_out-name alias n plain, none_out alias ns h) refl

selected-names :
    (alias : Text) (names : List Text) → All IsName names → selected alias names ≡ named alias names
unfolding selected
selected-names alias names h = rw (any-names alias names h, none_out alias names h) (ground arith)

after_entry-plain :
    (alias : Text) (e : Entry) (applies : Bool)
    → AreNames e
    → after_entry alias e applies ≡ applies_after alias e applies
unfolding after_entry applies_after
after_entry-plain alias (host names) applies h = selected-names alias names h
after_entry-plain alias (host_name value) applies h = refl
after_entry-plain alias other applies h = refl

ssh_resolved-plain :
    (criteria : List Text → Bool) (alias : Text) (applies : Bool) (lines : List Text)
    → All IsPlainLine lines
    → ssh_resolved criteria alias applies lines ≡ resolved alias applies lines
unfolding ssh_resolved resolved ssh_fields
ssh_resolved-plain criteria alias applies [] h = refl
ssh_resolved-plain criteria alias applies (l ∷ ls) ((no_sign, usual, names), h) =
    rw (spaced-plain l no_sign, usual, after_entry-plain alias (entry_of (fields l)) applies names)
      (ap (or_later (entry_of (fields l)) applies) (
        ssh_resolved-plain criteria alias (applies_after alias (entry_of (fields l)) applies) ls h))

resolved-start :
    (alias : Text) (lines : List Text)
    → StartsWithHost lines
    → resolved alias true lines ≡ resolved alias false lines
unfolding resolved applies_after or_later
resolved-start alias [] h = refl
resolved-start alias (l ∷ ls) h = by_entry (entry_of (fields l)) (resolved-start alias ls) h
  where
    by_entry :
        (e : Entry)
        → (StartsWithHost ls → resolved alias true ls ≡ resolved alias false ls)
        → Before e (StartsWithHost ls)
        → or_later e true (resolved alias (applies_after alias e true) ls)
          ≡ or_later e false (resolved alias (applies_after alias e false) ls)
    by_entry (host names) ih k = refl
    by_entry (host_name value) ih k = absurd k
    by_entry other ih k = ih k

-- A file without `=`, patterns and Match lines, and without a HostName before its first Host line.
abbrev pub IsPlain : Text → Type 0
IsPlain config = All IsPlainLine (split_lines config) × StartsWithHost (split_lines config)

-- Of a plain file ssh reads the HostName in the blocks that Host lines naming the host begin.
pub ssh_host_name-plain :
    (criteria : List Text → Bool) (config alias : Text)
    → IsPlain config
    → ssh_host_name criteria config alias ≡ host_name_of config alias
ssh_host_name-plain criteria config alias (plain, starts) =
    ssh_resolved-plain criteria alias true (split_lines config) plain
    ∙ resolved-start alias (split_lines config) starts
