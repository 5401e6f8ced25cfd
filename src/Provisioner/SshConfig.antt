-- ===== src/Provisioner/SshConfig.antt =====
-- internal/provisioner/actions.go, setSSHHostName: the HostName of a host of an ssh config.
pub mod Entries
pub mod Resolving
pub mod Ssh
use ghost_node.Prelude.{
  ℕ, zero, suc, ◌+◌, Bool, true, false, ◌||◌, Option, none, some, List, [], ◌∷◌, ◌++◌, eqb,
  if◌then◌else◌,
}
use ghost_node.Texts.{Text, codes, same, equal_fold, trim_space, fields, split_lines, join_lines}

-- The variables of the loop of setSSHHostName, `none` for the -1 of hostLine.
pub record Scan : Type 0 where
  pub in_block : Bool
  pub found : Bool
  pub host_line : Option ℕ

abbrev pub fresh_scan : Scan
fresh_scan = record { in_block = false; found = false; host_line = none }

-- The loop over fields[1:].
unfoldable pub named : Text → List Text → Bool
named alias [] = false
named alias (name ∷ names) = let rest = named alias names in if same name alias then true else rest

-- What a Host line with these names does to the variables.
unfoldable pub at_host : Text → ℕ → List Text → Scan → Scan
at_host alias i names s =
    if named alias names
    then record s { in_block = true; host_line = some i }
    else record s { in_block = false }

-- line[:len(line)-len(strings.TrimLeft(line, " \t"))]
unfoldable pub indent : Text → Text
indent [] = []
indent (c ∷ s) = let rest = indent s in if eqb c 32 || eqb c 9 then c ∷ rest else []

unfoldable pub renamed : Text → Text → Text → Text
renamed ip line word = indent line ++ word ++ 32 ∷ ip

-- A line of at least two fields that is no Host line, in the block of the host.
unfoldable pub at_option : Text → Text → Text → Scan → Text × Scan
at_option ip line word s =
    if equal_fold word (codes "HostName")
    then (renamed ip line word, record s { found = true; in_block = false })
    else (line, s)

-- A line whose first field is not Host.
unfoldable pub at_other : Text → Text → Text → List Text → Scan → Text × Scan
at_other ip line word [] s = (line, s)
at_other ip line word (value ∷ values) s =
    if s.in_block then at_option ip line word s else (line, s)

unfoldable pub at_fields : Text → Text → ℕ → Text → Scan → List Text → Text × Scan
at_fields alias ip i line s [] = (line, s)
at_fields alias ip i line s (word ∷ rest) =
    if equal_fold word (codes "Host")
    then (line, at_host alias i rest s)
    else at_other ip line word rest s

-- One round of the loop, on line `i`.
unfoldable pub visit : Text → Text → ℕ → Text → Scan → Text × Scan
visit alias ip i line s = at_fields alias ip i line s (fields (trim_space line))

-- The loop from line `i` on.
unfoldable pub visit_all : Text → Text → ℕ → List Text → Scan → List Text × Scan
visit_all alias ip i [] s = ([], s)
visit_all alias ip i (line ∷ lines) s =
    let (line', s') = visit alias ip i line s in
    let (lines', s'') = visit_all alias ip (i + 1) lines s' in (line' ∷ lines', s'')

-- The lines with `line` directly beneath line `i`.
unfoldable pub beneath : ℕ → Text → List Text → List Text
beneath i line [] = line ∷ []
beneath zero line (l ∷ ls) = l ∷ line ∷ ls
beneath (suc i) line (l ∷ ls) = l ∷ beneath i line ls

unfoldable pub added : Text → List Text → Option ℕ → Option (List Text)
added ip lines none = none
added ip lines (some i) = some (beneath i (codes "    HostName " ++ ip) lines)

unfoldable pub settle : Text → List Text × Scan → Option (List Text)
settle ip (lines, s) = if s.found then some lines else added ip lines s.host_line

unfoldable pub joined : Option (List Text) → Option Text
joined none = none
joined (some lines) = some (join_lines lines)

-- setSSHHostName, `none` where no block names the host.
unfoldable pub set_ssh_host_name : Text → Text → Text → Option Text
set_ssh_host_name config alias ip =
    joined (settle ip (visit_all alias ip 0 (split_lines config) fresh_scan))
