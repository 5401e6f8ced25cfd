-- ===== src/Provisioner/SshConfig/Resolving.antt =====
-- What setSSHHostName of internal/provisioner/actions.go does to the HostName of a host.
use ghost_node.Prelude.{
  ℕ, zero, suc, ◌+◌, ◌≡◌, refl, sym, ◌∙◌, subst, ◌≢◌, ◌⊎◌, inl, inr, true, false, Option, some,
  List, [], ◌∷◌, ◌++◌, arith, Bool-cases, Option-cases, All,
}
use ghost_node.Texts.{Text, codes, equal_fold, fields, split_lines, join_lines}
use ghost_node.Texts.Words.{IsWord, fields-trim_space, All-fields}
use ghost_node.Texts.Lines.{IsLine, All-split_lines, split_lines_full, split_lines-join_lines}
use ghost_node.Provisioner.SshConfig.{
  Scan, fresh_scan, named, at_host, at_option, at_other, at_fields, visit, visit_all, renamed,
  beneath, added, settle, joined, set_ssh_host_name,
}
use ghost_node.Provisioner.SshConfig.Entries.{
  host, host_name, entry_of, applies_after, or_later, resolved, host_name_of, fields-renamed,
  entry_of-added, renamed-IsLine, ip-IsLine,
}

module _ (alias ip : Text) (h : IsWord ip) where
  -- What one round of the loop may do with a line.
  data Visited (i : ℕ) (line : Text) (s : Scan) : Text × Scan → Type 0 where
    host_line_ :
        (names : List Text)
        → entry_of (fields line) ≡ host names
        → Visited i line s (line, at_host alias i names s)
    rewritten :
        (line' : Text)
        → s.in_block ≡ true
        → entry_of (fields line') ≡ host_name ip
        → IsLine line'
        → Visited i line s (line', record s { found = true; in_block = false })
    passed :
        ((later : Option Text) → or_later (entry_of (fields line)) s.in_block later ≡ later)
        → applies_after alias (entry_of (fields line)) s.in_block ≡ s.in_block
        → Visited i line s (line, s)

  at_fields-Visited :
      (i : ℕ) (line : Text) (s : Scan) (ws : List Text)
      → fields line ≡ ws
      → All IsWord ws
      → Visited i line s (at_fields alias ip i line s ws)
  unfolding at_fields at_other at_option entry_of applies_after or_later
  at_fields-Visited i line s [] e hs = passed (λ later. rw e refl) (rw e refl)
  at_fields-Visited i line s (word ∷ []) e hs = elim (Bool-cases (equal_fold word (codes "Host"))) [
    | inl y ↦ rw y (host_line_ [] (rw (e, y) refl))
    | inr n ↦ rw n (passed (λ later. rw (e, n) refl) (rw (e, n) refl))
  ]
  at_fields-Visited i line s (word ∷ v ∷ vs) e (hw, hs) =
      elim (Bool-cases (equal_fold word (codes "Host"))) [
        | inl y ↦ rw y (host_line_ (v ∷ vs) (rw (e, y) refl))
        | inr n ↦ elim (Bool-cases s.in_block) [
          | inl b ↦ elim (Bool-cases (equal_fold word (codes "HostName"))) [
            | inl m ↦
                rw (n, b, m)
                  (rewritten (renamed ip line word) refl
                    (rw (fields-renamed ip h line word hw, n, m) refl)
                    (renamed-IsLine ip h line word hw))
            | inr k ↦ rw (n, b, k) (passed (λ later. rw (e, n, k) refl) (rw (e, n, k) refl))
          ]
          | inr b ↦ elim (Bool-cases (equal_fold word (codes "HostName"))) [
            | inl m ↦ rw (n, b) (passed (λ later. rw (e, n, m) refl) (rw (e, n, m) refl))
            | inr k ↦ rw (n, b) (passed (λ later. rw (e, n, k) refl) (rw (e, n, k) refl))
          ]
        ]
      ]

  visit-Visited : (i : ℕ) (line : Text) (s : Scan) → Visited i line s (visit alias ip i line s)
  unfolding visit
  visit-Visited i line s =
      rw (fields-trim_space line) (at_fields-Visited i line s (fields line) refl (All-fields line))

  at_host-in_block :
      (i : ℕ) (names : List Text) (s : Scan)
      → (at_host alias i names s).in_block ≡ named alias names
  unfolding at_host
  at_host-in_block i names s = ground arith

  at_host-found : (i : ℕ) (names : List Text) (s : Scan) → (at_host alias i names s).found ≡ s.found
  unfolding at_host
  at_host-found i names s = ground arith

  -- A line in a block that names the host sets hostLine.
  at_host-host_line :
      (i j : ℕ) (names : List Text) (s : Scan)
      → (at_host alias i names s).host_line ≡ some j
      → ((named alias names ≡ true) × (j ≡ i)) ⊎ (s.host_line ≡ some j)
  unfolding at_host
  at_host-host_line i j names s e = ground arith

  -- What the loop leaves from the variables it starts with, where it finds a HostName.
  abbrev Finds : (Scan → List Text × Scan) → Scan → Type 0
  Finds later s =
      s.found ≡ false → (later s).1.found ≡ true → resolved alias s.in_block (later s).0 ≡ some ip

  Visited-Finds :
      (i : ℕ) (line : Text) (s : Scan) (later : Scan → List Text × Scan) (r : Text × Scan)
      → Visited i line s r
      → ((s' : Scan) → Finds later s')
      → s.found ≡ false
      → (later r.1).1.found ≡ true
      → resolved alias s.in_block (r.0 ∷ (later r.1).0) ≡ some ip
  unfolding resolved applies_after or_later
  Visited-Finds i line s later _ (host_line_ names e) rest fresh found =
      rw (e, sym (at_host-in_block i names s))
        (rest (at_host alias i names s) (at_host-found i names s ∙ fresh) found)
  Visited-Finds i line s later _ (rewritten line' b e l) rest fresh found = rw (e, b) refl
  Visited-Finds i line s later _ (passed o a) rest fresh found = rw (o, a) (rest s fresh found)

  visit_all-Finds : (i : ℕ) (lines : List Text) (s : Scan) → Finds (visit_all alias ip i lines) s
  unfolding visit_all
  visit_all-Finds i [] s fresh found = ground arith
  visit_all-Finds i (line ∷ lines) s fresh found =
      Visited-Finds i line s (visit_all alias ip (i + 1) lines) _ (visit-Visited i line s)
        (λ s'. visit_all-Finds (i + 1) lines s') fresh found

  Visited-stays :
      (i : ℕ) (line : Text) (s : Scan) (r : Text × Scan)
      → Visited i line s r
      → s.found ≡ true
      → r.1.found ≡ true
  Visited-stays i line s _ (host_line_ names e) h = at_host-found i names s ∙ h
  Visited-stays i line s _ (rewritten line' b e l) h = refl
  Visited-stays i line s _ (passed o a) h = h

  visit_all-stays :
      (i : ℕ) (lines : List Text) (s : Scan)
      → s.found ≡ true
      → (visit_all alias ip i lines s).1.found ≡ true
  unfolding visit_all
  visit_all-stays i [] s h = h
  visit_all-stays i (line ∷ lines) s h =
      visit_all-stays (i + 1) lines _ (Visited-stays i line s _ (visit-Visited i line s) h)

  abbrev new_line : Text
  new_line = codes "    HostName " ++ ip

  -- What the loop leaves from line `i` on, where it finds no HostName and hostLine is `j` at the
  -- end: the line that is added beneath it is the HostName of the host.
  abbrev Adds : ℕ → (Scan → List Text × Scan) → Scan → Type 0
  Adds i later s =
      (j : ℕ)
      → (later s).1.found ≡ false
      → (later s).1.host_line ≡ some j
      → (s.host_line ≡ some j)
        ⊎ ((k : ℕ) × ((j ≡ i + k)
              × (resolved alias s.in_block (beneath k new_line (later s).0) ≡ some ip)))

  Visited-Adds :
      (i : ℕ) (line : Text) (s : Scan) (later : Scan → List Text × Scan) (r : Text × Scan)
      → Visited i line s r
      → ((s' : Scan) → Adds (i + 1) later s')
      → ((s' : Scan) → s'.found ≡ true → (later s').1.found ≡ true)
      → Adds i (λ _. (r.0 ∷ (later r.1).0, (later r.1).1)) s
  unfolding resolved applies_after or_later beneath
  Visited-Adds i line s later _ (host_line_ names e) rest stays j absent last =
      elim (rest (at_host alias i names s) j absent last) [
        | inl x ↦ elim (at_host-host_line i j names s x) [
          | inl (y, at_i) ↦ inr (0, (omega (arith, at_i), rw (e, entry_of-added ip h, y) refl))
          | inr old ↦ inl old
        ]
        | inr (k, (x, y)) ↦
            inr (suc k, (omega (arith, x), rw (e, sym (at_host-in_block i names s)) y))
      ]
  Visited-Adds i line s later _ (rewritten line' b e l) rest stays j absent last =
      absurd (let t = stays (record s { found = true; in_block = false }) refl in ground arith)
  Visited-Adds i line s later _ (passed o a) rest stays j absent last =
      elim (rest s j absent last) [
        | inl x ↦ inl x
        | inr (k, (x, y)) ↦ inr (suc k, (omega (arith, x), rw (o, a) y))
      ]

  visit_all-Adds : (i : ℕ) (lines : List Text) (s : Scan) → Adds i (visit_all alias ip i lines) s
  unfolding visit_all
  visit_all-Adds i [] s j absent last = inl last
  visit_all-Adds i (line ∷ lines) s j absent last =
      Visited-Adds i line s (visit_all alias ip (i + 1) lines) _ (visit-Visited i line s)
        (λ s'. visit_all-Adds (i + 1) lines s') (λ s'. visit_all-stays (i + 1) lines s') j absent
        last

  -- The two ways in which setSSHHostName succeeds.
  settle-cases :
      (lines out : List Text) (s : Scan)
      → settle ip (lines, s) ≡ some out
      → ((s.found ≡ true) × (out ≡ lines))
        ⊎ ((j : ℕ) × ((s.found ≡ false)
              × ((s.host_line ≡ some j) × (out ≡ beneath j new_line lines))))
  unfolding settle added
  settle-cases lines out s e = elim (Bool-cases s.found) [
    | inl f ↦ inl (f, ground arith)
    | inr f ↦ elim (Option-cases s.host_line) [
      | inl n ↦ absurd (ground arith)
      | inr (j, x) ↦ inr (j, (f, (x, ground arith)))
    ]
  ]

  abbrev scanned : List Text → List Text × Scan
  scanned lines = visit_all alias ip 0 lines fresh_scan

  settle-resolved :
      (lines out : List Text)
      → settle ip (scanned lines) ≡ some out
      → resolved alias false out ≡ some ip
  settle-resolved lines out e = elim (settle-cases (scanned lines).0 out (scanned lines).1 e) [
    | inl (f, same) ↦ rw same (visit_all-Finds 0 lines fresh_scan refl f)
    | inr (j, (f, (x, same))) ↦ elim (visit_all-Adds 0 lines fresh_scan j f x) [
      | inl never ↦ absurd (ground arith)
      | inr (k, (at_k, y)) ↦ rw same (
          subst (λ n. resolved alias false (beneath n new_line (scanned lines).0) ≡ some ip)
            (omega (arith, at_k)) y)
    ]
  ]

  -- A line is rewritten into a line.
  Visited-IsLine :
      (i : ℕ) (line : Text) (s : Scan) (r : Text × Scan)
      → Visited i line s r
      → IsLine line
      → IsLine r.0
  Visited-IsLine i line s _ (host_line_ names e) h = h
  Visited-IsLine i line s _ (rewritten line' b e l) h = l
  Visited-IsLine i line s _ (passed o a) h = h

  visit_all-IsLine :
      (i : ℕ) (lines : List Text) (s : Scan)
      → All IsLine lines
      → All IsLine (visit_all alias ip i lines s).0
  unfolding visit_all
  visit_all-IsLine i [] s h = tt
  visit_all-IsLine i (line ∷ lines) s (hl, hs) =
      (Visited-IsLine i line s _ (visit-Visited i line s) hl, visit_all-IsLine (i + 1) lines _ hs)

  new_line-IsLine : IsLine new_line
  new_line-IsLine = (
    refl,
    (
      refl,
      (
        refl,
        (
          refl,
          (refl, (refl, (refl, (refl, (refl, (refl, (refl, (refl, (refl, ip-IsLine ip h))))))))),
        ),
      ),
    ),
  )

  beneath-IsLine :
      (k : ℕ) (lines : List Text) → All IsLine lines → All IsLine (beneath k new_line lines)
  unfolding beneath
  beneath-IsLine k [] hs = (new_line-IsLine, tt)
  beneath-IsLine zero (l ∷ ls) (hl, hs) = (hl, (new_line-IsLine, hs))
  beneath-IsLine (suc k) (l ∷ ls) (hl, hs) = (hl, beneath-IsLine k ls hs)

  settle-IsLine :
      (lines out : List Text) (s : Scan)
      → All IsLine lines
      → settle ip (lines, s) ≡ some out
      → All IsLine out
  settle-IsLine lines out s hs e = elim (settle-cases lines out s e) [
    | inl (f, same) ↦ rw same hs
    | inr (j, (f, (x, same))) ↦ rw same (beneath-IsLine j lines hs)
  ]

  settle_full :
      (lines out : List Text) → lines ≢ [] → settle ip (scanned lines) ≡ some out → out ≢ []
  unfolding beneath visit_all
  settle_full [] out full e = absurd (full refl)
  settle_full (l ∷ ls) out full e = elim (settle-cases _ out _ e) [
    | inl (f, same) ↦ rw same (ground arith)
    | inr (zero, (f, (x, same))) ↦ rw same (ground arith)
    | inr (suc j, (f, (x, same))) ↦ rw same (ground arith)
  ]

  -- Where setSSHHostName succeeds with an address that is one word, the HostName of the host in the
  -- new text, the first in the blocks of the host, is the address.
  pub set_ssh_host_name-host_name_of :
      (config out : Text)
      → set_ssh_host_name config alias ip ≡ some out
      → host_name_of out alias ≡ some ip
  unfolding set_ssh_host_name joined
  set_ssh_host_name-host_name_of config out e =
      elim (Option-cases (settle ip (scanned (split_lines config)))) [
        | inl n ↦ absurd (ground arith)
        | inr (lines, y) ↦
            let shown : join_lines lines ≡ out = ground arith in
            let split =
              split_lines-join_lines lines
                (settle_full (split_lines config) lines (split_lines_full config) y)
                (settle-IsLine _ lines _ (visit_all-IsLine 0 _ fresh_scan (All-split_lines config))
                  y) in
            subst (λ t. host_name_of t alias ≡ some ip) shown
              (rw split (settle-resolved (split_lines config) lines y))
      ]
