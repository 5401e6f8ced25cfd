-- ===== src/ControlPlane/Fleet/Staleness.antt =====
-- Which nodes the sweep of internal/repository/node_repo.go marks offline.
use ghost_node.Prelude.{
  ℕ, ◌-◌, ◌<◌, String, ◌≡◌, refl, inl, inr, true, Option, none, some, List, [], ◌∷◌, arith,
  Bool-cases,
}
use ghost_node.ControlPlane.Nodes.{NodeStatus, online, offline, draining}
use ghost_node.ControlPlane.Fleet.{
  Row, Table, is_before, is_online, has_version, is_stale, aged, mark_stale_offline,
}

-- Two lists of the same length, related place by place.
abbrev pub Pairwise {ℓ} : {A : Type ℓ} → (A → A → Type 0) → List A → List A → Type 0
Pairwise R [] [] = Unit
Pairwise R [] (y ∷ ys) = ⊥
Pairwise R (x ∷ xs) [] = ⊥
Pairwise R (x ∷ xs) (y ∷ ys) = R x y × Pairwise R xs ys

module _ (Float : Type 0) where
  -- An online node whose agent has reported a version, and last reported before the cutoff.
  abbrev pub IsSilent : ℕ → Row Float → Type 0
  IsSilent cutoff r =
      (r.status ≡ online)
      × ((at : ℕ) × (r.last_heartbeat ≡ some at) × (at < cutoff))
      × ((version : String) × (r.agent_version ≡ some version))

  -- What a sweep makes of a row: a silent node goes offline, any other row stays as it is.
  abbrev pub Swept : (now cutoff : ℕ) → Row Float → Row Float → Type 0
  Swept now cutoff r r' =
      (IsSilent cutoff r → r' ≡ record r { status = offline; updated_at = now })
      × (¬ IsSilent cutoff r → r' ≡ r)

  online-true : (s : NodeStatus) → is_online s ≡ true → s ≡ online
  unfolding is_online
  online-true online h = refl
  online-true offline h = absurd (ground arith)
  online-true draining h = absurd (ground arith)

  before-true :
      (cutoff : ℕ) (heartbeat : Option ℕ)
      → is_before Float cutoff heartbeat ≡ true
      → (at : ℕ) × (heartbeat ≡ some at) × (at < cutoff)
  unfolding is_before
  before-true cutoff none h = absurd (ground arith)
  before-true cutoff (some at) h = (at, refl, ground arith)

  version-true :
      (version : Option String)
      → has_version Float version ≡ true
      → (v : String) × (version ≡ some v)
  unfolding has_version
  version-true none h = absurd (ground arith)
  version-true (some v) h = (v, refl)

  stale-IsSilent : (cutoff : ℕ) (r : Row Float) → is_stale Float cutoff r ≡ true → IsSilent cutoff r
  unfolding is_stale
  stale-IsSilent cutoff r h = (
    online-true r.status (ground arith),
    before-true cutoff r.last_heartbeat (ground arith),
    version-true r.agent_version (ground arith),
  )

  IsSilent-stale : (cutoff : ℕ) (r : Row Float) → IsSilent cutoff r → is_stale Float cutoff r ≡ true
  unfolding is_stale is_online is_before has_version
  IsSilent-stale cutoff r (status, (at, last, earlier), (version, reported)) =
      rw (status, last, reported) (ground arith)

  aged-Swept : (now cutoff : ℕ) (r : Row Float) → Swept now cutoff r (aged Float now cutoff r)
  unfolding aged
  aged-Swept now cutoff r = elim (Bool-cases (is_stale Float cutoff r)) [
    | inl y ↦ rw y ((λ silent. refl), (λ heard. absurd (heard (stale-IsSilent cutoff r y))))
    | inr n ↦ rw n (
      (λ silent. absurd (let s = IsSilent-stale cutoff r silent in ground arith)),
      (λ heard. refl),
    )
  ]

  -- A sweep that meets no error marks a node offline, and notes the time of the change, if it is
  -- online, its agent has reported a version, and its last heartbeat is older than the threshold; it
  -- leaves every other row as it is, and adds and drops none.
  pub mark_stale_offline-Swept :
      (now threshold : ℕ) (rows : Table Float)
      → Pairwise
          (Swept now (now - threshold))
          rows
          (mark_stale_offline Float none now threshold rows).0
  unfolding mark_stale_offline
  mark_stale_offline-Swept now threshold [] = tt
  mark_stale_offline-Swept now threshold (r ∷ rs) =
      (aged-Swept now (now - threshold) r, mark_stale_offline-Swept now threshold rs)
