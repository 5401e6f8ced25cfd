-- ===== src/ControlPlane/Fleet/Addresses.antt =====
-- The addresses of the table of nodes under the calls of internal/grpc/server.go.
use ghost_node.Prelude.{ℕ, String, ◌≡◌, ◌≢◌, Option, none, [], ◌∷◌, Result, All}
use ghost_node.ControlPlane.Fleet.{
  RegisterRequest, Load, Row, Table, Faults, mark_stale_offline, register_node, heartbeat,
  delete_node,
}

module _ (Float : Type 0) where
  -- No two rows agree in the column.
  abbrev pub Distinct : (Row Float → String) → Table Float → Type 0
  Distinct column [] = Unit
  Distinct column (r ∷ rs) = All (λ x. column x ≢ column r) rs × Distinct column rs

  abbrev pub IsTable : Table Float → Type 0
  IsTable rows = Distinct (λ r. r.id) rows × Distinct (λ r. r.address) rows

  -- The tables that the calls lead to, while the search for an address meets no error and each new
  -- row has a new identifier.
  pub data Reachable : Table Float → Type 0 where
    empty : Reachable []
    registers :
        (rows : Table Float) (faults : Faults Float) (now : ℕ) (id : String) (load : Load Float)
        (req : RegisterRequest)
        → Reachable rows
        → faults.finding ≡ none
        → All (λ r. r.id ≢ id) rows
        → Reachable (register_node Float faults now id load req rows).0
    beats :
        (rows : Table Float) (fault : Option String) (id : Result String String) (now : ℕ)
        (version : String) (load : Load Float)
        → Reachable rows
        → Reachable (heartbeat Float fault id now version load rows).0
    sweeps :
        (rows : Table Float) (fault : Option String) (now threshold : ℕ)
        → Reachable rows
        → Reachable (mark_stale_offline Float fault now threshold rows).0
    deletes :
        (rows : Table Float) (id : String) → Reachable rows → Reachable (delete_node Float id rows)
