-- ===== src/ControlPlane/Nodes/Addresses.antt =====
-- What UpdateAddress of internal/service/node_service.go leaves.
use ghost_node.Prelude.{
  String, ◌≡◌, refl, sym, subst, ◌≢◌, ◌⊎◌, inl, inr, Option, none, some, arith, ◌==◌, eq_iff,
  Bool-cases, Result, ok, err,
}
use ghost_node.ControlPlane.Auth.{FindError}
use ghost_node.ControlPlane.Nodes.{
  Floats, Node, NodeRepository, readdressed, updated, update_address,
}

module _ (floats : Floats) (repo : NodeRepository floats) where
  open repo use {State}

  -- The node as it was found, with nothing changed, where it has the address already; otherwise with
  -- the address, as the repository stored it.
  abbrev pub IsReaddressed : State → (id address : String) → State → Node floats → Type 0
  IsReaddressed st id address st' n =
      (old : Node floats) × (repo.find_node st id ≡ ok old)
      × (((old.address ≡ address) × (n ≡ old) × (st' ≡ st))
          ⊎ ((old.address ≢ address)
              × (n ≡ record old { address = address })
              × (repo.update_node st n ≡ (st', none))))

  updated-ok :
      (n m : Node floats) (x : State × Option String) (st' : State)
      → updated floats repo n x ≡ (st', ok m)
      → (m ≡ n) × (x ≡ (st', none))
  unfolding updated
  updated-ok n m (s, none) st' h = (ground arith, ground arith)
  updated-ok n m (s, some e) st' h = absurd (ground arith)

  -- UpdateAddress succeeds only with an address that is not empty, for a node that is found, and
  -- returns that node with the address; it stores it exactly where the address is another one.
  pub update_address_sound :
      (st st' : State) (id address : String) (n : Node floats)
      → update_address floats repo st id address ≡ (st', ok n)
      → (address ≢ "") × IsReaddressed st id address st' n
  unfolding update_address readdressed
  update_address_sound st st' id address n given = elim (Bool-cases (address == "")) [
    | inl empty ↦ absurd (let g = rw empty at given in ground arith)
    | inr text ↦
        (ground (arith, eq_iff address ""), from (repo.find_node st id) refl (rw text at given))
  ]
    where
      from :
          (x : Result FindError (Node floats))
          → repo.find_node st id ≡ x
          → readdressed floats repo st address x ≡ (st', ok n)
          → IsReaddressed st id address st' n
      from (err e) found h = absurd (ground arith)
      from (ok old) found h = elim (Bool-cases (old.address == address)) [
        | inl same ↦
            let g = rw same at h in
            (
              old,
              found,
              inl (ground (arith, eq_iff old.address address), ground arith, ground arith),
            )
        | inr other ↦
            let (new, stored) =
              updated-ok (record old { address = address }) n
                (repo.update_node st (record old { address = address })) st' (rw other at h) in
            (
              old,
              found,
              inr (
                ground (arith, eq_iff old.address address),
                new,
                subst (λ m. repo.update_node st m ≡ (st', none)) (sym new) stored,
              ),
            )
      ]
