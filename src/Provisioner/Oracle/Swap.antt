-- ===== src/Provisioner/Oracle/Swap.antt =====
-- What RotateIP of internal/provisioner/oracle.go has done when it returns a new address.
use ghost_node.Prelude.{
  ℕ, String, ◌≡◌, refl, ap, ◌≢◌, inl, inr, ◌&&◌, not, Option, none, some, arith, ◌==◌, eq_iff,
  Bool-cases, Result, ok, err,
}
use ghost_node.Provisioner.Ociclient.{
  Cloud, PrivateIp, PublicIp, ClientError, api_not_found, api_conflict, other_error,
}
use ghost_node.Provisioner.Oracle.{
  Timeouts, Binding, OracleError, done, assigned, allocated, wait_assigned, allocate, assign,
  draw_fresh, after_release, after_delete, swap, rotate_bound, rotate_ip, describe,
}
use ghost_node.Provisioner.Oracle.Primary.{IsPrimary, describe_sound}
use ghost_node.Provisioner.Oracle.Polling.{poll_sound}

-- The old address that is reported: none was attached, or it was the attached one, not reserved.
pub IsReleased : Option PublicIp → String → Type 0
IsReleased none old = old ≡ ""
IsReleased (some ip) old = (old ≡ ip.ip_address) × (ip.lifetime ≢ "RESERVED")

module _ (cloud : Cloud) where
  open cloud use {State}

  -- Some GetPublicIP of `id` found the address assigned.
  abbrev pub IsAssigned : (id new : String) → Type 0
  IsAssigned id new =
      (s : State) × (ip : PublicIp) × ((cloud.get_public_ip id s).1 ≡ ok ip)
      × (ip.lifecycle_state ≡ "ASSIGNED")
      × (ip.ip_address ≡ new)
      × (new ≢ "")

  -- Some allocation on the private address succeeded, and its address was seen assigned.
  abbrev pub IsDrawn : PrivateIp → String → Type 0
  IsDrawn private_ip new =
      (s : State) × (compartment : String) × (name : String) × (fresh : PublicIp)
      × ((cloud.create_ephemeral_public_ip compartment private_ip.id name s).1 ≡ ok fresh)
      × IsAssigned fresh.id new

  assigned-ok :
      (x : State × Result ClientError PublicIp) (new : String)
      → (assigned cloud x).1 ≡ done (ok new)
      → (ip : PublicIp) × (x.1 ≡ ok ip)
        × (ip.lifecycle_state ≡ "ASSIGNED")
        × (ip.ip_address ≡ new)
        × (new ≢ "")
  unfolding assigned
  assigned-ok (s, err e) new h = absurd (ground arith)
  assigned-ok (s, ok ip) new h =
      elim (Bool-cases (ip.lifecycle_state == "ASSIGNED" && not (ip.ip_address == ""))) [
        | inl good ↦
            let g = rw good at h in
            (
              ip,
              refl,
              ground (arith, eq_iff ip.lifecycle_state "ASSIGNED"),
              ground arith,
              ground (arith, eq_iff ip.ip_address "", eq_iff new ""),
            )
        | inr bad ↦ absurd (let g = rw bad at h in ground arith)
      ]

  wait_assigned_sound :
      (limits : Timeouts) (fuel : ℕ) (id new : String) (st : State)
      → (wait_assigned cloud limits fuel id st).1 ≡ ok new
      → IsAssigned id new
  unfolding wait_assigned
  wait_assigned_sound limits fuel id new st h =
      let (s, found) = poll_sound cloud _ fuel _ st new h in
      let (ip, answer, state, address, real) = assigned-ok (cloud.get_public_ip id s) new found in
      (s, ip, answer, state, address, real)

  allocated-ok :
      (x : State × Result ClientError PublicIp) (ip : PublicIp)
      → (allocated cloud x).1 ≡ done (ok ip)
      → x.1 ≡ ok ip
  unfolding allocated
  allocated-ok (s, ok p) ip h = ground arith
  allocated-ok (s, err (api_not_found e)) ip h = absurd (ground arith)
  allocated-ok (s, err (api_conflict e)) ip h = absurd (ground arith)
  allocated-ok (s, err (other_error e)) ip h = absurd (ground arith)

  draw_fresh_sound :
      (limits : Timeouts) (fuel : ℕ) (b : Binding) (st : State) (new : String)
      → (draw_fresh cloud limits fuel b st).1 ≡ ok new
      → IsDrawn b.private_ip new
  unfolding draw_fresh allocate assign
  draw_fresh_sound limits fuel b st new h = assigned_fresh (allocate cloud limits fuel b st) refl h
    where
      assigned_fresh :
          (x : State × Result OracleError PublicIp)
          → allocate cloud limits fuel b st ≡ x
          → (assign cloud limits fuel x).1 ≡ ok new
          → IsDrawn b.private_ip new
      assigned_fresh (s, err e) from g = absurd (ground arith)
      assigned_fresh (s, ok fresh) from g =
          let (t, made) = poll_sound cloud _ fuel _ st fresh (ap (λ x. x.1) from) in
          (
            t,
            _,
            _,
            fresh,
            allocated-ok _ fresh made,
            wait_assigned_sound limits fuel fresh.id new s g,
          )

  after_release_sound :
      (limits : Timeouts) (fuel : ℕ) (b : Binding) (new : String)
      (x : State × Result OracleError (Unit {0}))
      → (after_release cloud limits fuel b x).1 ≡ ok new
      → IsDrawn b.private_ip new
  unfolding after_release
  after_release_sound limits fuel b new (s, err e) h = absurd (ground arith)
  after_release_sound limits fuel b new (s, ok u) h = draw_fresh_sound limits fuel b s new h

  after_delete_sound :
      (limits : Timeouts) (fuel : ℕ) (b : Binding) (new : String) (x : State × Option ClientError)
      → (after_delete cloud limits fuel b x).1 ≡ ok new
      → IsDrawn b.private_ip new
  unfolding after_delete
  after_delete_sound limits fuel b new (s, none) h = after_release_sound limits fuel b new _ h
  after_delete_sound limits fuel b new (s, some (api_not_found e)) h =
      after_release_sound limits fuel b new _ h
  after_delete_sound limits fuel b new (s, some (api_conflict e)) h = absurd (ground arith)
  after_delete_sound limits fuel b new (s, some (other_error e)) h = absurd (ground arith)

  swap_sound :
      (limits : Timeouts) (fuel : ℕ) (b : Binding) (st : State) (ip : Option PublicIp)
      (new : String)
      → (swap cloud limits fuel b st ip).2 ≡ ok new
      → IsReleased ip (swap cloud limits fuel b st ip).1 × IsDrawn b.private_ip new
  unfolding swap IsReleased
  swap_sound limits fuel b st none new h = (refl, draw_fresh_sound limits fuel b st new h)
  swap_sound limits fuel b st (some ip) new h = elim (Bool-cases (ip.lifetime == "RESERVED")) [
    | inl kept ↦ absurd (let g = rw kept at h in ground arith)
    | inr free ↦ rw free (
      (refl, ground (arith, eq_iff ip.lifetime "RESERVED")),
      after_delete_sound limits fuel b new (cloud.delete_public_ip ip.id st) (rw free at h),
    )
  ]

  -- When RotateIP returns a new address, the instance was fetched; the old address that it reports is
  -- the one that describe found attached, which was not reserved, or empty where there was none; an
  -- address was allocated on the primary private address of the primary interface attached to the
  -- instance; and the new one was seen there assigned, not empty.
  pub rotate_ip_sound :
      (limits : Timeouts) (fuel : ℕ) (id new : String) (st : State)
      → (rotate_ip cloud limits fuel id st).2 ≡ ok new
      → (b : Binding) × ((describe cloud id st).1 ≡ ok b)
        × ((cloud.get_instance id st).1 ≡ ok b.instance_)
        × IsPrimary cloud b.instance_ b.private_ip
        × IsReleased b.public_ip (rotate_ip cloud limits fuel id st).1
        × IsDrawn b.private_ip new
  unfolding rotate_ip rotate_bound
  rotate_ip_sound limits fuel id new st h = from (describe cloud id st) refl h
    where
      from :
          (x : State × Result OracleError Binding)
          → describe cloud id st ≡ x
          → (rotate_bound cloud limits fuel x).2 ≡ ok new
          → (b : Binding) × (x.1 ≡ ok b)
            × ((cloud.get_instance id st).1 ≡ ok b.instance_)
            × IsPrimary cloud b.instance_ b.private_ip
            × IsReleased b.public_ip (rotate_bound cloud limits fuel x).1
            × IsDrawn b.private_ip new
      from (s, err e) is g = absurd (ground arith)
      from (s, ok b) is g =
          let (freed, got) = swap_sound limits fuel b s b.public_ip new g in
          let (fetched, main) = describe_sound cloud id st b (ap (λ x. x.1) is) in
          (b, refl, fetched, main, freed, got)
