-- ===== src/Provisioner/Oracle.antt =====
-- internal/provisioner/oracle.go: swapping the ephemeral public address of an instance, by the calls
-- of ociclient, which act on a state that is a parameter. Each loop that polls gets a number of
-- rounds, `fuel`, and ends in `out_of_fuel` when they are used up.
pub mod Polling
pub mod Primary
pub mod Swap
mod Describing
pub mod Ending
mod Tests
use Prim.Native.String
use ghost_node.Prelude.{
  ℕ, zero, suc, ◌+◌, String, ◌&&◌, not, Option, none, some, List, [], ◌∷◌, ◌++◌, ◌==◌, ltb,
  if◌then◌else◌, Result, ok, err,
}
use ghost_node.Provisioner.Ociclient.{
  Cloud, Instance, VnicAttachment, Vnic, PrivateIp, PublicIp, ClientError, api_not_found,
  api_conflict, other_error,
}

pub data OracleError : Type 0 where
  fetching_instance listing_attachments fetching_vnic listing_private_ips fetching_public_ip :
      ClientError → OracleError
  releasing allocating : ClientError → OracleError
  no_primary_vnic no_primary_private_ip reserved_ip no_public_ip : OracleError
  release_timeout assign_timeout terminated : OracleError
  cancelled : String → OracleError
  out_of_fuel : OracleError

-- The fields of Oracle.
pub record Timeouts : Type 0 where
  pub release_timeout : ℕ
  pub assign_timeout : ℕ

pub record Binding : Type 0 where
  pub instance_ : Instance
  pub private_ip : PrivateIp
  pub public_ip : Option PublicIp

-- What a round of a polling loop finds: the loop's result, or the error that it returns if the
-- deadline has passed.
pub data Step (A : Type 0) : Type 0 where
  done : Result OracleError A → Step A
  retry : OracleError → Step A

-- The first primary address of the list.
pub first_primary : List PrivateIp → Option PrivateIp
first_primary [] = none
first_primary (ip ∷ rest) =
    let later = first_primary rest in if ip.is_primary then some ip else later

module _ (cloud : Cloud) where
  open cloud use {State, now, pause}

  resume :
      {A : Type 0}
      → (State → State × Result OracleError A)
      → State × Option String
      → State × Result OracleError A
  resume again (st, some e) = (st, err (cancelled e))
  resume again (st, none) = again st

  -- One round after its call, `again` being the rounds that follow.
  decide :
      {A : Type 0}
      → (State → State × Result OracleError A)
      → (deadline : ℕ) → State × Step A
      → State × Result OracleError A
  decide again deadline (st, done r) = (st, r)
  decide again deadline (st, retry e) =
      if ltb deadline (now st) then (st, err e) else resume again (pause st)

  -- The shape of the three loops: a call, the deadline, the pause.
  pub poll :
      {A : Type 0}
      → (State → State × Step A)
      → (fuel deadline : ℕ) → State
      → State × Result OracleError A
  poll ask zero deadline st = (st, err out_of_fuel)
  poll ask (suc fuel) deadline st = decide (poll ask fuel deadline) deadline (ask st)

  released : State × Result ClientError PublicIp → State × Step (Unit {0})
  released (st, err (api_not_found e)) = (st, done (ok tt))
  released (st, err (api_conflict e)) = (st, retry release_timeout)
  released (st, err (other_error e)) = (st, retry release_timeout)
  released (st, ok ip) = (st, retry release_timeout)

  -- waitReleased
  pub wait_released : Timeouts → ℕ → String → State → State × Result OracleError (Unit {0})
  unfolding released
  wait_released limits fuel private_ip st =
      poll (λ s. released (cloud.public_ip_of_private_ip private_ip s)) fuel
        (now st + limits.release_timeout) st

  assigned : State × Result ClientError PublicIp → State × Step String
  assigned (st, err e) = (st, retry assign_timeout)
  assigned (st, ok ip) =
      if ip.lifecycle_state == "ASSIGNED" && not (ip.ip_address == "")
      then (st, done (ok ip.ip_address))
      else if ip.lifecycle_state == "TERMINATED"
      then (st, done (err terminated))
      else (st, retry assign_timeout)

  -- waitAssigned
  pub wait_assigned : Timeouts → ℕ → String → State → State × Result OracleError String
  wait_assigned limits fuel public_ip st =
      poll (λ s. assigned (cloud.get_public_ip public_ip s)) fuel (now st + limits.assign_timeout)
        st

  allocated : State × Result ClientError PublicIp → State × Step PublicIp
  allocated (st, ok ip) = (st, done (ok ip))
  allocated (st, err (api_conflict e)) = (st, retry (allocating (api_conflict e)))
  allocated (st, err (api_not_found e)) = (st, done (err (allocating (api_not_found e))))
  allocated (st, err (other_error e)) = (st, done (err (allocating (other_error e))))

  -- allocate
  pub allocate : Timeouts → ℕ → Binding → State → State × Result OracleError PublicIp
  allocate limits fuel b st =
      let own = b.private_ip.compartment_id in
      let compartment = if own == "" then b.instance_.compartment_id else own in
      poll
        (λ s. allocated (
          cloud.create_ephemeral_public_ip compartment b.private_ip.id
            (String.◌++◌ "ghost-" b.instance_.display_name) s))
        fuel (now st + limits.assign_timeout) st

  -- The rest of the loop over the attachments, after GetVnic.
  weigh_vnic :
      (State → State × Result OracleError Vnic)
      → State × Result ClientError Vnic
      → State × Result OracleError Vnic
  weigh_vnic rest (st, err e) = (st, err (fetching_vnic e))
  weigh_vnic rest (st, ok v) = let later = rest st in if v.is_primary then (st, ok v) else later

  primary_vnic : List VnicAttachment → State → State × Result OracleError Vnic
  primary_vnic [] st = (st, err no_primary_vnic)
  primary_vnic (att ∷ rest) st =
      if att.lifecycle_state == "ATTACHED" && not (att.vnic_id == "")
      then weigh_vnic (primary_vnic rest) (cloud.get_vnic att.vnic_id st)
      else primary_vnic rest st

  with_public :
      Instance
      → PrivateIp
      → State × Result ClientError PublicIp
      → State × Result OracleError Binding
  with_public i p (st, ok ip) =
      (st, ok (record { instance_ = i; private_ip = p; public_ip = some ip }))
  with_public i p (st, err (api_not_found e)) =
      (st, ok (record { instance_ = i; private_ip = p; public_ip = none }))
  with_public i p (st, err (api_conflict e)) = (st, err (fetching_public_ip (api_conflict e)))
  with_public i p (st, err (other_error e)) = (st, err (fetching_public_ip (other_error e)))

  with_private : Instance → State → Option PrivateIp → State × Result OracleError Binding
  with_private i st none = (st, err no_primary_private_ip)
  with_private i st (some p) = with_public i p (cloud.public_ip_of_private_ip p.id st)

  with_private_ips :
      Instance → State × Result ClientError (List PrivateIp) → State × Result OracleError Binding
  with_private_ips i (st, err e) = (st, err (listing_private_ips e))
  with_private_ips i (st, ok ips) = with_private i st (first_primary ips)

  with_vnic : Instance → State × Result OracleError Vnic → State × Result OracleError Binding
  with_vnic i (st, err e) = (st, err e)
  with_vnic i (st, ok v) = with_private_ips i (cloud.list_private_ips v.id st)

  with_attachments :
      Instance
      → State × Result ClientError (List VnicAttachment)
      → State × Result OracleError Binding
  with_attachments i (st, err e) = (st, err (listing_attachments e))
  with_attachments i (st, ok atts) = with_vnic i (primary_vnic atts st)

  with_instance : State × Result ClientError Instance → State × Result OracleError Binding
  with_instance (st, err e) = (st, err (fetching_instance e))
  with_instance (st, ok i) =
      with_attachments i (cloud.list_vnic_attachments i.compartment_id i.id st)

  -- describe
  pub describe : String → State → State × Result OracleError Binding
  describe instance_id st = with_instance (cloud.get_instance instance_id st)

  current : State × Result OracleError Binding → State × Result OracleError String
  current (st, err e) = (st, err e)
  current (st, ok b) = elim b.public_ip [
    | none ↦ (st, err no_public_ip)
    | some ip ↦ (st, ok ip.ip_address)
  ]

  -- CurrentIP
  pub current_ip : String → State → State × Result OracleError String
  current_ip instance_id st = current (describe instance_id st)

  assign : Timeouts → ℕ → State × Result OracleError PublicIp → State × Result OracleError String
  assign limits fuel (st, err e) = (st, err e)
  assign limits fuel (st, ok fresh) = wait_assigned limits fuel fresh.id st

  -- RotateIP from its call of allocate on.
  pub draw_fresh : Timeouts → ℕ → Binding → State → State × Result OracleError String
  draw_fresh limits fuel b st = assign limits fuel (allocate limits fuel b st)

  after_release :
      Timeouts
      → ℕ
      → Binding
      → State × Result OracleError (Unit {0})
      → State × Result OracleError String
  after_release limits fuel b (st, err e) = (st, err e)
  after_release limits fuel b (st, ok u) = draw_fresh limits fuel b st

  -- `err != nil && !IsNotFound(err)` of DeletePublicIP.
  after_delete :
      Timeouts → ℕ → Binding → State × Option ClientError → State × Result OracleError String
  after_delete limits fuel b (st, none) =
      after_release limits fuel b (wait_released limits fuel b.private_ip.id st)
  after_delete limits fuel b (st, some (api_not_found e)) =
      after_release limits fuel b (wait_released limits fuel b.private_ip.id st)
  after_delete limits fuel b (st, some (api_conflict e)) = (st, err (releasing (api_conflict e)))
  after_delete limits fuel b (st, some (other_error e)) = (st, err (releasing (other_error e)))

  -- What RotateIP returns: the old address and the new one or the error.
  abbrev pub Swapped : Type 0
  Swapped = State × String × Result OracleError String

  swap : Timeouts → ℕ → Binding → State → Option PublicIp → Swapped
  swap limits fuel b st none = let (s, r) = draw_fresh limits fuel b st in (s, "", r)
  swap limits fuel b st (some ip) =
      let (s, r) = after_delete limits fuel b (cloud.delete_public_ip ip.id st) in
      if ip.lifetime == "RESERVED" then (st, "", err reserved_ip) else (s, ip.ip_address, r)

  rotate_bound : Timeouts → ℕ → State × Result OracleError Binding → Swapped
  rotate_bound limits fuel (st, err e) = (st, "", err e)
  rotate_bound limits fuel (st, ok b) = swap limits fuel b st b.public_ip

  -- RotateIP
  pub rotate_ip : Timeouts → ℕ → String → State → Swapped
  rotate_ip limits fuel instance_id st = rotate_bound limits fuel (describe instance_id st)
