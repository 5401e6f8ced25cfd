-- ===== src/Provisioner/Oracle/Ending.antt =====
-- RotateIP of internal/provisioner/oracle.go ends: the rounds of its loops are not used up.
use ghost_node.Prelude.{
  ℕ, suc, ◌≤◌, ◌<◌, String, ◌≡◌, ◌≢◌, inl, inr, ◌&&◌, not, Option, none, some, arith, ◌==◌,
  Bool-cases, Result, ok, err,
}
use ghost_node.Provisioner.Ociclient.{
  Cloud, PublicIp, ClientError, api_not_found, api_conflict, other_error,
}
use ghost_node.Provisioner.Oracle.{
  Timeouts, Binding, OracleError, out_of_fuel, released, assigned, allocated, wait_assigned,
  wait_released, allocate, assign, draw_fresh, after_release, after_delete, swap, rotate_bound,
  rotate_ip, describe,
}
use ghost_node.Provisioner.Oracle.Describing.{describe_real}
use ghost_node.Provisioner.Oracle.Polling.{IsReal, poll_ends}

-- A call that does not turn the clock back.
abbrev pub IsForward : (cloud : Cloud) → {A : Type 0} → (cloud.State → cloud.State × A) → Type 0
IsForward cloud call = (s : cloud.State) → cloud.now s ≤ cloud.now (call s).0

-- A pause that is not broken off takes time.
abbrev pub HasTicks : Cloud → Type 0
HasTicks cloud =
    (s : cloud.State) → (cloud.pause s).1 ≡ none → cloud.now s < cloud.now (cloud.pause s).0

module _ (cloud : Cloud) where
  open cloud use {State, now}

  released-IsReal :
      (from : ℕ) (x : State × Result ClientError PublicIp)
      → from ≤ now x.0
      → IsReal (released cloud x).1 × (from ≤ now (released cloud x).0)
  unfolding released IsReal
  released-IsReal from (s, err (api_not_found e)) h = (λ g. absurd (ground arith), h)
  released-IsReal from (s, err (api_conflict e)) h = (λ g. absurd (ground arith), h)
  released-IsReal from (s, err (other_error e)) h = (λ g. absurd (ground arith), h)
  released-IsReal from (s, ok ip) h = (λ g. absurd (ground arith), h)

  allocated-IsReal :
      (from : ℕ) (x : State × Result ClientError PublicIp)
      → from ≤ now x.0
      → IsReal (allocated cloud x).1 × (from ≤ now (allocated cloud x).0)
  unfolding allocated IsReal
  allocated-IsReal from (s, err (api_not_found e)) h = (λ g. absurd (ground arith), h)
  allocated-IsReal from (s, err (api_conflict e)) h = (λ g. absurd (ground arith), h)
  allocated-IsReal from (s, err (other_error e)) h = (λ g. absurd (ground arith), h)
  allocated-IsReal from (s, ok ip) h = (λ g. absurd (ground arith), h)

  assigned-IsReal :
      (from : ℕ) (x : State × Result ClientError PublicIp)
      → from ≤ now x.0
      → IsReal (assigned cloud x).1 × (from ≤ now (assigned cloud x).0)
  unfolding assigned IsReal
  assigned-IsReal from (s, err e) h = (λ g. absurd (ground arith), h)
  assigned-IsReal from (s, ok ip) h =
      elim (Bool-cases (ip.lifecycle_state == "ASSIGNED" && not (ip.ip_address == ""))) [
        | inl good ↦ rw good (λ g. absurd (ground arith), h)
        | inr bad ↦ elim (Bool-cases (ip.lifecycle_state == "TERMINATED")) [
          | inl over ↦ rw bad (rw over (λ g. absurd (ground arith), h))
          | inr open_ ↦ rw bad (rw open_ (λ g. absurd (ground arith), h))
        ]
      ]

  wait_released_ends :
      (limits : Timeouts) (fuel : ℕ) (id : String) (st : State)
      → HasTicks cloud
      → IsForward cloud (cloud.public_ip_of_private_ip id)
      → limits.release_timeout < fuel
      → (wait_released cloud limits (suc fuel) id st).1 ≢ err out_of_fuel
  unfolding wait_released
  wait_released_ends limits fuel id st ticks forward enough =
      poll_ends cloud _ fuel _ st
        (λ s. released-IsReal (now s) (cloud.public_ip_of_private_ip id s) (forward s)) ticks
        (omega arith)

  wait_assigned_ends :
      (limits : Timeouts) (fuel : ℕ) (id : String) (st : State)
      → HasTicks cloud
      → IsForward cloud (cloud.get_public_ip id)
      → limits.assign_timeout < fuel
      → (wait_assigned cloud limits (suc fuel) id st).1 ≢ err out_of_fuel
  unfolding wait_assigned
  wait_assigned_ends limits fuel id st ticks forward enough =
      poll_ends cloud _ fuel _ st
        (λ s. assigned-IsReal (now s) (cloud.get_public_ip id s) (forward s)) ticks (omega arith)

  allocate_ends :
      (limits : Timeouts) (fuel : ℕ) (b : Binding) (st : State)
      → HasTicks cloud
      → ((compartment private_ip name : String)
          → IsForward cloud (cloud.create_ephemeral_public_ip compartment private_ip name))
      → limits.assign_timeout < fuel
      → (allocate cloud limits (suc fuel) b st).1 ≢ err out_of_fuel
  unfolding allocate
  allocate_ends limits fuel b st ticks forward enough =
      poll_ends cloud _ fuel _ st (λ s. allocated-IsReal (now s) _ (forward _ _ _ s)) ticks
        (omega arith)

  module _ (limits : Timeouts) (fuel : ℕ) (ticks : HasTicks cloud)
      (create_forward : (compartment private_ip name : String)
        → IsForward cloud (cloud.create_ephemeral_public_ip compartment private_ip name))
      (get_forward : (id : String) → IsForward cloud (cloud.get_public_ip id))
      (find_forward : (id : String) → IsForward cloud (cloud.public_ip_of_private_ip id))
      (release_enough : limits.release_timeout < fuel)
      (assign_enough : limits.assign_timeout < fuel) where
    draw_fresh_ends :
        (b : Binding) (s : State) → (draw_fresh cloud limits (suc fuel) b s).1 ≢ err out_of_fuel
    unfolding draw_fresh assign
    draw_fresh_ends b s =
        assigned_ends (allocate cloud limits (suc fuel) b s)
          (allocate_ends limits fuel b s ticks create_forward assign_enough)
      where
        assigned_ends :
            (x : State × Result OracleError PublicIp)
            → x.1 ≢ err out_of_fuel
            → (assign cloud limits (suc fuel) x).1 ≢ err out_of_fuel
        assigned_ends (t, err e) real = λ g. real (ground arith)
        assigned_ends (t, ok fresh) real =
            wait_assigned_ends limits fuel fresh.id t ticks (get_forward fresh.id) assign_enough

    after_release_ends :
        (b : Binding) (x : State × Result OracleError (Unit {0}))
        → x.1 ≢ err out_of_fuel
        → (after_release cloud limits (suc fuel) b x).1 ≢ err out_of_fuel
    unfolding after_release
    after_release_ends b (s, err e) real = λ g. real (ground arith)
    after_release_ends b (s, ok u) real = draw_fresh_ends b s

    after_delete_ends :
        (b : Binding) (x : State × Option ClientError)
        → (after_delete cloud limits (suc fuel) b x).1 ≢ err out_of_fuel
    unfolding after_delete
    after_delete_ends b (s, none) = after_release_ends b _ (
        wait_released_ends limits fuel b.private_ip.id s ticks (find_forward b.private_ip.id)
          release_enough)
    after_delete_ends b (s, some (api_not_found e)) = after_release_ends b _ (
        wait_released_ends limits fuel b.private_ip.id s ticks (find_forward b.private_ip.id)
          release_enough)
    after_delete_ends b (s, some (api_conflict e)) = λ g. absurd (ground arith)
    after_delete_ends b (s, some (other_error e)) = λ g. absurd (ground arith)

    swap_ends :
        (b : Binding) (s : State) (ip : Option PublicIp)
        → (swap cloud limits (suc fuel) b s ip).2 ≢ err out_of_fuel
    unfolding swap
    swap_ends b s none = draw_fresh_ends b s
    swap_ends b s (some ip) = elim (Bool-cases (ip.lifetime == "RESERVED")) [
      | inl kept ↦ rw kept (λ g. absurd (ground arith))
      | inr free ↦ rw free (after_delete_ends b (cloud.delete_public_ip ip.id s))
    ]

  -- RotateIP does not run out of rounds when they are more than either timeout, plus one, where a
  -- pause that is not broken off takes time and no call of the loops turns the clock back.
  pub rotate_ip_ends :
      (limits : Timeouts) (fuel : ℕ) (id : String) (st : State)
      → HasTicks cloud
      → ((compartment private_ip name : String)
          → IsForward cloud (cloud.create_ephemeral_public_ip compartment private_ip name))
      → ((ip : String) → IsForward cloud (cloud.get_public_ip ip))
      → ((ip : String) → IsForward cloud (cloud.public_ip_of_private_ip ip))
      → limits.release_timeout < fuel
      → limits.assign_timeout < fuel
      → (rotate_ip cloud limits (suc fuel) id st).2 ≢ err out_of_fuel
  unfolding rotate_ip rotate_bound
  rotate_ip_ends limits fuel id st ticks create get find released_in assigned_in =
      bound (describe cloud id st) (describe_real cloud id st)
    where
      bound :
          (x : State × Result OracleError Binding)
          → x.1 ≢ err out_of_fuel
          → (rotate_bound cloud limits (suc fuel) x).2 ≢ err out_of_fuel
      bound (s, err e) real = λ g. real (ground arith)
      bound (s, ok b) real =
          swap_ends limits fuel ticks create get find released_in assigned_in b s b.public_ip
