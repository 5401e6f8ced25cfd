-- ===== src/ControlPlane/Users/Devices.antt =====
-- Who may remove a device, how many there are, and when a password changes, in
-- internal/service/user_service.go.
use ghost_node.Prelude.{
  ℕ, ◌+◌, ◌≤◌, String, ◌≡◌, refl, subst, ◌≢◌, inl, inr, Option, none, some, arith, ◌==◌, eq_iff,
  leb, Bool-cases, Result, ok, err,
}
use ghost_node.ControlPlane.Models.{User, Device}
use ghost_node.ControlPlane.Auth.{FindError, not_found, find_failed, Hashes}
use ghost_node.ControlPlane.Users.{
  Repositories, AddDeviceInput, remove_device, remove_found, add_device, add_counted, added,
  new_device, change_password, change_for, replace_password, store_hash, reported,
}

module _ (hashes : Hashes) (repos : Repositories) where
  open repos use {State}

  -- RemoveDevice changes nothing unless the device is found and belongs to the user who asks.
  pub remove_device_owner :
      (st : State) (user id : String)
      → (remove_device hashes repos st user id).0 ≢ st
      → (d : Device) × (repos.find_device st id ≡ ok d) × (d.user_id ≡ user)
  unfolding remove_device remove_found
  remove_device_owner st user id changed = from (repos.find_device st id) changed
    where
      from :
          (x : Result FindError Device)
          → (remove_found hashes repos st user id x).0 ≢ st
          → (d : Device) × (x ≡ ok d) × (d.user_id ≡ user)
      from (err not_found) h = absurd (h refl)
      from (err (find_failed e)) h = absurd (h refl)
      from (ok d) h = elim (Bool-cases (d.user_id == user)) [
        | inl own ↦ (d, refl, ground (arith, eq_iff d.user_id user))
        | inr other ↦ absurd (rw other at h refl)
      ]

  -- AddDevice keeps the active devices of a user at ten or fewer, where creating a device raises the
  -- count of its owner by at most one.
  pub add_device_limit :
      (st : State) (user : String) (input : AddDeviceInput)
      → ((d : Device) (k n : ℕ)
          → repos.count_by_user st d.user_id ≡ ok k
          → repos.count_by_user (repos.create_device st d).0 d.user_id ≡ ok n
          → n ≤ k + 1)
      → ((k : ℕ) → repos.count_by_user st user ≡ ok k → k ≤ 10)
      → (n : ℕ) → repos.count_by_user (add_device hashes repos st user input).0 user ≡ ok n
      → n ≤ 10
  unfolding add_device add_counted added new_device
  add_device_limit st user input one_more few n after =
      from (repos.count_by_user st user) refl after
    where
      created : (x : State × Result String Device) → (added hashes repos x).0 ≡ x.0
      created (s, ok d) = refl
      created (s, err e) = refl

      from :
          (x : Result String ℕ)
          → repos.count_by_user st user ≡ x
          → repos.count_by_user (add_counted hashes repos st user input x).0 user ≡ ok n
          → n ≤ 10
      from (err e) counted h = few n h
      from (ok k) counted h = elim (Bool-cases (leb 10 k)) [
        | inl full ↦ few n (rw full at h)
        | inr room ↦
            let grown = one_more (new_device hashes repos user input) k n counted (
              subst (λ s. repos.count_by_user s user ≡ ok n)
                (created (repos.create_device st (new_device hashes repos user input)))
                (rw room at h)) in
            ground arith
      ]

  -- A password changes only for a user that is found and who gave the current one, to the hash of the
  -- new one.
  pub change_password_sound :
      (st st' : State) (user old new : String)
      → change_password hashes repos st user old new ≡ (st', none)
      → (u : User) × (hash : String) × (repos.find_user st user ≡ ok u)
        × (hashes.check_password u.password_hash old ≡ none)
        × (hashes.hash_password new ≡ ok hash)
        × (repos.update_user st (record u { password_hash = hash }) ≡ (st', none))
  unfolding change_password change_for replace_password store_hash reported
  change_password_sound st st' user old new h = from (repos.find_user st user) h
    where
      updated :
          (x : State × Option String) → reported hashes repos x ≡ (st', none) → x ≡ (st', none)
      updated (s, none) e = ground arith
      updated (s, some x) e = absurd (ground arith)

      hashed :
          (u : User) (x : Result String String)
          → store_hash hashes repos st u x ≡ (st', none)
          → (hash : String) × (x ≡ ok hash)
            × (repos.update_user st (record u { password_hash = hash }) ≡ (st', none))
      hashed u (err e) g = absurd (ground arith)
      hashed u (ok hash) g = (hash, refl, updated _ g)

      checked :
          (u : User) (x : Option String)
          → replace_password hashes repos st u new x ≡ (st', none)
          → (x ≡ none)
            × ((hash : String) × (hashes.hash_password new ≡ ok hash)
                × (repos.update_user st (record u { password_hash = hash }) ≡ (st', none)))
      checked u (some e) g = absurd (ground arith)
      checked u none g = (refl, hashed u (hashes.hash_password new) g)

      from :
          (x : Result FindError User)
          → change_for hashes repos st old new x ≡ (st', none)
          → (u : User) × (hash : String) × (x ≡ ok u)
            × (hashes.check_password u.password_hash old ≡ none)
            × (hashes.hash_password new ≡ ok hash)
            × (repos.update_user st (record u { password_hash = hash }) ≡ (st', none))
      from (err e) g = absurd (ground arith)
      from (ok u) g =
          let (right, rest) = checked u (hashes.check_password u.password_hash old) g in
          let (hash, made, stored) = rest in (u, hash, refl, right, made, stored)
