-- ===== src/ControlPlane/Users.antt =====
-- internal/service/user_service.go: profiles, passwords and devices. The repositories are a
-- parameter, and an operation runs at one instant.
pub mod Devices
mod Tests
use ghost_node.Prelude.{
  ℕ, String, true, Option, none, some, List, ◌==◌, leb, if◌then◌else◌, Result, ok, err,
}
use ghost_node.ControlPlane.Models.{User, Device, DeviceType}
use ghost_node.ControlPlane.Auth.{FindError, not_found, find_failed, Hashes}

-- UserRepository and DeviceRepository, as far as the service calls them. Create returns the device
-- with its identifier.
pub record Repositories : Type 1 where
  pub State : Type 0
  pub find_user : State → String → Result FindError User
  pub update_user : State → User → State × Option String
  pub count_by_user : State → String → Result String ℕ
  pub create_device : State → Device → State × Result String Device
  pub list_by_user : State → String → Result String (List Device)
  pub find_device : State → String → Result FindError Device
  pub update_device : State → Device → State × Option String
  pub delete_device : State → String → State × Option String

pub data UserError : Type 0 where
  user_not_found incorrect_password device_limit device_not_found not_owner : UserError
  repository_failed hashing_failed counting adding : String → UserError

pub record AddDeviceInput : Type 0 where
  pub name : String
  pub type_ : DeviceType
  pub public_key : String

module _ (hashes : Hashes) (repos : Repositories) where
  open repos use {State}

  reported : State × Option String → State × Option UserError
  reported (st, none) = (st, none)
  reported (st, some e) = (st, some (repository_failed e))

  profile : Result FindError User → Result UserError User
  profile (ok u) = ok u
  profile (err not_found) = err user_not_found
  profile (err (find_failed e)) = err (repository_failed e)

  -- GetProfile
  pub get_profile : State → String → Result UserError User
  unfolding profile
  get_profile st user = profile (repos.find_user st user)

  store_hash : State → User → Result String String → State × Option UserError
  store_hash st u (err e) = (st, some (hashing_failed e))
  store_hash st u (ok hash) = reported (repos.update_user st (record u { password_hash = hash }))

  replace_password : State → User → String → Option String → State × Option UserError
  replace_password st u new (some e) = (st, some incorrect_password)
  replace_password st u new none = store_hash st u (hashes.hash_password new)

  change_for : State → (old new : String) → Result FindError User → State × Option UserError
  change_for st old new (err e) = (st, some user_not_found)
  change_for st old new (ok u) =
      replace_password st u new (hashes.check_password u.password_hash old)

  -- ChangePassword
  pub change_password : State → (user old new : String) → State × Option UserError
  change_password st user old new = change_for st old new (repos.find_user st user)

  -- The device that AddDevice passes to Create.
  pub new_device : String → AddDeviceInput → Device
  new_device user input = record {
    id = "";
    user_id = user;
    name = input.name;
    type_ = input.type_;
    public_key = input.public_key;
    last_seen_at = none;
    last_ip = "";
    is_active = true;
  }

  added : State × Result String Device → State × Result UserError Device
  added (st, ok d) = (st, ok d)
  added (st, err e) = (st, err (adding e))

  add_counted : State → String → AddDeviceInput → Result String ℕ → State × Result UserError Device
  add_counted st user input (err e) = (st, err (counting e))
  add_counted st user input (ok count) =
      if leb 10 count
      then (st, err device_limit)
      else added (repos.create_device st (new_device user input))

  -- AddDevice
  pub add_device : State → String → AddDeviceInput → State × Result UserError Device
  add_device st user input = add_counted st user input (repos.count_by_user st user)

  -- ListDevices
  pub list_devices : State → String → Result String (List Device)
  list_devices st user = repos.list_by_user st user

  remove_found : State → (user id : String) → Result FindError Device → State × Option UserError
  remove_found st user id (err not_found) = (st, some device_not_found)
  remove_found st user id (err (find_failed e)) = (st, some (repository_failed e))
  remove_found st user id (ok d) =
      if d.user_id == user then reported (repos.delete_device st id) else (st, some not_owner)

  -- RemoveDevice
  pub remove_device : State → (user id : String) → State × Option UserError
  remove_device st user id = remove_found st user id (repos.find_device st id)

  seen : ℕ → State → String → Result FindError Device → State × Option UserError
  seen now st ip (err not_found) = (st, none)
  seen now st ip (err (find_failed e)) = (st, some (repository_failed e))
  seen now st ip (ok d) =
      reported (repos.update_device st (record d { last_seen_at = some now; last_ip = ip }))

  -- UpdateDeviceLastSeen
  pub update_device_last_seen : ℕ → State → (id ip : String) → State × Option UserError
  unfolding seen
  update_device_last_seen now st id ip = seen now st ip (repos.find_device st id)
