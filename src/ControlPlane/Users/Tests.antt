-- ===== src/ControlPlane/Users/Tests.antt =====
-- Repositories with one user and one device, and instances on them of the theorems on
-- internal/service/user_service.go.
use ghost_node.Prelude.{
  ℕ, ◌+◌, ◌-◌, ◌≤◌, ◌≡◌, refl, ap, true, none, some, [], ◌∷◌, arith, ◌==◌, if◌then◌else◌, ok,
}
use ghost_node.ControlPlane.Models.{User, role_user, Device, desktop}
use ghost_node.ControlPlane.Auth.{Hashes}
use ghost_node.ControlPlane.Users.{
  Repositories, AddDeviceInput, remove_device, remove_found, reported, add_device, change_password,
  change_for, replace_password, store_hash, add_counted, added,
}
use ghost_node.ControlPlane.Users.Devices.{remove_device_owner, add_device_limit}

abbrev bob : User
bob = record {
  id = "u2";
  email = "bob@example.com";
  password_hash = "old";
  role = role_user;
  is_active = true;
}

abbrev phone : Device
phone = record {
  id = "d1";
  user_id = "u2";
  name = "phone";
  type_ = desktop;
  public_key = "k";
  last_seen_at = none;
  last_ip = "";
  is_active = true;
}

-- The state is the number of active devices.
abbrev one_user : Repositories
one_user = record {
  State = ℕ;
  find_user = λ s user. ok bob;
  update_user = λ s u. (s, none);
  count_by_user = λ s user. ok s;
  create_device = λ s d. (s + 1, ok d);
  list_by_user = λ s user. ok (phone ∷ []);
  find_device = λ s id. ok phone;
  update_device = λ s d. (s, none);
  delete_device = λ s id. (s - 1, none);
}

abbrev same : Hashes
same = record {
  hash_password = λ p. ok p;
  check_password = λ h p. if h == p then none else some "mismatch";
  hash_token = λ t. t;
}

removes : (remove_device same one_user 4 "u2" "d1").0 ≡ 3
unfolding remove_device remove_found reported
removes = refl

remove_device_owner_example :
    (d : Device) × (one_user.find_device 4 "d1" ≡ ok d) × (d.user_id ≡ "u2")
remove_device_owner_example =
    remove_device_owner same one_user 4 "u2" "d1" (λ e. ground (arith, removes))

abbrev tablet : AddDeviceInput
tablet = record { name = "tablet"; type_ = desktop; public_key = "k2" }

adds : (add_device same one_user 9 "u2" tablet).0 ≡ 10
unfolding add_device add_counted added
adds = refl

one_more :
    (d : Device) (k n : ℕ)
    → one_user.count_by_user 9 d.user_id ≡ ok k
    → one_user.count_by_user (9 + 1) d.user_id ≡ ok n
    → n ≤ k + 1
one_more d k n h g = ground arith

add_device_limit_example : 10 ≤ 10
add_device_limit_example =
    add_device_limit same one_user 9 "u2" tablet one_more (λ k h. ground arith) 10
      (ap (λ s. ok s) adds)

changes : change_password same one_user 4 "u2" "old" "new" ≡ (4, none)
unfolding change_password change_for replace_password store_hash reported
changes = refl
