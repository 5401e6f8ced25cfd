-- ===== src/Provisioner/Oracle/Tests.antt =====
-- A cloud with one instance, whose state is its clock, and instances on it of the theorems on
-- internal/provisioner/oracle.go.
use ghost_node.Prelude.{
  ℕ, suc, ◌+◌, String, ◌≡◌, refl, ap, ◌≢◌, true, none, [], ◌∷◌, arith, ltb, if◌then◌else◌, Result,
  ok, err,
}
use ghost_node.Provisioner.Ociclient.{Cloud, PublicIp, ClientError, api_not_found}
use ghost_node.Provisioner.Oracle.{
  Timeouts, Binding, out_of_fuel, poll, resume, decide, first_primary, released, assigned,
  allocated, wait_assigned, wait_released, allocate, assign, draw_fresh, after_release,
  after_delete, swap, rotate_bound, rotate_ip, describe, weigh_vnic, primary_vnic, with_public,
  with_private, with_private_ips, with_vnic, with_attachments, with_instance,
}
use ghost_node.Provisioner.Oracle.Primary.{IsPrimary}
use ghost_node.Provisioner.Oracle.Swap.{IsReleased, IsDrawn, rotate_ip_sound}
use ghost_node.Provisioner.Oracle.Ending.{rotate_ip_ends}

abbrev ip : String → String → PublicIp
ip id address = record {
  id = id;
  ip_address = address;
  lifetime = "EPHEMERAL";
  lifecycle_state = "ASSIGNED";
}

-- The address is attached before instant 10, and released after it.
abbrev attached : ℕ → Result ClientError PublicIp
attached s = if ltb s 10 then ok (ip "old" "203.0.113.9") else err (api_not_found "404")

abbrev tokyo : Cloud
tokyo = record {
  State = ℕ;
  now = λ s. s;
  pause = λ s. (s + 3, none);
  get_instance = λ id s. (
    s,
    ok (record {
      id = id;
      compartment_id = "root";
      display_name = "node";
      lifecycle_state = "RUNNING";
    }),
  );
  list_vnic_attachments =
      λ c i s. (s, ok (record { vnic_id = "vnic"; lifecycle_state = "ATTACHED" } ∷ []));
  get_vnic = λ id s. (s, ok (record { id = id; is_primary = true }));
  list_private_ips =
      λ id s. (s, ok (record { id = "private"; compartment_id = ""; is_primary = true } ∷ []));
  public_ip_of_private_ip = λ id s. (s, attached s);
  get_public_ip = λ id s. (s, ok (ip id "198.51.100.4"));
  delete_public_ip = λ id s. (s + 8, none);
  create_ephemeral_public_ip = λ c p n s. (s, ok (ip "fresh" ""));
}

abbrev limits : Timeouts
limits = record { release_timeout = 9; assign_timeout = 12 }

swaps : rotate_ip tokyo limits 14 "node" 0 ≡ (11, "203.0.113.9", ok "198.51.100.4")
unfolding rotate_ip rotate_bound describe with_instance with_attachments primary_vnic weigh_vnic
    with_vnic with_private_ips first_primary with_private with_public swap after_delete
    wait_released released poll decide resume after_release draw_fresh allocate allocated assign
    wait_assigned assigned
swaps = refl

rotate_ip_sound_example :
    (b : Binding) × ((describe tokyo "node" 0).1 ≡ ok b)
    × ((tokyo.get_instance "node" 0).1 ≡ ok b.instance_)
    × IsPrimary tokyo b.instance_ b.private_ip
    × IsReleased b.public_ip (rotate_ip tokyo limits 14 "node" 0).1
    × IsDrawn tokyo b.private_ip "198.51.100.4"
rotate_ip_sound_example =
    rotate_ip_sound tokyo limits 14 "node" "198.51.100.4" 0 (ap (λ x. x.2) swaps)

rotate_ip_ends_example : (rotate_ip tokyo limits (suc 13) "node" 0).2 ≢ err out_of_fuel
rotate_ip_ends_example =
    rotate_ip_ends tokyo limits 13 "node" 0 (λ s done. omega arith) (λ c p n s. omega arith)
      (λ i s. omega arith) (λ i s. omega arith) (omega arith) (omega arith)
