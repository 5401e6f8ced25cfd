-- ===== src/Provisioner/Rotator/Tests.antt =====
-- Runs of the model of internal/provisioner/rotator.go, and instances of its theorems.
use ghost_node.Prelude.{
  ℕ, ◌+◌, ◌≤◌, String, ◌≡◌, refl, Bool, true, false, none, some, [], ◌∷◌, ◌==◌, ltb, if◌then◌else◌,
  ok, err, insert,
}
use ghost_node.Prelude.Int.{pos}
use ghost_node.Provisioner.Address.{parse_addr, same_24}
use ghost_node.Provisioner.Burned.{BurnedStore, burned, scan, in_prefix, add, same_prefix}
use ghost_node.Provisioner.Probe.{probe_tcp}
use ghost_node.Provisioner.Rotator.{
  World, Target, Drawn, Rotator, Session, PostAction, rotated, rotate, start, draws, and_then,
  round, drawn, weigh, verdict, verify, reject, burn, finish, run_post, note, note_old, unreachable,
  near_burned, probe_port_of,
}
use ghost_node.Provisioner.Rotator.Acceptance.{Accepted, IsDrawn, rotate-Accepted}
use ghost_node.Provisioner.Rotator.Burning.{Secured, rotate_burns}
use ghost_node.Provisioner.Rotator.Actions.{Reported, rotate_actions}

abbrev no_ipv6 : String → Bool
no_ipv6 s = false

-- The state is the time. Only the address 9.9.9.9 answers.
abbrev lab : World
lab = record {
  State = ℕ;
  now = λ st. st;
  network = λ st ip port. record {
    pause = λ i. none;
    dial = λ i. if ip == "9.9.9.9" then ok 3_000_000 else err "timeout";
  };
  probed = λ st ip port. st + 1;
}

-- Draws 1.2.3.4, then 5.6.7.8, then 9.9.9.9; later draws fail.
abbrev pool : ℕ → String → ℕ × Drawn
pool st instance_ =
    if ltb st 100
    then (100, record { old_ip = "1.1.1.1"; new_ip = "1.2.3.4"; error = none })
    else if ltb st 200
    then (200, record { old_ip = "1.2.3.4"; new_ip = "5.6.7.8"; error = none })
    else if ltb st 300
    then (300, record { old_ip = "5.6.7.8"; new_ip = "9.9.9.9"; error = none })
    else (st, record { old_ip = "9.9.9.9"; new_ip = ""; error = some "out of capacity" })

abbrev dns : PostAction no_ipv6 lab
dns = record { name = "dns"; apply = λ st t old new. (st + 1, some "no zone") }

abbrev ssh : PostAction no_ipv6 lab
ssh = record { name = "ssh-config"; apply = λ st t old new. (st + 1, none) }

abbrev empty_store : BurnedStore
empty_store = record { path = ""; entries = [] }

abbrev rotator : Rotator no_ipv6 lab
rotator = record {
  provider = some pool;
  burned_store = some (record { path = ""; entries = ("5.6.7.1", 50) ∷ [] });
  post = dns ∷ ssh ∷ [];
  attempts = pos 3;
  probe = true;
  probe_attempts = pos 1;
  burn_window = pos 1000;
}

abbrev node : Target
node = record {
  name = "jp1";
  instance_id = "ocid1";
  dns_record = "n1.example.com";
  node_id = "";
  probe_port = pos 0;
  ssh_host = "";
}

abbrev final : Session no_ipv6 lab
final = record {
  state = 303;
  store =
      some (record {
        path = "";
        entries = ("5.6.7.1", 50) ∷ ("1.2.3.4", 101) ∷ ("1.1.1.1", 301) ∷ [];
      });
  result = record {
    target = node;
    old_ip = "1.1.1.1";
    new_ip = "9.9.9.9";
    attempts = 3;
    rejected =
        unreachable "1.2.3.4" (some "timeout")
        ∷ near_burned "5.6.7.8" (same_prefix "5.6.7.1" 50)
        ∷ [];
    probe = record { attempted = true; reachable = true; latency = 3_000_000; error = none };
    post_errors = ("dns", "no zone") ∷ [];
  };
}

third_draw : rotate no_ipv6 lab rotator node 0 ≡ rotated final
unfolding rotate start draws and_then round drawn weigh verdict verify reject burn finish run_post
    note note_old probe_tcp burned scan in_prefix parse_addr same_24 add insert probe_port_of
third_draw = refl

rotate-Accepted_example :
    Accepted no_ipv6 lab rotator node 3 final.result
    × (3 ≤ 3)
    × IsDrawn no_ipv6 lab rotator node (some pool) "9.9.9.9"
rotate-Accepted_example = rotate-Accepted no_ipv6 lab rotator node 0 final third_draw

rotate_burns_example :
    Secured (record { path = ""; entries = ("5.6.7.1", 50) ∷ [] }) final.store final.result
rotate_burns_example =
    rotate_burns no_ipv6 lab rotator node 0 final
      (record { path = ""; entries = ("5.6.7.1", 50) ∷ [] }) refl third_draw

rotate_actions_example : Reported no_ipv6 lab node (dns ∷ ssh ∷ []) final
rotate_actions_example = rotate_actions no_ipv6 lab rotator node 0 final third_draw
