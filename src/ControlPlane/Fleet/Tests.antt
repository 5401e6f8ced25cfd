-- ===== src/ControlPlane/Fleet/Tests.antt =====
-- Runs of the model of internal/grpc/server.go and internal/repository/node_repo.go, and instances
-- of their theorems.
use ghost_node.Prelude.{ℕ, String, ◌≡◌, refl, none, some, [], ◌∷◌, ok}
use ghost_node.Prelude.Int.{pos, negsuc}
use ghost_node.ControlPlane.Fleet.{
  RegisterRequest, Load, Table, Faults, register_node, found, enter, saved, first_at, save_row,
  replaced, registered, reconnected, mark_stale_offline, heartbeat, int32, report_metrics, event,
  end_of_stream,
}
use ghost_node.ControlPlane.Fleet.Staleness.{Pairwise, Swept, mark_stale_offline-Swept}

abbrev idle : Load ℕ
idle = record {
  cpu_usage = 0;
  mem_usage = 0;
  bandwidth_in = pos 0;
  bandwidth_out = pos 0;
  active_conns = pos 0;
}

abbrev no_faults : Faults ℕ
no_faults = record { finding = none; updating = none; creating = none }

abbrev joins : String → String → RegisterRequest
joins host address = record {
  hostname = host;
  address = address;
  region = "kr";
  country = "KR";
  agent_version = "1";
}

abbrev one : Table ℕ
one = (register_node ℕ no_faults 7 "n1" idle (joins "a" "1.1.1.1") []).0

abbrev two : Table ℕ
two = (register_node ℕ no_faults 7 "n2" idle (joins "b" "2.2.2.2") one).0

one_run : one ≡ registered ℕ 7 "n1" idle (joins "a" "1.1.1.1") ∷ []
unfolding register_node found first_at enter
one_run = refl

-- The agent of a known address gets its row back.
again_run : (register_node ℕ no_faults 7 "n3" idle (joins "" "1.1.1.1") one).0 ≡ one
unfolding register_node found first_at enter saved save_row replaced reconnected registered
again_run = refl

abbrev heard : Table ℕ
heard = (heartbeat ℕ none (ok "n1") 5 "2" idle two).0

mark_stale_offline-Swept_example :
    Pairwise (Swept ℕ 100 10) heard (mark_stale_offline ℕ none 100 90 heard).0
mark_stale_offline-Swept_example = mark_stale_offline-Swept ℕ 100 90 heard

port_run : int32 (pos 4294967295) ≡ negsuc 0
unfolding int32
port_run = refl

stream_run : report_metrics ℕ (event ∷ event ∷ end_of_stream ∷ []) ≡ some none
unfolding report_metrics
stream_run = refl
