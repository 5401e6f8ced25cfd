-- ===== src/Agent/Configs/Tests.antt =====
-- An instance of the theorem on internal/agent/config_manager.go.
use ghost_node.Prelude.{String, ◌≡◌, refl, true, none, some, [], ◌∷◌}
use ghost_node.Agent.Processes.{new_manager, launch, exited, woke, restarted}
use ghost_node.Agent.Configs.{
  TransportConfig, Host, Answers, write_failed, xray, apply_engine, apply_one,
}
use ghost_node.Agent.Configs.Applied.{IsApplied, apply_engine-IsApplied}

abbrev willing : Answers
willing = record {
  mkdir = λ d. none;
  write = λ p. none;
  exec = λ b. none;
  meanwhile = λ name. exited 1 ∷ woke 1 ∷ restarted none 1 ∷ [];
}

abbrev empty_host : Host
empty_host = record { manager = new_manager; files = [] }

-- A node that runs xray already.
abbrev busy_host : Host
busy_host = record { manager = launch "xray" xray.bin xray.args new_manager; files = [] }

abbrev unknown : TransportConfig
unknown = record { transport_type = "wireguard"; enabled = true; config_json = "{}" }

skipped : apply_one willing unknown empty_host ≡ (empty_host, none)
unfolding apply_one
skipped = refl

apply_engine-IsApplied_example :
    (willing.write xray.config_path ≡ none
      → ((apply_engine willing xray "{}" busy_host).1 ≡ none)
        × IsApplied xray "{}" (apply_engine willing xray "{}" busy_host).0)
    × ((error left : String)
        → willing.write xray.config_path ≡ some (error, left)
        → ((apply_engine willing xray "{}" busy_host).1 ≡ some (write_failed error))
          × ((apply_engine willing xray "{}" busy_host).0.manager ≡ busy_host.manager))
apply_engine-IsApplied_example = apply_engine-IsApplied willing xray "{}" busy_host refl refl
