-- ===== src/Transport/Tests.antt =====
-- Runs of the model of internal/transport/manager.go, and instances of its theorems.
use ghost_node.Prelude.{
  ℕ, String, ◌≡◌, refl, ◌≢◌, inl, inr, false, Option, none, some, [], ◌∷◌, arith, ◌==◌, eq_iff,
  lookup,
}
use ghost_node.Transport.{Provider, Manager, check_and_failover, running}
use ghost_node.Transport.Failover.{IsHealthy, failover_complete}

abbrev engine : String → Option String → ℕ → Provider
engine name check latency = record {
  name = name;
  start = check;
  stop = none;
  health_check = check;
  get_latency = latency;
  get_status = running;
}

-- xray is down; of the others hysteria2 answers faster.
abbrev three : Manager
three = record {
  providers =
      ("xray", engine "xray" (some "not running") 0)
      ∷ ("wireguard", engine "wireguard" none 9)
      ∷ ("hysteria2", engine "hysteria2" none 4)
      ∷ [];
  active = "xray";
  closed = false;
}

found_xray : lookup "xray" three.providers ≡ some (engine "xray" (some "not running") 0)
unfolding lookup
found_xray = refl

failover_complete_example : IsHealthy (check_and_failover three).active three.providers
failover_complete_example =
    failover_complete three (engine "xray" (some "not running") 0) "wireguard" found_xray (λ e. cc)
      (inr (inl (refl, refl)))

-- A fresh manager over the same engines, before StartAll.
abbrev idle : Manager
idle = record three { active = "" }

unnamed : lookup "" three.providers ≡ none
unfolding lookup
unnamed = refl

-- All engines fail to start.
abbrev dead : Manager
dead = record {
  providers = ("xray", engine "xray" (some "no binary") 0) ∷ [];
  active = "";
  closed = false;
}

named : (s : String) → (s == "") ≡ false → s ≢ ""
named s h = ground (arith, eq_iff s "")
