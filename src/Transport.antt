-- ===== src/Transport.antt =====
-- internal/transport/manager.go and interface.go: the supervisor of the transport engines. A value
-- of Provider holds the answers that an engine gives during the operation at hand. `providers`
-- lists the Go map in the order in which `range` visits it.
pub mod Failover
pub mod Starting
pub mod Xray
mod Tests
use ghost_node.Prelude.{
  ℕ, String, Bool, true, false, Option, none, some, List, [], ◌∷◌, ◌==◌, ltb, if◌then◌else◌, lookup,
  insert,
}

pub data Status : Type 0 where
  stopped starting running failed : Status

-- The interface Provider.
pub record Provider : Type 0 where
  pub name : String
  pub start : Option String
  pub stop : Option String
  pub health_check : Option String
  pub get_latency : ℕ
  pub get_status : Status

pub record HealthResult : Type 0 where
  pub transport : String
  pub status : Status
  pub latency : ℕ
  pub error : Option String

-- `closed` says whether stopCh is closed.
pub record Manager : Type 0 where
  pub providers : List (String × Provider)
  pub active : String
  pub closed : Bool

-- NewManager
abbrev pub new_manager : Manager
new_manager = record { providers = []; active = ""; closed = false }

-- Register
pub register : Provider → Manager → Manager
register p m = record m { providers = insert p.name p m.providers }

-- The loop of StartAll over the variable `active`.
start_each : List (String × Provider) → String → String
start_each [] active = active
start_each ((name, p) ∷ rest) active = elim p.start [
  | some e ↦ start_each rest active
  | none ↦ start_each rest (if active == "" then name else active)
]

-- StartAll
pub start_all : Manager → Manager
start_all m = record m { active = start_each m.providers m.active }

-- StopAll: closing a closed channel panics, which is `none`.
pub stop_all : Manager → Option Manager
stop_all m = if m.closed then none else some (record m { closed = true })

-- One element of `results`: the latency is asked for only of a healthy engine.
check_one : String → Provider → HealthResult
check_one name p = record {
  transport = name;
  status = p.get_status;
  latency = elim p.health_check [ none ↦ p.get_latency | some e ↦ 0 ];
  error = p.health_check;
}

poll : List (String × Provider) → List HealthResult
poll [] = []
poll ((name, p) ∷ rest) = check_one name p ∷ poll rest

-- HealthResults
pub health_results : Manager → List HealthResult
health_results m = poll m.providers

-- activeHealthy
active_healthy : String → List HealthResult → Option String
active_healthy active [] = none
active_healthy active (r ∷ rest) =
    let later = active_healthy active rest in if r.transport == active then r.error else later

-- `best == nil || r.Latency < best.Latency`
better : HealthResult → Option HealthResult → Option HealthResult
better r none = some r
better r (some best) = if ltb r.latency best.latency then some r else some best

-- The loop of selectBest.
best_of : Option HealthResult → List HealthResult → Option HealthResult
best_of best [] = best
best_of best (r ∷ rest) = elim r.error [
  | some e ↦ best_of best rest
  | none ↦ best_of (better r best) rest
]

switch_to : Option HealthResult → String → String
switch_to none active = active
switch_to (some best) active = if best.transport == active then active else best.transport

-- selectBest
select_best : List HealthResult → String → String
select_best results active = switch_to (best_of none results) active

-- checkAndFailover
pub check_and_failover : Manager → Manager
check_and_failover m =
    let results = poll m.providers in
    elim (active_healthy m.active results) [
      | none ↦ m
      | some e ↦ record m { active = select_best results m.active }
    ]

-- GetProvider
pub get_provider : Manager → String → Option Provider
get_provider m name = lookup name m.providers
