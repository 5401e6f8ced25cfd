-- ===== src/Transport/Xray.antt =====
-- internal/transport/xray/provider.go: the engine that runs xray as a child process. A step holds the
-- lock from its start to its end; the goroutine that reaps a process waits for its exit, and for the
-- lock. The operating system's answers are arguments of a step.
pub mod Reaping
pub mod Readiness
mod Tests
use ghost_node.Prelude.{
  ℕ, zero, suc, ◌+◌, ◌-◌, String, Bool, true, false, ◌&&◌, not, Option, none, some, List, [], ◌∷◌,
  ltb, eqb, if◌then◌else◌, Result, ok, err,
}
use ghost_node.Transport.{Status, stopped, starting, running, failed}

-- The child that p.cmd holds: none was started, or the one with a pid.
pub data Command : Type 0 where
  absent unstarted : Command
  child : ℕ → Command

-- `alive` are the processes that run, `reapers` the processes whose goroutine has yet to set the
-- status, and `next` is the next pid.
pub record Engine : Type 0 where
  pub command : Command
  pub status : Status
  pub alive : List ℕ
  pub reapers : List ℕ
  pub next : ℕ

-- New
abbrev pub new_engine : Engine
new_engine = record { command = absent; status = stopped; alive = []; reapers = []; next = 0 }

pub without : ℕ → List ℕ → List ℕ
without pid [] = []
without pid (p ∷ ps) = let rest = without pid ps in if eqb p pid then rest else p ∷ rest

pub among : ℕ → List ℕ → Bool
among pid [] = false
among pid (p ∷ ps) = let rest = among pid ps in if eqb p pid then true else rest

pub is_running : Status → Bool
is_running running = true
is_running stopped = false
is_running starting = false
is_running failed = false

-- How the calls of Start answer.
pub data Launch : Type 0 where
  no_binary not_started not_ready ready : Launch

pub data StartError : Type 0 where
  binary_not_found starting_process did_not_become_ready : StartError

-- Start after its guard.
launch : Launch → Engine → Engine × Option StartError
launch no_binary e = (e, some binary_not_found)
launch not_started e = (record e { command = unstarted; status = failed }, some starting_process)
launch not_ready e = (
  record e { command = child e.next; status = failed; next = e.next + 1 },
  some did_not_become_ready,
)
launch ready e = (
  record {
    command = child e.next;
    status = running;
    alive = e.next ∷ e.alive;
    reapers = e.next ∷ e.reapers;
    next = e.next + 1;
  },
  none,
)

-- Start
pub start : Launch → Engine → Engine × Option StartError
start l e = let done = launch l e in if is_running e.status then (e, none) else done

-- What Stop ends: the process that p.cmd holds, by the interrupt or by Kill.
ended : Command → List ℕ → List ℕ
ended absent alive = alive
ended unstarted alive = alive
ended (child pid) alive = without pid alive

-- Stop
pub stop : Engine → Engine
stop e = record e { status = stopped; alive = ended e.command e.alive }

-- The goroutine of Start, once its process has exited.
pub reap : ℕ → Engine → Engine
reap pid e =
    if among pid e.reapers && not (among pid e.alive)
    then record e { status = stopped; reapers = without pid e.reapers }
    else e

-- A process exits by itself.
pub exit_ : ℕ → Engine → Engine
exit_ pid e = record e { alive = without pid e.alive }

pub data Event : Type 0 where
  starts : Launch → Event
  stops : Event
  exits reaps : ℕ → Event

pub step : Event → Engine → Engine
step (starts l) e = (start l e).0
step stops e = stop e
step (exits pid) e = exit_ pid e
step (reaps pid) e = reap pid e

pub run : List Event → Engine → Engine
run [] e = e
run (x ∷ xs) e = run xs (step x e)

-- HealthCheck; `dial` is the error of the connection to the API port.
pub data HealthError : Type 0 where
  not_running : Status → HealthError
  port_unreachable : String → HealthError

connected : Option String → Option HealthError
connected none = none
connected (some e) = some (port_unreachable e)

pub health_check : Option String → Engine → Option HealthError
health_check dial e = if is_running e.status then connected dial else some (not_running e.status)

-- GetLatency between two instants.
pub get_latency : Option String → (before after : ℕ) → Engine → Result HealthError ℕ
get_latency dial before after e = elim (health_check dial e) [
  | some x ↦ err x
  | none ↦ ok (after - before)
]

-- ReloadConfig is a Stop and a Start, between which the lock is free.
abbrev pub reload : Launch → List Event
reload l = stops ∷ starts l ∷ []

-- waitReady: `dial i` tells whether the connection of round `i` succeeds, `clock i` is the instant of
-- its test in milliseconds. `none` means that the fuel has run out.
pub wait_ready : (clock : ℕ → ℕ) (dial : ℕ → Bool) (deadline fuel i : ℕ) → Option Bool
wait_ready clock dial deadline zero i = none
wait_ready clock dial deadline (suc fuel) i =
    let later = wait_ready clock dial deadline fuel (i + 1) in
    if ltb (clock i) deadline then (if dial i then some true else later) else some false
