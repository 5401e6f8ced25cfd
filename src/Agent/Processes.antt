-- ===== src/Agent/Processes.antt =====
-- internal/agent/process_manager.go: the table of transport processes, and the goroutines that
-- watch and stop them. The locks make each piece below atomic; an Event is one piece, so a list of
-- events is an interleaving of calls, goroutines and exits. What the operating system answers to
-- a launch is part of the event, and process identifiers are never used twice.
pub mod Watching
pub mod Restarts
mod Tests
use ghost_node.Prelude.{
  ℕ, ◌+◌, String, Bool, true, false, ◌||◌, Option, none, some, List, [], ◌∷◌, eqb, if◌then◌else◌,
  lookup, insert, erase,
}

-- processEntry; `pid` stands for its `cmd`, which is set whenever an entry is stored.
pub record Entry : Type 0 where
  pub name : String
  pub bin : String
  pub args : List String
  pub pid : ℕ

-- A goroutine that is under way: `watch` in cmd.Wait, `watch` between its deletion and its call of
-- Start, and Stop between its signal and its deletion.
pub data Task : Type 0 where
  waiting : Entry → Task
  restarting : Entry → Task
  stopping : String → ℕ → Task

-- ProcessManager, its goroutines, the processes that run, and whether the context is cancelled.
pub record Manager : Type 0 where
  pub processes : List (String × Entry)
  pub tasks : List Task
  pub alive : List ℕ
  pub next_pid : ℕ
  pub cancelled : Bool

-- NewProcessManager
abbrev pub new_manager : Manager
new_manager = record { processes = []; tasks = []; alive = []; next_pid = 1; cancelled = false }

-- IsRunning
unfoldable pub is_running : String → Manager → Bool
is_running name m = elim (lookup name m.processes) [ none ↦ false | some e ↦ true ]

unfoldable pub launch : String → String → List String → Manager → Manager
launch name bin args m =
    let e : Entry = record { name = name; bin = bin; args = args; pid = m.next_pid } in
    record m {
      processes = insert name e m.processes;
      tasks = waiting e ∷ m.tasks;
      alive = m.next_pid ∷ m.alive;
      next_pid = m.next_pid + 1;
    }

-- Start, with the error of cmd.Start or nil.
unfoldable pub start :
    Option String → String → String → List String → Manager → Manager × Option String
unfolding launch
start fault name bin args m = elim (lookup name m.processes) [
  | some e ↦ (m, none)
  | none ↦ elim fault [ some x ↦ (m, some x) | none ↦ (launch name bin args m, none) ]
]

-- Stop up to its `select`: the entry is read and the process is signalled.
unfoldable pub stop_begin : String → Manager → Manager
stop_begin name m = elim (lookup name m.processes) [
  | none ↦ m
  | some e ↦ record m { tasks = stopping name e.pid ∷ m.tasks }
]

unfoldable pub remove : ℕ → List ℕ → List ℕ
remove pid [] = []
remove pid (p ∷ ps) = let rest = remove pid ps in if eqb p pid then rest else p ∷ rest

-- A process ends, of itself, by the signal or by Kill.
unfoldable pub exit_ : ℕ → Manager → Manager
unfolding remove
exit_ pid m = record m { alive = remove pid m.alive }

-- The first task of each kind for a process, and the others.
unfoldable pub take_waiting : ℕ → List Task → Option Entry
take_waiting pid [] = none
take_waiting pid (waiting e ∷ ts) =
    let later = take_waiting pid ts in if eqb e.pid pid then some e else later
take_waiting pid (restarting e ∷ ts) = take_waiting pid ts
take_waiting pid (stopping n p ∷ ts) = take_waiting pid ts

drop_waiting : ℕ → List Task → List Task
drop_waiting pid [] = []
drop_waiting pid (waiting e ∷ ts) =
    let rest = drop_waiting pid ts in if eqb e.pid pid then ts else waiting e ∷ rest
drop_waiting pid (restarting e ∷ ts) = restarting e ∷ drop_waiting pid ts
drop_waiting pid (stopping n p ∷ ts) = stopping n p ∷ drop_waiting pid ts

take_restarting : ℕ → List Task → Option Entry
take_restarting pid [] = none
take_restarting pid (restarting e ∷ ts) =
    let later = take_restarting pid ts in if eqb e.pid pid then some e else later
take_restarting pid (waiting e ∷ ts) = take_restarting pid ts
take_restarting pid (stopping n p ∷ ts) = take_restarting pid ts

drop_restarting : ℕ → List Task → List Task
drop_restarting pid [] = []
drop_restarting pid (restarting e ∷ ts) =
    let rest = drop_restarting pid ts in if eqb e.pid pid then ts else restarting e ∷ rest
drop_restarting pid (waiting e ∷ ts) = waiting e ∷ drop_restarting pid ts
drop_restarting pid (stopping n p ∷ ts) = stopping n p ∷ drop_restarting pid ts

take_stopping : ℕ → List Task → Option String
take_stopping pid [] = none
take_stopping pid (stopping n p ∷ ts) =
    let later = take_stopping pid ts in if eqb p pid then some n else later
take_stopping pid (waiting e ∷ ts) = take_stopping pid ts
take_stopping pid (restarting e ∷ ts) = take_stopping pid ts

drop_stopping : ℕ → List Task → List Task
drop_stopping pid [] = []
drop_stopping pid (stopping n p ∷ ts) =
    let rest = drop_stopping pid ts in if eqb p pid then ts else stopping n p ∷ rest
drop_stopping pid (waiting e ∷ ts) = waiting e ∷ drop_stopping pid ts
drop_stopping pid (restarting e ∷ ts) = restarting e ∷ drop_stopping pid ts

unfoldable pub is_alive : ℕ → List ℕ → Bool
is_alive pid [] = false
is_alive pid (p ∷ ps) = eqb p pid || is_alive pid ps

-- Stop after its `select`: the name is deleted, whatever entry it has by then.
unfoldable pub stop_end : ℕ → Manager → Manager
unfolding take_stopping drop_stopping
stop_end pid m = elim (take_stopping pid m.tasks) [
  | none ↦ m
  | some name ↦ record m { processes = erase name m.processes; tasks = drop_stopping pid m.tasks }
]

woken : Entry → Manager → Manager
woken e m = if m.cancelled then record m { tasks = drop_waiting e.pid m.tasks } else record m {
  processes = erase e.name m.processes;
  tasks = restarting e ∷ drop_waiting e.pid m.tasks;
}

-- watch after cmd.Wait returns, up to its call of Start: the name is deleted, whatever entry it has.
unfoldable pub watch_wake : ℕ → Manager → Manager
unfolding take_waiting drop_waiting woken is_alive
watch_wake pid m =
    if is_alive pid m.alive
    then m
    else elim (take_waiting pid m.tasks) [ none ↦ m | some e ↦ woken e m ]

-- watch's call of Start.
unfoldable pub watch_restart : Option String → ℕ → Manager → Manager
unfolding take_restarting drop_restarting start
watch_restart fault pid m = elim (take_restarting pid m.tasks) [
  | none ↦ m
  | some e ↦ (start fault e.name e.bin e.args (record m { tasks = drop_restarting pid m.tasks })).0
]

pub data Event : Type 0 where
  call_start : Option String → String → String → List String → Event
  call_stop : String → Event
  stopped : ℕ → Event
  exited : ℕ → Event
  woke : ℕ → Event
  restarted : Option String → ℕ → Event
  cancel : Event

unfoldable pub step : Event → Manager → Manager
step (call_start fault name bin args) m = (start fault name bin args m).0
step (call_stop name) m = stop_begin name m
step (stopped pid) m = stop_end pid m
step (exited pid) m = exit_ pid m
step (woke pid) m = watch_wake pid m
step (restarted fault pid) m = watch_restart fault pid m
step cancel m = record m { cancelled = true }

unfoldable pub run : List Event → Manager → Manager
unfolding step
run [] m = m
run (e ∷ es) m = run es (step e m)
