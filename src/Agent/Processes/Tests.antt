-- ===== src/Agent/Processes/Tests.antt =====
-- Runs of the model of internal/agent/process_manager.go, and instances of its theorems.
use ghost_node.Prelude.{◌+◌, ◌≡◌, refl, true, false, none, some, [], ◌∷◌, arith, lookup, insert}
use ghost_node.Agent.Processes.{
  Entry, waiting, Manager, new_manager, start, step, run, call_start, call_stop, exited, stopped,
  woke, restarted, take_waiting, is_alive, launch,
}
use ghost_node.Agent.Processes.Watching.{IsWatched, run-IsWatched}
use ghost_node.Agent.Processes.Restarts.{reborn, reload_duplicates}

abbrev xray : Entry
xray = record { name = "xray"; bin = "/usr/local/bin/xray"; args = "run" ∷ []; pid = 1 }

-- One process, watched.
abbrev one : Manager
one = record {
  processes = ("xray", xray) ∷ [];
  tasks = waiting xray ∷ [];
  alive = 1 ∷ [];
  next_pid = 2;
  cancelled = false;
}

-- The same after the process exited.
abbrev fallen : Manager
fallen = record one { alive = [] }

first_start : run (call_start none "xray" "/usr/local/bin/xray" ("run" ∷ []) ∷ []) new_manager ≡ one
unfolding run step start launch lookup ghost_node.Prelude.insert
first_start = refl

second_start : start none "xray" "other" [] one ≡ (one, none)
unfolding start lookup
second_start = refl

new_manager-IsWatched : IsWatched new_manager
new_manager-IsWatched = _

run-IsWatched_example : IsWatched (
    run
      (call_start none "xray" "/usr/local/bin/xray" ("run" ∷ []) ∷ exited 1 ∷ woke 1 ∷ [])
      new_manager)
run-IsWatched_example =
    run-IsWatched
      (call_start none "xray" "/usr/local/bin/xray" ("run" ∷ []) ∷ exited 1 ∷ woke 1 ∷ [])
      new_manager new_manager-IsWatched

waits : take_waiting 1 one.tasks ≡ some xray
unfolding take_waiting
waits = refl

tracked : lookup "xray" one.processes ≡ some xray
unfolding lookup
tracked = refl

dead : is_alive 1 fallen.alive ≡ false
unfolding is_alive
dead = refl

reload_duplicates_example :
    let reloaded =
      run (call_stop "xray" ∷ exited 1 ∷ stopped 1 ∷ call_start none "xray" "new" [] ∷ []) one in
    let later = run (woke 1 ∷ restarted none 1 ∷ []) reloaded in
    (is_alive 2 later.alive ≡ true)
    × (is_alive (2 + 1) later.alive ≡ true)
    × (lookup "xray" later.processes ≡ some (reborn xray (2 + 1)))
reload_duplicates_example =
    reload_duplicates one "xray" "new" [] xray tracked refl waits (omega arith) refl
