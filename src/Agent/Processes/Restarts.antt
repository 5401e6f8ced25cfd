-- ===== src/Agent/Processes/Restarts.antt =====
-- What `watch` of internal/agent/process_manager.go does after an exit, also after one that Stop
-- brought about.
use ghost_node.Prelude.{
  ℕ, ◌+◌, ◌<◌, String, ◌≡◌, refl, sym, ap, subst, true, false, none, some, List, [], ◌∷◌, arith,
  eq_iff, eqb_refl, lookup, erase, lookup-insert, lookup-erase,
}
use ghost_node.Agent.Processes.{
  Entry, Task, waiting, restarting, stopping, Manager, is_running, start, stop_begin, remove, exit_,
  take_waiting, drop_waiting, is_alive, stop_end, watch_wake, watch_restart, call_start, call_stop,
  stopped, exited, woke, restarted, run, launch,
}

pub take_waiting-pid :
    (pid : ℕ) (ts : List Task) (e : Entry) → take_waiting pid ts ≡ some e → e.pid ≡ pid
unfolding take_waiting
take_waiting-pid pid [] e h = cc
take_waiting-pid pid (waiting f ∷ ts) e h = ground (arith, take_waiting-pid pid ts e)
take_waiting-pid pid (restarting f ∷ ts) e h = take_waiting-pid pid ts e h
take_waiting-pid pid (stopping n p ∷ ts) e h = take_waiting-pid pid ts e h

is_alive-remove : (pid : ℕ) (ps : List ℕ) → is_alive pid (remove pid ps) ≡ false
unfolding is_alive remove
is_alive-remove pid [] = refl
is_alive-remove pid (p ∷ ps) = ground (arith, is_alive-remove pid ps)

-- Stop, when the process exits and Stop sees it.
pub stop_run :
    (m : Manager) (name : String) (e : Entry)
    → lookup name m.processes ≡ some e
    → run (call_stop name ∷ exited e.pid ∷ stopped e.pid ∷ []) m
      ≡ record m { processes = erase name m.processes; alive = remove e.pid m.alive }
unfolding run stop_begin exit_ stop_end
stop_run m name e found = ground arith

-- The two halves of `watch`, when the name is free by then.
watch_run :
    (m : Manager) (e : Entry)
    → take_waiting e.pid m.tasks ≡ some e
    → is_alive e.pid m.alive ≡ false
    → m.cancelled ≡ false
    → watch_restart none e.pid (watch_wake e.pid m)
      ≡ launch e.name e.bin e.args
          (record m { processes = erase e.name m.processes; tasks = drop_waiting e.pid m.tasks })
unfolding watch_wake watch_restart start
watch_run m e task dead live =
    ground (arith, lookup-erase e.name e.name m.processes, eq_iff e.name e.name)

alive-watch :
    (m : Manager) (e : Entry)
    → take_waiting e.pid m.tasks ≡ some e
    → is_alive e.pid m.alive ≡ false
    → m.cancelled ≡ false
    → (run (woke e.pid ∷ restarted none e.pid ∷ []) m).alive ≡ m.next_pid ∷ m.alive
unfolding run launch
alive-watch m e task dead live = ap (λ (x : Manager). x.alive) (watch_run m e task dead live)

-- Where the context is not cancelled, the two halves of `watch` run one after the other, and the
-- program can be started, a watched process that has exited is started again: its name is tracked,
-- with a new process that runs the same program.
watch_restarts :
    (m : Manager) (e : Entry)
    → take_waiting e.pid m.tasks ≡ some e
    → is_alive e.pid m.alive ≡ false
    → m.cancelled ≡ false
    → let after = run (woke e.pid ∷ restarted none e.pid ∷ []) m in
      (lookup e.name after.processes ≡ some (record e { pid = m.next_pid }))
      × (is_alive m.next_pid after.alive ≡ true)
unfolding run
watch_restarts m e task dead live = rw (watch_run m e task dead live) (
    unfold launch is_alive in
    (
      ground (
        arith,
        lookup-insert e.name e.name (record e { pid = m.next_pid }) (erase e.name m.processes),
        eq_iff e.name e.name,
      ),
      ground (arith, eqb_refl m.next_pid),
    ))

-- The program that `e` runs, as another process.
abbrev pub reborn : Entry → ℕ → Entry
reborn e pid = record e { pid = pid }

-- Stop is undone: where nobody cancels the context, the goroutine that watches the stopped process
-- takes the exit for an unexpected one, and the process that Stop ended runs again under its name.
pub stop_undone :
    (m : Manager) (name : String) (e : Entry)
    → lookup name m.processes ≡ some e
    → e.name ≡ name
    → take_waiting e.pid m.tasks ≡ some e
    → m.cancelled ≡ false
    → let stopped_ = run (call_stop name ∷ exited e.pid ∷ stopped e.pid ∷ []) m in
      let later = run (woke e.pid ∷ restarted none e.pid ∷ []) stopped_ in
      (is_running name stopped_ ≡ false)
      × (lookup name later.processes ≡ some (reborn e m.next_pid))
      × (is_alive m.next_pid later.alive ≡ true)
stop_undone m name e found same task live =
    let m' : Manager = record m {
      processes = erase name m.processes;
      alive = remove e.pid m.alive;
    } in
    let again_ = watch_restarts m' e task (is_alive-remove e.pid m.alive) live in
    rw (stop_run m name e found) (
      unfold is_running in ground (arith, lookup-erase name name m.processes, eq_iff name name),
      subst
          (λ n.
            lookup n (run (woke e.pid ∷ restarted none e.pid ∷ []) m').processes
            ≡ some (reborn e m.next_pid))
          same again_.0,
      again_.1,
    )

reload_run :
    (m : Manager) (name bin : String) (args : List String) (e : Entry)
    → lookup name m.processes ≡ some e
    → run (call_stop name ∷ exited e.pid ∷ stopped e.pid ∷ call_start none name bin args ∷ []) m
      ≡ launch name bin args
          (record m { processes = erase name m.processes; alive = remove e.pid m.alive })
unfolding run stop_begin exit_ stop_end start
reload_run m name bin args e found =
    ground (arith, lookup-erase name name m.processes, eq_iff name name)

-- On this schedule a change of configuration leaves two processes for one name: Stop signals the
-- process, which exits, and Stop returns; Start launches the new program; only then the goroutine that
-- watches the old process wakes, and restarts it, where both programs can be started and nobody
-- cancels the context. The new process runs on, untracked, and the name is tracked with a third
-- process, of the old program.
pub reload_duplicates :
    (m : Manager) (name bin : String) (args : List String) (e : Entry)
    → lookup name m.processes ≡ some e
    → e.name ≡ name
    → take_waiting e.pid m.tasks ≡ some e
    → e.pid < m.next_pid
    → m.cancelled ≡ false
    → let reloaded =
        run
          (call_stop name ∷ exited e.pid ∷ stopped e.pid ∷ call_start none name bin args ∷ [])
          m in
      let later = run (woke e.pid ∷ restarted none e.pid ∷ []) reloaded in
      (is_alive m.next_pid later.alive ≡ true)
      × (is_alive (m.next_pid + 1) later.alive ≡ true)
      × (lookup name later.processes ≡ some (reborn e (m.next_pid + 1)))
reload_duplicates m name bin args e found same task old live =
    let m' : Manager =
      launch name bin args
        (record m { processes = erase name m.processes; alive = remove e.pid m.alive }) in
    let still : take_waiting e.pid m'.tasks ≡ some e =
      (unfold launch take_waiting in ground arith) in
    let dead : is_alive e.pid m'.alive ≡ false =
      (unfold launch is_alive in ground (arith, is_alive-remove e.pid m.alive)) in
    let uncancelled : m'.cancelled ≡ false = (unfold launch in live) in
    let again_ = watch_restarts m' e still dead uncancelled in
    rw (reload_run m name bin args e found) (
      subst (λ ps. is_alive m.next_pid ps ≡ true) (sym (alive-watch m' e still dead uncancelled))
          (unfold launch is_alive in ground arith),
      (unfold launch in again_.1),
      subst
          (λ n.
            lookup n (run (woke e.pid ∷ restarted none e.pid ∷ []) m').processes
            ≡ some (reborn e (m.next_pid + 1)))
          same (unfold launch in again_.0),
    )
