-- ===== src/Agent/Processes/Watching.antt =====
-- Every process that internal/agent/process_manager.go tracks has a goroutine that waits for it.
use ghost_node.Prelude.{
  ℕ, String, ◌≡◌, refl, sym, subst, ◌≢◌, inl, inr, false, Option, some, List, [], ◌∷◌, arith, ◌==◌,
  eq_iff, eqb, Bool-cases, Option-cases, All, Some, lookup, insert, erase, All-map,
}
use ghost_node.Agent.Processes.Restarts.{take_waiting-pid}
use ghost_node.Agent.Processes.{
  is_alive, Entry, Task, waiting, restarting, stopping, Manager, start, stop_begin, exit_,
  take_waiting, drop_waiting, take_stopping, drop_stopping, take_restarting, drop_restarting,
  stop_end, watch_wake, watch_restart, woken, Event, call_start, call_stop, stopped, exited, woke,
  restarted, cancel, step, run, launch,
}

abbrev pub HasWatcher : Entry → List Task → Type 0
HasWatcher e ts = Some (λ t. t ≡ waiting e) ts

-- Each entry stands under its own name and is watched.
abbrev pub AllWatched : List (String × Entry) → List Task → Type 0
AllWatched ps ts = All (λ x. (x.1.name ≡ x.0) × HasWatcher x.1 ts) ps

-- So it is as long as the context is not cancelled.
abbrev pub IsWatched : Manager → Type 0
IsWatched m = m.cancelled ≡ false → AllWatched m.processes m.tasks

AllWatched-mono :
    (ps : List (String × Entry)) (ts us : List Task)
    → ((e : Entry) → HasWatcher e ts → HasWatcher e us)
    → AllWatched ps ts
    → AllWatched ps us
AllWatched-mono ps ts us f =
    All-map (λ (x : String × Entry). (x.1.name ≡ x.0) × HasWatcher x.1 ts)
      (λ x. (x.1.name ≡ x.0) × HasWatcher x.1 us) ps (λ x h. (h.0, f x.1 h.1))

AllWatched-insert :
    (ps : List (String × Entry)) (ts : List Task) (name : String) (e : Entry)
    → e.name ≡ name
    → HasWatcher e ts
    → AllWatched ps ts
    → AllWatched (insert name e ps) ts
unfolding insert
AllWatched-insert [] ts name e same w h = ((same, w), tt)
AllWatched-insert ((k, f) ∷ ps) ts name e same w h = elim (Bool-cases (k == name)) [
  | inl eq ↦ rw eq ((same, w), h.1)
  | inr ne ↦ rw ne (h.0, AllWatched-insert ps ts name e same w h.1)
]

AllWatched-erase :
    (ps : List (String × Entry)) (ts us : List Task) (name : String)
    → ((e : Entry) → e.name ≢ name → HasWatcher e ts → HasWatcher e us)
    → AllWatched ps ts
    → AllWatched (erase name ps) us
unfolding erase
AllWatched-erase [] ts us name f h = tt
AllWatched-erase ((k, e) ∷ ps) ts us name f h = elim (Bool-cases (k == name)) [
  | inl eq ↦ rw eq (AllWatched-erase ps ts us name f h.1)
  | inr ne ↦ rw ne (
    (h.0.0, f e (λ q. ground (arith, eq_iff k name, h.0.0)) h.0.1),
    AllWatched-erase ps ts us name f h.1,
  )
]

drop_stopping-watcher :
    (pid : ℕ) (ts : List Task) (e : Entry) → HasWatcher e ts → HasWatcher e (drop_stopping pid ts)
unfolding drop_stopping
drop_stopping-watcher pid [] e h = h
drop_stopping-watcher pid (waiting f ∷ ts) e (inl h) = inl h
drop_stopping-watcher pid (waiting f ∷ ts) e (inr h) = inr (drop_stopping-watcher pid ts e h)
drop_stopping-watcher pid (restarting f ∷ ts) e (inl h) = absurd (cc)
drop_stopping-watcher pid (restarting f ∷ ts) e (inr h) = inr (drop_stopping-watcher pid ts e h)
drop_stopping-watcher pid (stopping n p ∷ ts) e (inl h) = absurd (cc)
drop_stopping-watcher pid (stopping n p ∷ ts) e (inr h) =
    ground (arith, drop_stopping-watcher pid ts e h)

drop_restarting-watcher :
    (pid : ℕ) (ts : List Task) (e : Entry) → HasWatcher e ts → HasWatcher e (drop_restarting pid ts)
unfolding drop_restarting
drop_restarting-watcher pid [] e h = h
drop_restarting-watcher pid (waiting f ∷ ts) e (inl h) = inl h
drop_restarting-watcher pid (waiting f ∷ ts) e (inr h) = inr (drop_restarting-watcher pid ts e h)
drop_restarting-watcher pid (stopping n p ∷ ts) e (inl h) = absurd (cc)
drop_restarting-watcher pid (stopping n p ∷ ts) e (inr h) = inr (drop_restarting-watcher pid ts e h)
drop_restarting-watcher pid (restarting f ∷ ts) e (inl h) = absurd (cc)
drop_restarting-watcher pid (restarting f ∷ ts) e (inr h) =
    ground (arith, drop_restarting-watcher pid ts e h)

-- Only the watcher of the entry that was taken is dropped.
drop_waiting-watcher :
    (pid : ℕ) (ts : List Task) (e f : Entry)
    → take_waiting pid ts ≡ some f
    → e.name ≢ f.name
    → HasWatcher e ts
    → HasWatcher e (drop_waiting pid ts)
unfolding take_waiting drop_waiting
drop_waiting-watcher pid [] e f t ne h = h
drop_waiting-watcher pid (restarting g ∷ ts) e f t ne (inl h) = absurd (cc)
drop_waiting-watcher pid (restarting g ∷ ts) e f t ne (inr h) =
    inr (drop_waiting-watcher pid ts e f t ne h)
drop_waiting-watcher pid (stopping n p ∷ ts) e f t ne (inl h) = absurd (cc)
drop_waiting-watcher pid (stopping n p ∷ ts) e f t ne (inr h) =
    inr (drop_waiting-watcher pid ts e f t ne h)
drop_waiting-watcher pid (waiting g ∷ ts) e f t ne (inl h) = elim (Bool-cases (eqb g.pid pid)) [
  | inl eq ↦ absurd (ground arith)
  | inr other ↦ rw other (inl h)
]
drop_waiting-watcher pid (waiting g ∷ ts) e f t ne (inr h) =
    ground (arith, drop_waiting-watcher pid ts e f)

launch-IsWatched :
    (name bin : String) (args : List String) (m : Manager)
    → IsWatched m
    → IsWatched (launch name bin args m)
unfolding launch
launch-IsWatched name bin args m h live =
    let e : Entry = record { name = name; bin = bin; args = args; pid = m.next_pid } in
    AllWatched-insert m.processes (waiting e ∷ m.tasks) name e refl (inl refl)
      (AllWatched-mono m.processes m.tasks (waiting e ∷ m.tasks) (λ f w. inr w) (h live))

start-IsWatched :
    (fault : Option String) (name bin : String) (args : List String) (m : Manager)
    → IsWatched m
    → IsWatched (start fault name bin args m).0
unfolding start
start-IsWatched fault name bin args m h = elim (Option-cases (lookup name m.processes)) [
  | inr (e, found) ↦ rw (found, start) h
  | inl free ↦ elim (Option-cases fault) [
    | inr (x, bad) ↦ rw (free, bad, start) h
    | inl good ↦ rw (free, good, start) (launch-IsWatched name bin args m h)
  ]
]

stop_begin-IsWatched : (name : String) (m : Manager) → IsWatched m → IsWatched (stop_begin name m)
unfolding stop_begin
stop_begin-IsWatched name m h = elim (Option-cases (lookup name m.processes)) [
  | inl free ↦ rw (free, stop_begin) h
  | inr (e, found) ↦
      rw (found, stop_begin)
        (λ live.
          AllWatched-mono m.processes m.tasks (stopping name e.pid ∷ m.tasks) (λ f w. inr w)
            (h live))
]

stop_end-IsWatched : (pid : ℕ) (m : Manager) → IsWatched m → IsWatched (stop_end pid m)
unfolding stop_end
stop_end-IsWatched pid m h = elim (Option-cases (take_stopping pid m.tasks)) [
  | inl gone ↦ rw (gone, stop_end) h
  | inr (name, taken) ↦
      rw (taken, stop_end)
        (λ live.
          AllWatched-erase m.processes m.tasks (drop_stopping pid m.tasks) name
            (λ e ne w. drop_stopping-watcher pid m.tasks e w) (h live))
]

woken-IsWatched :
    (pid : ℕ) (e : Entry) (m : Manager)
    → take_waiting pid m.tasks ≡ some e
    → IsWatched m
    → IsWatched (woken e m)
unfolding woken
woken-IsWatched pid e m taken h = elim (Bool-cases m.cancelled) [
  | inl done ↦ rw (done, woken) (λ live. absurd (cc))
  | inr going ↦
      rw (going, woken)
        (λ live.
          AllWatched-erase m.processes m.tasks (restarting e ∷ drop_waiting e.pid m.tasks) e.name
            (λ f ne w. inr (
              drop_waiting-watcher e.pid m.tasks f e
                (subst (λ p. take_waiting p m.tasks ≡ some e)
                  (sym (take_waiting-pid pid m.tasks e taken)) taken)
                ne w))
            (h going))
]

watch_wake-IsWatched : (pid : ℕ) (m : Manager) → IsWatched m → IsWatched (watch_wake pid m)
unfolding watch_wake woken
watch_wake-IsWatched pid m h = elim (Bool-cases (is_alive pid m.alive)) [
  | inl up ↦ rw (up, watch_wake) h
  | inr dead ↦ elim (Option-cases (take_waiting pid m.tasks)) [
    | inl gone ↦ rw (dead, gone, watch_wake) h
    | inr (e, taken) ↦ rw (dead, taken, watch_wake) (woken-IsWatched pid e m taken h)
  ]
]

watch_restart-IsWatched :
    (fault : Option String) (pid : ℕ) (m : Manager)
    → IsWatched m
    → IsWatched (watch_restart fault pid m)
unfolding watch_restart
watch_restart-IsWatched fault pid m h = elim (Option-cases (take_restarting pid m.tasks)) [
  | inl gone ↦ rw (gone, watch_restart) h
  | inr (e, taken) ↦
      rw (taken, watch_restart)
        (start-IsWatched fault e.name e.bin e.args
          (record m { tasks = drop_restarting pid m.tasks })
          (λ live.
            AllWatched-mono m.processes m.tasks (drop_restarting pid m.tasks)
              (drop_restarting-watcher pid m.tasks) (h live)))
]

step-IsWatched : (e : Event) (m : Manager) → IsWatched m → IsWatched (step e m)
unfolding step
step-IsWatched (call_start fault name bin args) m h = start-IsWatched fault name bin args m h
step-IsWatched (call_stop name) m h = stop_begin-IsWatched name m h
step-IsWatched (stopped pid) m h = stop_end-IsWatched pid m h
step-IsWatched (exited pid) m h = unfold exit_ in h
step-IsWatched (woke pid) m h = watch_wake-IsWatched pid m h
step-IsWatched (restarted fault pid) m h = watch_restart-IsWatched fault pid m h
step-IsWatched cancel m h = λ live. absurd (cc)

-- Whatever the interleaving of calls, exits and goroutines, as long as the context is not cancelled
-- each tracked process stands under its own name and has a goroutine that waits for it.
pub run-IsWatched : (es : List Event) (m : Manager) → IsWatched m → IsWatched (run es m)
unfolding run
run-IsWatched [] m h = h
run-IsWatched (e ∷ es) m h = run-IsWatched es (step e m) (step-IsWatched e m h)
