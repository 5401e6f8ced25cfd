-- ===== src/Agent/Configs/Applied.antt =====
-- What holds after internal/agent/config_manager.go applied a configuration.
use ghost_node.Prelude.{
  String, ◌≡◌, refl, inl, inr, true, none, some, List, arith, eq_iff, if◌then◌else◌, eqb_refl,
  Option-cases, lookup, insert, lookup-insert, lookup-erase,
}
use ghost_node.Agent.Processes.{Entry, Manager, is_running, start, is_alive, launch, run}
use ghost_node.Agent.Configs.{
  Host, Answers, Engine, stop, started, relaunch, written, made, apply_engine, write_failed,
}

stop-lookup :
    (answers : Answers) (name : String) (m : Manager)
    → lookup name (stop answers name m).processes ≡ none
unfolding stop
stop-lookup answers name m = elim (Option-cases (lookup name m.processes)) [
  | inl free ↦ rw (free, stop) free
  | inr (e, found) ↦
      let waited = run (answers.meanwhile name) m in
      rw (found, stop) (ground (arith, lookup-erase name name waited.processes, eq_iff name name))
]

-- The manager that relaunch starts the engine on.
abbrev cleared : Answers → String → Manager → Manager
cleared answers name m = if is_running name m then stop answers name m else m

cleared-lookup :
    (answers : Answers) (name : String) (m : Manager)
    → lookup name (cleared answers name m).processes ≡ none
unfolding is_running
cleared-lookup answers name m = elim (Option-cases (lookup name m.processes)) [
  | inl free ↦ rw (free, is_running) free
  | inr (e, found) ↦ rw (found, is_running) (stop-lookup answers name m)
]

launched :
    (name bin : String) (args : List String) (m : Manager)
    → lookup name m.processes ≡ none
    → start none name bin args m ≡ (launch name bin args m, none)
unfolding start
launched name bin args m free = rw (free, start) refl

relaunch-launch :
    (answers : Answers) (e : Engine) (h : Host)
    → answers.exec e.bin ≡ none
    → relaunch answers e h
      ≡ (record h { manager = launch e.name e.bin e.args (cleared answers e.name h.manager) }, none)
unfolding relaunch started
relaunch-launch answers e h runs =
    rw
      (
        runs,
        launched e.name e.bin e.args (cleared answers e.name h.manager)
            (cleared-lookup answers e.name h.manager),
      )
      refl

-- The engine's name is tracked, with a process that is alive and runs its program, and its file holds
-- the text.
abbrev pub IsApplied : Engine → String → Host → Type 0
IsApplied e json h =
    ((p : Entry) × (lookup e.name h.manager.processes ≡ some p)
      × (p.bin ≡ e.bin)
      × (p.args ≡ e.args)
      × (is_alive p.pid h.manager.alive ≡ true))
    × (lookup e.config_path h.files ≡ some json)

launch-IsApplied :
    (e : Engine) (json : String) (m : Manager) (files : List (String × String))
    → lookup e.config_path files ≡ some json
    → IsApplied e json (record { manager = launch e.name e.bin e.args m; files = files })
unfolding launch is_alive
launch-IsApplied e json m files held = (
  (
    record { name = e.name; bin = e.bin; args = e.args; pid = m.next_pid },
    ground (
      arith,
      lookup-insert e.name e.name
          (record { name = e.name; bin = e.bin; args = e.args; pid = m.next_pid }) m.processes,
      eq_iff e.name e.name,
    ),
    refl,
    refl,
    ground (arith, eqb_refl m.next_pid),
  ),
  held,
)

-- Where the directory can be made and the program started, applying a configuration to an engine,
-- running or not: if the file can be written, it ends without error, whatever happens while Stop
-- waits, and at its end the engine's program runs under its name and its file holds the
-- configuration; if not, it ends with that error, and has stopped and started nothing.
pub apply_engine-IsApplied :
    (answers : Answers) (e : Engine) (json : String) (h : Host)
    → answers.mkdir e.directory ≡ none
    → answers.exec e.bin ≡ none
    → (answers.write e.config_path ≡ none
        → ((apply_engine answers e json h).1 ≡ none)
          × IsApplied e json (apply_engine answers e json h).0)
      × ((error left : String)
          → answers.write e.config_path ≡ some (error, left)
          → ((apply_engine answers e json h).1 ≡ some (write_failed error))
            × ((apply_engine answers e json h).0.manager ≡ h.manager))
unfolding apply_engine made written
apply_engine-IsApplied answers e json h makes runs =
    let h' : Host = record h { files = insert e.config_path json h.files } in
    rw (makes, made)
      (
        (λ writes.
            rw (writes, written)
              (rw (relaunch-launch answers e h' runs) (
                refl,
                launch-IsApplied e json (cleared answers e.name h.manager)
                    (insert e.config_path json h.files)
                    (ground (
                      arith,
                      lookup-insert e.config_path e.config_path json h.files,
                      eq_iff e.config_path e.config_path,
                    )),
              ))),
        (λ error left fails. rw (fails, written) (refl, refl)),
      )
