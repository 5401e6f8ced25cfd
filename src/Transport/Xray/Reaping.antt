-- ===== src/Transport/Xray/Reaping.antt =====
-- What the status of internal/transport/xray/provider.go says of the process, whatever the
-- interleaving of calls, exits and goroutines.
use ghost_node.Prelude.{
  ℕ, ◌+◌, String, ◌≡◌, refl, ◌∙◌, inl, inr, true, false, ◌&&◌, not, Option, some, List, [], ◌∷◌,
  ◌++◌, arith, ltb, eqb, eqb_refl, Bool-cases,
}
use ghost_node.Transport.{stopped, running}
use ghost_node.Transport.Xray.{
  child, Engine, without, among, is_running, Launch, no_binary, not_started, not_ready, ready,
  launch, start, ended, stop, reap, exit_, Event, starts, stops, exits, reaps, step, run,
  health_check, not_running, reload,
}

-- A running engine has a child, and a goroutine that will reap it.
abbrev pub IsReaped : Engine → Type 0
IsReaped e = e.status ≡ running → (pid : ℕ) × (e.command ≡ child pid) × (among pid e.reapers ≡ true)

launch-IsReaped : (l : Launch) (e : Engine) → IsReaped e → IsReaped (launch l e).0
unfolding launch among
launch-IsReaped no_binary e h = h
launch-IsReaped not_started e h = λ r. absurd (ground arith)
launch-IsReaped not_ready e h = λ r. absurd (ground arith)
launch-IsReaped ready e h = λ r. (e.next, refl, rw (eqb_refl e.next) refl)

start-IsReaped : (l : Launch) (e : Engine) → IsReaped e → IsReaped (start l e).0
unfolding start
start-IsReaped l e h = elim (Bool-cases (is_running e.status)) [
  | inl y ↦ rw y h
  | inr n ↦ rw n (launch-IsReaped l e h)
]

reap-IsReaped : (pid : ℕ) (e : Engine) → IsReaped e → IsReaped (reap pid e)
unfolding reap
reap-IsReaped pid e h = elim (Bool-cases (among pid e.reapers && not (among pid e.alive))) [
  | inl y ↦ rw y (λ r. absurd (ground arith))
  | inr n ↦ rw n h
]

step-IsReaped : (x : Event) (e : Engine) → IsReaped e → IsReaped (step x e)
unfolding step stop exit_
step-IsReaped (starts l) e h = start-IsReaped l e h
step-IsReaped stops e h = λ r. absurd (ground arith)
step-IsReaped (exits pid) e h = h
step-IsReaped (reaps pid) e h = reap-IsReaped pid e h

-- Whatever the order of calls, exits and goroutines, a running engine holds a child whose goroutine
-- has still to set the status.
pub run-IsReaped : (xs : List Event) (e : Engine) → IsReaped e → IsReaped (run xs e)
unfolding run
run-IsReaped [] e h = h
run-IsReaped (x ∷ xs) e h = run-IsReaped xs _ (step-IsReaped x e h)

among-without : (pid : ℕ) (ps : List ℕ) → among pid (without pid ps) ≡ false
unfolding among without
among-without pid [] = refl
among-without pid (p ∷ ps) = elim (Bool-cases (eqb p pid)) [
  | inl y ↦ rw y (among-without pid ps)
  | inr n ↦ rw (n, among, n) (among-without pid ps)
]

-- The engine is healthy again only after a Start: once the child of a running engine has exited and
-- been reaped, HealthCheck fails whatever the port answers.
pub exit_noticed :
    (e : Engine) (pid : ℕ) (dial : Option String)
    → among pid e.reapers ≡ true
    → health_check dial (run (exits pid ∷ reaps pid ∷ []) e) ≡ some (not_running stopped)
unfolding run step exit_ reap health_check is_running
exit_noticed e pid dial h = rw (h, among-without pid e.alive) refl

reap_done :
    (pid : ℕ) (e : Engine)
    → among pid e.reapers ≡ true
    → among pid e.alive ≡ false
    → reap pid e ≡ record e { status = stopped; reapers = without pid e.reapers }
unfolding reap
reap_done pid e waits gone = rw (waits, gone) refl

among_later : (pid n : ℕ) (ps : List ℕ) → ltb pid n ≡ true → among pid (n ∷ ps) ≡ among pid ps
unfolding among
among_later pid n ps old = let other : eqb n pid ≡ false = ground arith in rw other refl

-- A reload whose new process is ready, and the goroutine of the old process after it: the new process
-- runs, and the engine says that it is stopped.
pub reload_misreports :
    (e : Engine) (pid : ℕ) (dial : Option String)
    → e.command ≡ child pid
    → among pid e.reapers ≡ true
    → ltb pid e.next ≡ true
    → let after = run (reload ready ++ reaps pid ∷ []) e in
      (among e.next after.alive ≡ true)
      × (health_check dial after ≡ some (not_running stopped))
      × ((start ready after).0.alive ≡ (e.next + 1) ∷ e.next ∷ without pid e.alive)
unfolding run step stop start launch reap health_check is_running among ended
reload_misreports e pid dial held waits old =
    let fresh : Engine = record {
      command = child e.next;
      status = running;
      alive = e.next ∷ without pid e.alive;
      reapers = e.next ∷ e.reapers;
      next = e.next + 1;
    } in
    let reaped =
      reap_done pid fresh (among_later pid e.next e.reapers old ∙ waits)
        (among_later pid e.next (without pid e.alive) old ∙ among-without pid e.alive) in
    rw (held, reaped) (rw (eqb_refl e.next) refl, refl, refl)
