-- ===== src/Transport/Xray/Tests.antt =====
-- Runs of the model of internal/transport/xray/provider.go, and instances of its theorems.
use ghost_node.Prelude.{◌*◌, ◌≡◌, refl, true, none, some, [], ◌∷◌, ◌++◌, arith}
use ghost_node.Transport.{stopped, running}
use ghost_node.Transport.Xray.{
  child, Engine, new_engine, among, without, is_running, ready, launch, start, starts, stops, exits,
  reaps, step, run, health_check, not_running, reload,
}
use ghost_node.Transport.Xray.Reaping.{IsReaped, run-IsReaped, reload_misreports}
use ghost_node.Transport.Xray.Readiness.{Pauses}

abbrev started : Engine
started = record { command = child 0; status = running; alive = 0 ∷ []; reapers = 0 ∷ []; next = 1 }

start_run : run (starts ready ∷ starts ready ∷ []) new_engine ≡ started
unfolding run step start launch is_running
start_run = refl

started-IsReaped : IsReaped started
unfolding among
started-IsReaped = λ r. (0, refl, refl)

run-IsReaped_example : IsReaped (run (stops ∷ starts ready ∷ reaps 0 ∷ exits 1 ∷ []) started)
run-IsReaped_example =
    run-IsReaped (stops ∷ starts ready ∷ reaps 0 ∷ exits 1 ∷ []) started started-IsReaped

reload_misreports_example :
    let after = run (reload ready ++ reaps 0 ∷ []) started in
    (among 1 after.alive ≡ true)
    × (health_check none after ≡ some (not_running stopped))
    × ((start ready after).0.alive ≡ 2 ∷ 1 ∷ without 0 (0 ∷ []))
unfolding among
reload_misreports_example = reload_misreports started 0 none refl refl refl

ticks : Pauses (λ i. i * 200)
ticks i = omega arith
