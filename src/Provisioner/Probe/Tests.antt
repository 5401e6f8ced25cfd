-- ===== src/Provisioner/Probe/Tests.antt =====
-- Runs of the model of internal/provisioner/probe.go, and instances of its theorems.
use ghost_node.Prelude.{ℕ, ◌≡◌, refl, true, false, none, eqb, if◌then◌else◌, ok, err}
use ghost_node.Prelude.Int.{pos, negsuc}
use ghost_node.Provisioner.Probe.{Network, probe_tcp}
use ghost_node.Provisioner.Probe.Outcome.{IsFirst, probe_tcp_sound}

-- The first dial is refused, the second connects in 7 ms.
abbrev second_connects : Network
second_connects = record {
  pause = λ i. none;
  dial = λ i. if eqb i 1 then ok 7_000_000 else err "refused";
}

abbrev all_refused : Network
all_refused = record { pause = λ i. none; dial = λ i. err "refused" }

connects : (probe_tcp second_connects (pos 2)).reachable ≡ true
unfolding probe_tcp
connects = refl

probe_tcp_sound_example :
    (k : ℕ) × IsFirst second_connects 0 2 k (probe_tcp second_connects (pos 2)).latency
probe_tcp_sound_example = probe_tcp_sound second_connects (pos 2) connects

refused : (probe_tcp all_refused (negsuc 3)).reachable ≡ false
unfolding probe_tcp
refused = refl
