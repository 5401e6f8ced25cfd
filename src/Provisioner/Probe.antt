-- ===== src/Provisioner/Probe.antt =====
-- internal/provisioner/probe.go: the reachability probe of a fresh address. What the network and
-- the context do in each round is an argument: a dial's latency or error, and whether the context
-- ends during the pause before the round.
pub mod Outcome
mod Tests
use ghost_node.Prelude.{
  ℕ, zero, suc, ◌+◌, ◌/◌, String, Bool, true, false, not, Option, none, some, ltb, if◌then◌else◌,
  Result, ok, err,
}
use ghost_node.Prelude.Int.{ℤ, pos, negsuc}

pub record ProbeResult : Type 0 where
  pub attempted : Bool
  pub reachable : Bool
  pub latency : ℕ
  pub error : Option String

-- What happens in round i: `pause i` is ctx.Err() if the context is done first, and `dial i` the
-- result of DialContext.
pub record Network : Type 0 where
  pub pause : ℕ → Option String
  pub dial : ℕ → Result String ℕ

abbrev pub skipped : ProbeResult
skipped = record { attempted = false; reachable = false; latency = 0; error = none }

abbrev pub started : ProbeResult
started = record { attempted = true; reachable = false; latency = 0; error = none }

-- `if i > 0` waits two seconds, or returns when the context is done.
pause_before : Network → ℕ → Option String
pause_before net i = if ltb 0 i then net.pause i else none

-- The rounds i, i + 1, … of the loop, `left` of them.
rounds : Network → ℕ → ℕ → ProbeResult → ProbeResult
rounds net zero i result = result
rounds net (suc left) i result = elim (pause_before net i) [
  | some done ↦ record result { error = some done }
  | none ↦ elim (net.dial i) [
    | err e ↦ rounds net left (i + 1) (record result { error = some e })
    | ok latency ↦ record result { reachable = true; latency = latency; error = none }
  ]
]

-- `if attempts < 1 { attempts = 1 }`
abbrev pub at_least_one : ℤ → ℕ
at_least_one (pos n) = if ltb n 1 then 1 else n
at_least_one (negsuc n) = 1

-- ProbeTCP
unfoldable pub probe_tcp : Network → ℤ → ProbeResult
unfolding rounds pause_before
probe_tcp net attempts = rounds net (at_least_one attempts) 0 started

-- ProbeResult.String, with the texts of the numbers and errors left as they are.
pub data Summary : Type 0 where
  was_skipped : Summary
  was_reachable : ℕ → Summary
  was_unreachable : Option String → Summary

pub summary : ProbeResult → Summary
summary p =
    if not p.attempted
    then was_skipped
    else if p.reachable
    then was_reachable (p.latency / 1_000_000)
    else was_unreachable p.error
