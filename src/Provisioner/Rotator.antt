-- ===== src/Provisioner/Rotator.antt =====
-- internal/provisioner/rotator.go: draw addresses until one verifies, then run the post actions.
-- The cloud, the network, the clock and the post actions act on a state that is a parameter.
-- Progress messages are left out, and a formatted text is kept as the data that it shows.
pub mod Loop
pub mod Acceptance
pub mod Burning
pub mod Actions
mod Tests
use ghost_node.Prelude.{
  ℕ, zero, suc, ◌+◌, String, Bool, true, false, ◌&&◌, not, Option, none, some, List, [], ◌∷◌, ◌++◌,
  ◌==◌, eqb, if◌then◌else◌, insert,
}
use ghost_node.Prelude.Int.{ℤ, pos, ltb_ℤ}
use ghost_node.Provisioner.Burned.{BurnedStore, Why, add, burned}
use ghost_node.Provisioner.Probe.{ProbeResult, Network, skipped, at_least_one, probe_tcp}

pub record Target : Type 0 where
  pub name : String
  pub instance_id : String
  pub dns_record : String
  pub node_id : String
  pub probe_port : ℤ
  pub ssh_host : String

-- Target.probePort
pub probe_port_of : Target → ℤ
probe_port_of t = if ltb_ℤ (pos 0) t.probe_port then t.probe_port else pos 443

-- What Provider.RotateIP returns: the two addresses, and an error or nil.
pub record Drawn : Type 0 where
  pub old_ip : String
  pub new_ip : String
  pub error : Option String

-- An element of Result.Rejected.
pub data Rejection : Type 0 where
  near_burned : String → Why → Rejection
  unverified_kept : String → Rejection
  unreachable : String → Option String → Rejection

-- The struct Result.
pub record Rotation : Type 0 where
  pub target : Target
  pub old_ip : String
  pub new_ip : String
  pub attempts : ℕ
  pub rejected : List Rejection
  pub probe : ProbeResult
  pub post_errors : List (String × String)

-- `result.PostErrors[name] = err`, where there is an error.
pub note : String → Option String → List (String × String) → List (String × String)
note name none errors = errors
note name (some e) errors = insert name e errors

abbrev pub fresh_rotation : Target → Rotation
fresh_rotation t = record {
  target = t;
  old_ip = "";
  new_ip = "";
  attempts = 0;
  rejected = [];
  probe = skipped;
  post_errors = [];
}

-- `if oldIP != "" && result.OldIP == ""`
pub note_old : String → Rotation → Rotation
note_old ip res = if not (ip == "") && res.old_ip == "" then record res { old_ip = ip } else res

-- The world outside: its clock, and how it answers the dials of a probe of host and port.
pub record World : Type 1 where
  pub State : Type 0
  pub now : State → ℕ
  pub network : State → String → ℤ → Network
  pub probed : State → String → ℤ → State

module _ (is_ipv6 : String → Bool) (w : World) where
  open w use {State, now, network, probed}

  -- The interface Provider, as far as a rotation calls it.
  abbrev pub Provider : Type 0
  Provider = State → String → State × Drawn

  pub record PostAction : Type 0 where
    pub name : String
    pub apply : State → Target → (old new : String) → State × Option String

  pub record Rotator : Type 0 where
    pub provider : Option Provider
    pub burned_store : Option BurnedStore
    pub post : List PostAction
    pub attempts : ℤ
    pub probe : Bool
    pub probe_attempts : ℤ
    pub burn_window : ℤ

  -- The variables of Rotate beside its constants.
  pub record Session : Type 0 where
    pub state : State
    pub store : Option BurnedStore
    pub result : Rotation

  -- How one round of the loop ends: by an error, by `break`, or by going on.
  pub data Turn : Type 0 where
    failed : Session → String → Turn
    settled : Session → Turn
    again : Session → Turn

  -- `r.Burned != nil && !last`, then the verdict of the store.
  pub verdict : Rotator → Bool → State → String → Option BurnedStore → Option Why
  verdict r last st ip none = none
  verdict r last st ip (some store) =
      if last then none else burned is_ipv6 (now st) ip r.burn_window store

  pub burn : State → String → Option BurnedStore → Option BurnedStore
  burn st ip none = none
  burn st ip (some store) = some (add (now st) ip store)

  pub reject : Rejection → Session → Session
  reject x s = record s { result = record s.result { rejected = s.result.rejected ++ x ∷ [] } }

  -- From the call of ProbeTCP to the end of the round.
  pub verify : Rotator → Target → Bool → String → Session → Turn
  verify r t last ip s =
      let port = probe_port_of t in
      let p = probe_tcp (network s.state ip port) r.probe_attempts in
      let st = probed s.state ip port in
      let s' : Session = record s { state = st; result = record s.result { probe = p } } in
      let burnt : Session = record s' { store = burn st ip s.store } in
      if p.reachable
      then settled s'
      else if last
      then settled (reject (unverified_kept ip) burnt)
      else again (reject (unreachable ip p.error) burnt)

  -- The round after a draw without error: `probing` is r.Probe, and the last argument the verdict.
  pub weigh : Rotator → Target → Bool → String → Session → Bool → Option Why → Turn
  weigh r t last ip s probing (some why) = again (reject (near_burned ip why) s)
  weigh r t last ip s true none = verify r t last ip s
  weigh r t last ip s false none =
      settled (record s { result = record s.result { probe = skipped } })

  -- The round after RotateIP has returned.
  pub drawn : Rotator → Target → Bool → String → Session → Option String → Turn
  drawn r t last ip s (some e) = failed s e
  drawn r t last ip s none =
      weigh r t last ip (record s { result = record s.result { new_ip = ip } }) r.probe
        (verdict r last s.state ip s.store)

  -- One round of the loop of Rotate.
  pub round : Rotator → Provider → Target → Bool → ℕ → Session → Turn
  round r draw t last attempt s =
      let (st, d) = draw s.state t.instance_id in
      let res = note_old d.old_ip (record s.result { attempts = attempt }) in
      drawn r t last d.new_ip (record s { state = st; result = res }) d.error

  -- A round that ended by `continue` is followed by the rest of the loop.
  pub and_then : (Session → Turn) → Turn → Turn
  and_then rest (failed s e) = failed s e
  and_then rest (settled s) = settled s
  and_then rest (again s) = rest s

  -- The loop, with `left` rounds to go, from round `attempt` on.
  pub draws : Rotator → Provider → Target → ℕ → ℕ → Session → Turn
  draws r draw t zero attempt s = settled s
  draws r draw t (suc left) attempt s =
      and_then (draws r draw t left (attempt + 1)) (round r draw t (eqb left 0) attempt s)

  -- The loop over the post actions: an error is recorded and the loop goes on.
  pub run_post : Target → List PostAction → Session → Session
  run_post t [] s = s
  run_post t (a ∷ rest) s =
      let (st, e) = a.apply s.state t s.result.old_ip s.result.new_ip in
      run_post t rest (record s {
        state = st;
        result = record s.result { post_errors = note a.name e s.result.post_errors };
      })

  pub data Outcome : Type 0 where
    no_provider : Outcome
    rotation_failed : Session → String → Outcome
    rotated : Session → Outcome

  pub finish : Target → List PostAction → Turn → Outcome
  finish t post (failed s e) = rotation_failed s e
  finish t post (settled s) =
      rotated (run_post t post (record s { store = burn s.state s.result.old_ip s.store }))
  finish t post (again s) =
      rotated (run_post t post (record s { store = burn s.state s.result.old_ip s.store }))

  pub start : Rotator → Target → State → Option Provider → Outcome
  start r t st none = no_provider
  start r t st (some draw) = finish t r.post (
      draws r draw t (at_least_one r.attempts) 1
        (record { state = st; store = r.burned_store; result = fresh_rotation t }))

  -- Rotate
  pub rotate : Rotator → Target → State → Outcome
  rotate r t st = start r t st r.provider
