-- ===== src/Ghostctl/Commands.antt =====
-- cmd/ghostctl/main.go: the commands rotate, status and burned. The flags, the terminal, the cloud
-- provider and the disk of the store are parameters; what is printed is kept as data.
pub mod Asking
pub mod Flags
pub mod Rotating
mod Tests
use ghost_node.Prelude.{
  ℕ, zero, suc, ◌+◌, String, Bool, true, false, ◌&&◌, ◌||◌, not, Option, none, some, List, [], ◌∷◌,
  ◌++◌, map, ◌==◌, leb, if◌then◌else◌, Result, ok, err, ◌>>=◌, length,
}
use ghost_node.Prelude.Int.{ℤ, pos, ltb_ℤ}
use ghost_node.Texts.{Text, codes, same, trim_space}
use ghost_node.Provisioner.Burned.{BurnedStore, File, StoreError, Saved, load, save, listed}
use ghost_node.Provisioner.Oracle.{OracleError, no_public_ip}
use ghost_node.Provisioner.Probe.{Network, ProbeResult, probe_tcp}
use ghost_node.Provisioner.Rotator.{
  World, Target, Provider, PostAction, Rotator, Session, Rotation, Outcome, no_provider,
  rotation_failed, rotated, rotate,
}
use ghost_node.Provisioner.PostActions.{
  ActionError, Updater, Http, Files, dns_action, control_plane_action, ssh_config_action,
}
use ghost_node.Ghostctl.Config.{
  Settings, OracleConfig, ConfigError, load_config, Environment, targets_for,
}

-- ociclient.Config.
pub record OciConfig : Type 0 where
  pub tenancy_ocid : String
  pub user_ocid : String
  pub fingerprint : String
  pub region : String
  pub private_key_path : String

pub or_file : String → String → String
or_file explicit from_file = if explicit == "" then from_file else explicit

merged : OciConfig → OciConfig → OciConfig
merged explicit file = record {
  tenancy_ocid = or_file explicit.tenancy_ocid file.tenancy_ocid;
  user_ocid = or_file explicit.user_ocid file.user_ocid;
  fingerprint = or_file explicit.fingerprint file.fingerprint;
  region = or_file explicit.region file.region;
  private_key_path = or_file explicit.private_key_path file.private_key_path;
}

abbrev explicit_config : OracleConfig → OciConfig
explicit_config c = record {
  tenancy_ocid = c.tenancy_ocid;
  user_ocid = c.user_ocid;
  fingerprint = c.fingerprint;
  region = c.region;
  private_key_path = c.private_key_path;
}

-- The credentials of buildProvider; `from_file` is ociclient.LoadFromFile.
pub credentials :
    (String → String → Result String OciConfig) → OracleConfig → Result String OciConfig
credentials from_file c =
    let file = from_file c.config_file c.profile >>= λ f. ok (merged (explicit_config c) f) in
    if c.tenancy_ocid == "" || c.user_ocid == "" || c.fingerprint == ""
    then file
    else ok (explicit_config c)

-- The flags of `rotate`.
pub record RotateFlags : Type 0 where
  pub config : String
  pub attempts : ℤ
  pub no_probe : Bool
  pub no_dns : Bool
  pub no_cp : Bool
  pub no_ssh : Bool
  pub dry_run : Bool
  pub yes : Bool

pub data CommandError : Type 0 where
  usage : CommandError
  flags building_provider : String → CommandError
  config_error : ConfigError → CommandError
  store_error : StoreError → CommandError
  reading_address : String → OracleError → CommandError
  rotations_failed : (failures of_ : ℕ) → CommandError

-- strings.ToLower on the letters of ASCII.
lower : ℕ → ℕ
lower c = if leb 65 c && leb c 90 then c + 32 else c

-- What confirm makes of the line that was read, `none` for an error.
pub agreed : Option Text → Bool
agreed none = false
agreed (some line) =
    let answer = map lower (trim_space line) in same answer (codes "y") || same answer (codes "yes")

-- The name and the address of the last line of printResult.
pub resolves : Rotation → Option (String × String)
resolves r = if r.target.dns_record == "" then none else some (r.target.dns_record, r.new_ip)

-- What Oracle.Describe returns of an instance.
pub record Description : Type 0 where
  pub display_name : String
  pub lifecycle_state : String
  pub address : String
  pub lifetime : String

-- The lines that dryRunRotate prints for a target: an error, or the description, whether the rotation
-- would fail, and which of the three post actions would have work.
pub data Planned : Type 0 where
  undescribed : Target → OracleError → Planned
  planned : Target → Description → (fails repoints updates rewrites : Bool) → Planned

module _ (is_ipv6 : String → Bool) (w : World) where
  open w use {State}

  -- What the commands call: the cloud provider, the terminal, the disk of the store, and what the
  -- post actions need.
  pub record Outside : Type 1 where
    pub environment : Environment
    pub from_file : String → String → Result String OciConfig
    pub new_provider : OciConfig → Result String (Provider is_ipv6 w)
    pub current_ip : String → State → State × Result OracleError String
    pub describe : String → State → State × Result OracleError Description
    pub read_line : State → State × Option Text
    pub decode : String → Result String (List (String × ℕ))
    pub encode : List (String × ℕ) → Result String String
    pub file : State → String → File
    pub mkdir : State → Option String
    pub write : State → Option String
    pub stored : State → Saved → State
    pub cloudflare : (token zone : String) → ℤ → Updater State
    pub http : Http State
    pub files : Files State
    pub text : ActionError → String

  -- What a command leaves: the state, the rotations in order, what was saved, and its error.
  pub record Report : Type 0 where
    pub state : State
    pub rotations : List (Target × Outcome is_ipv6 w)
    pub plan : List Planned
    pub saved : Option Saved
    pub error : Option CommandError

  abbrev pub stops : State → CommandError → Report
  stops st e = record { state = st; rotations = []; plan = []; saved = none; error = some e }

  module _ (out : Outside) where
    when : Bool → PostAction is_ipv6 w → List (PostAction is_ipv6 w) → List (PostAction is_ipv6 w)
    when true action rest = action ∷ rest
    when false action rest = rest

    -- buildPostActions
    pub build_post_actions : Settings → (no_dns no_cp no_ssh : Bool) → List (PostAction is_ipv6 w)
    build_post_actions cfg no_dns no_cp no_ssh =
        let cf = cfg.cloudflare in
        let cp = cfg.control_plane in
        when (not no_dns && not (cf.api_token == ""))
          (dns_action is_ipv6 w out.text (some (out.cloudflare cf.api_token cf.zone_id cf.ttl)))
          (when (not no_cp && not (cp.url == ""))
            (control_plane_action is_ipv6 w out.text out.http cp.url cp.admin_token)
            (when (not no_ssh) (ssh_config_action is_ipv6 w out.text out.files "") []))

    pub asked : Target → State × Result OracleError String → State × Option CommandError
    asked t (st, ok ip) = (st, none)
    asked t (st, err no_public_ip) = (st, none)
    asked t (st, err e) = (st, some (reading_address t.name e))

    -- The loop of confirm over the targets.
    pub read_addresses : List Target → State → State × Option CommandError
    read_addresses [] st = (st, none)
    read_addresses (t ∷ ts) st =
        let (st', e) = asked t (out.current_ip t.instance_id st) in
        elim e [ some x ↦ (st', some x) | none ↦ read_addresses ts st' ]

    answered : State × Option CommandError → State × Result CommandError Bool
    answered (st, some e) = (st, err e)
    answered (st, none) = let (st', line) = out.read_line st in (st', ok (agreed line))

    -- confirm
    pub confirm : List Target → State → State × Result CommandError Bool
    confirm targets st = answered (read_addresses targets st)

    -- The rotator of cmdRotate, but for its store.
    pub rotator_of : Settings → RotateFlags → Provider is_ipv6 w → Rotator is_ipv6 w
    rotator_of cfg f draw = record {
      provider = some draw;
      burned_store = none;
      post = build_post_actions cfg f.no_dns f.no_cp f.no_ssh;
      attempts = if ltb_ℤ (pos 0) f.attempts then f.attempts else cfg.rotate.attempts;
      probe = cfg.rotate.probe && not f.no_probe;
      probe_attempts = cfg.rotate.probe_attempts;
      burn_window = cfg.rotate.burn_window;
    }

    -- The variables of the loop over the targets. All rotations share one store.
    pub record Run : Type 0 where
      pub state : State
      pub store : Option BurnedStore
      pub failures : ℕ
      pub rotations : List (Target × Outcome is_ipv6 w)

    -- One round of that loop, after Rotate.
    pub counted : Target → Run → Outcome is_ipv6 w → Run
    counted t run no_provider = record run {
      failures = run.failures + 1;
      rotations = run.rotations ++ (t, no_provider) ∷ [];
    }
    counted t run (rotation_failed s e) = record {
      state = s.state;
      store = s.store;
      failures = run.failures + 1;
      rotations = run.rotations ++ (t, rotation_failed s e) ∷ [];
    }
    counted t run (rotated s) = record {
      state = s.state;
      store = s.store;
      failures = run.failures;
      rotations = run.rotations ++ (t, rotated s) ∷ [];
    }

    -- The loop over the targets.
    pub rotate_each : Rotator is_ipv6 w → List Target → Run → Run
    rotate_each r [] run = run
    rotate_each r (t ∷ ts) run =
        let r' : Rotator is_ipv6 w = record r { burned_store = run.store } in
        rotate_each r ts (counted t run (rotate is_ipv6 w r' t run.state))

    failures_error : ℕ → ℕ → Option CommandError
    failures_error zero total = none
    failures_error (suc n) total = some (rotations_failed (suc n) total)

    -- The end of cmdRotate: an error of Save is only a warning.
    pub saved_run : Settings → List Target → Run → Option BurnedStore → Report
    saved_run cfg targets run none = record {
      state = run.state;
      rotations = run.rotations;
      plan = [];
      saved = none;
      error = failures_error run.failures (length targets);
    }
    saved_run cfg targets run (some store) =
        let saved =
          save out.encode (out.mkdir run.state) (out.write run.state) (w.now run.state)
            cfg.rotate.burn_window store in
        record {
          state = out.stored run.state saved;
          rotations = run.rotations;
          plan = [];
          saved = some saved;
          error = failures_error run.failures (length targets);
        }

    -- From the confirmation on.
    pub proceed :
        Settings
        → RotateFlags
        → Provider is_ipv6 w
        → List Target
        → BurnedStore
        → State × Result CommandError Bool
        → Report
    proceed cfg f draw targets store (st, err e) = stops st e
    proceed cfg f draw targets store (st, ok false) = record {
      state = st;
      rotations = [];
      plan = [];
      saved = none;
      error = none;
    }
    proceed cfg f draw targets store (st, ok true) =
        let run =
          rotate_each (rotator_of cfg f draw) targets
            (record { state = st; store = some store; failures = 0; rotations = [] }) in
        saved_run cfg targets run run.store

    confirmed : RotateFlags → List Target → State → State × Result CommandError Bool
    confirmed f targets st =
        let answer = confirm targets st in if f.yes then (st, ok true) else answer

    with_store :
        Settings
        → RotateFlags
        → Provider is_ipv6 w
        → List Target
        → State
        → Result StoreError BurnedStore
        → Report
    with_store cfg f draw targets st (err e) = stops st (store_error e)
    with_store cfg f draw targets st (ok store) =
        proceed cfg f draw targets store (confirmed f targets st)

    plan_of : Settings → Target → Result OracleError Description → Planned
    plan_of cfg t (err e) = undescribed t e
    plan_of cfg t (ok d) =
        planned t d (d.lifetime == "RESERVED")
          (not (t.dns_record == "") && not (cfg.cloudflare.api_token == ""))
          (not (t.node_id == "") && not (cfg.control_plane.url == "")) (not (t.ssh_host == ""))

    -- dryRunRotate: the state after its calls, and its lines.
    pub dry_run_rotate : Settings → List Target → State → State × List Planned
    dry_run_rotate cfg [] st = (st, [])
    dry_run_rotate cfg (t ∷ ts) st =
        let (st', found) = out.describe t.instance_id st in
        let (st'', lines) = dry_run_rotate cfg ts st' in (st'', plan_of cfg t found ∷ lines)

    dry_run : State × List Planned → Report
    dry_run (st, lines) = record {
      state = st;
      rotations = [];
      plan = lines;
      saved = none;
      error = none;
    }

    with_provider :
        Settings → RotateFlags → List Target → State → Result String (Provider is_ipv6 w) → Report
    with_provider cfg f targets st (err e) = stops st (building_provider e)
    with_provider cfg f targets st (ok draw) =
        let path = cfg.rotate.burned_store in
        let done = with_store cfg f draw targets st (load out.decode path (out.file st path)) in
        if f.dry_run then dry_run (dry_run_rotate cfg targets st) else done

    with_targets : Settings → RotateFlags → State → Result ConfigError (List Target) → Report
    with_targets cfg f st (err e) = stops st (config_error e)
    with_targets cfg f st (ok targets) =
        with_provider cfg f targets st (credentials out.from_file cfg.oracle >>= out.new_provider)

    with_config : RotateFlags → String → State → Result ConfigError (Settings × String) → Report
    with_config f selector st (err e) = stops st (config_error e)
    with_config f selector st (ok (cfg, path)) = with_targets cfg f st (targets_for cfg selector)

    -- cmdRotate, after the flags are parsed.
    pub cmd_rotate : RotateFlags → List String → State → Report
    cmd_rotate f (selector ∷ []) st =
        with_config f selector st (load_config out.environment f.config)
    cmd_rotate f positional st = stops st usage
