-- ===== src/Ghostctl/Config.antt =====
-- cmd/ghostctl/config.go: the configuration of ghostctl and its nodes, and the selection of targets
-- in cmd/ghostctl/main.go. Names of nodes are compared as ASCII texts. The environment, the file
-- system and the YAML library are parameters.
pub mod Selecting
mod Tests
use Prim.Native.Char.{code}
use Prim.Native.String.{◌++◌ as ◌+++◌}
use ghost_node.Prelude.{
  ℕ, ◌+◌, String, Bool, true, false, not, Option, none, some, List, [], ◌∷◌, ◌++◌, map, ◌==◌, eqb,
  if◌then◌else◌, Result, ok, err, ◌>>=◌, ◌>>◌,
}
use ghost_node.Prelude.Int.{ℤ}
use ghost_node.Texts.{codes, equal_fold}
use ghost_node.Provisioner.Rotator.{Target}

pub record OracleConfig : Type 0 where
  pub config_file : String
  pub profile : String
  pub tenancy_ocid : String
  pub user_ocid : String
  pub fingerprint : String
  pub region : String
  pub private_key_path : String

pub record CloudflareConfig : Type 0 where
  pub api_token : String
  pub zone_id : String
  pub ttl : ℤ

pub record ControlPlaneConfig : Type 0 where
  pub url : String
  pub admin_token : String

pub record RotateConfig : Type 0 where
  pub attempts : ℤ
  pub probe : Bool
  pub probe_timeout : ℤ
  pub probe_attempts : ℤ
  pub burn_window : ℤ
  pub burned_store : String

pub record NodeConfig : Type 0 where
  pub name : String
  pub instance_ocid : String
  pub dns_record : String
  pub node_id : String
  pub ssh_host : String
  pub probe_port : ℤ

-- The struct Config.
pub record Settings : Type 0 where
  pub oracle : OracleConfig
  pub cloudflare : CloudflareConfig
  pub control_plane : ControlPlaneConfig
  pub rotate : RotateConfig
  pub nodes : List NodeConfig

pub data ConfigError : Type 0 where
  no_nodes : ConfigError
  name_required : ℕ → ConfigError
  instance_required defined_twice : String → ConfigError
  reading parsing decoding : (path error : String) → ConfigError
  no_config_file : List String → ConfigError
  no_node_named : String → List String → ConfigError

unfoldable pub seen : String → List String → Bool
seen name [] = false
seen name (n ∷ names) = let rest = seen name names in if n == name then true else rest

-- The loop of validate from node `i` on; `names` are the keys of the map.
unfoldable pub validate_from : ℕ → List String → List NodeConfig → Option ConfigError
validate_from i names [] = none
validate_from i names (n ∷ ns) =
    let rest = validate_from (i + 1) (n.name ∷ names) ns in
    if n.name == ""
    then some (name_required i)
    else if n.instance_ocid == ""
    then some (instance_required n.name)
    else if seen n.name names
    then some (defined_twice n.name)
    else rest

-- validate
unfoldable pub validate : List NodeConfig → Option ConfigError
validate [] = some no_nodes
validate (n ∷ ns) = validate_from 0 [] (n ∷ ns)

-- The loop of Config.Node.
unfoldable pub node : List NodeConfig → String → Option NodeConfig
node [] name = none
node (n ∷ ns) name =
    let rest = node ns name in if equal_fold (codes n.name) (codes name) then some n else rest

unfoldable pub target_of : NodeConfig → Target
target_of n = record {
  name = n.name;
  instance_id = n.instance_ocid;
  dns_record = n.dns_record;
  node_id = n.node_id;
  probe_port = n.probe_port;
  ssh_host = n.ssh_host;
}

unfoldable pub picked :
    List NodeConfig → String → Option NodeConfig → Result ConfigError (List NodeConfig)
picked nodes selector none = err (no_node_named selector (map (λ n. n.name) nodes))
picked nodes selector (some n) = ok (n ∷ [])

-- targetsFor
unfoldable pub targets_for : Settings → String → Result ConfigError (List Target)
targets_for cfg selector =
    (if selector == "all"
      then ok cfg.nodes
      else picked cfg.nodes selector (node cfg.nodes selector))
    >>= λ nodes. ok (map target_of nodes)

-- strings.TrimPrefix(path, "~"), where the path has that prefix.
pub after_tilde : String → Option String
after_tilde String.[] = none
after_tilde (String.◌∷◌ c s) = if eqb (code c) b'~' then some s else none

-- os, path/filepath and viper. `defaults` are the calls of SetDefault.
pub record Environment : Type 1 where
  pub Yaml : Type 0
  pub user_home : Result String String
  pub join : List String → String
  pub getenv : String → String
  pub exists : String → Bool
  pub read_file : String → Result String String
  pub expand_env : String → String
  pub read_config : (defaults : List (String × String)) → String → Result String Yaml
  pub unmarshal : Yaml → Result String Settings

module _ (os : Environment) where
  in_home : String → String → Result String String → String
  in_home path rest (ok home) = os.join (home ∷ rest ∷ [])
  in_home path rest (err e) = path

  -- expandHome
  pub expand_home : String → String
  expand_home path = elim (after_tilde path) [
    | none ↦ path
    | some rest ↦ in_home path rest os.user_home
  ]

  home_candidates : Result String String → List String
  home_candidates (err e) = []
  home_candidates (ok home) =
      os.join (home ∷ ".ghostctl" ∷ "config.yaml" ∷ [])
      ∷ os.join (home ∷ ".ghostctl" ∷ "config.yml" ∷ [])
      ∷ []

  pub config_candidates : List String
  config_candidates =
      home_candidates os.user_home ++ os.join ("configs" ∷ "ghostctl.yaml" ∷ []) ∷ []

  pub first_existing : List String → Option String
  first_existing [] = none
  first_existing (c ∷ cs) = let rest = first_existing cs in if os.exists c then some c else rest

  or_missing : Option String → Result ConfigError String
  or_missing none = err (no_config_file config_candidates)
  or_missing (some path) = ok path

  -- resolveConfigPath
  pub resolve_config_path : String → Result ConfigError String
  resolve_config_path flag_value =
      let env = os.getenv "GHOSTCTL_CONFIG" in
      let found = or_missing (first_existing config_candidates) in
      if not (flag_value == "")
      then ok (expand_home flag_value)
      else if not (env == "")
      then ok (expand_home env)
      else found

  abbrev defaults : List (String × String)
  defaults =
      ("oracle.profile", "DEFAULT")
      ∷ ("cloudflare.ttl", "60")
      ∷ ("rotate.attempts", "3")
      ∷ ("rotate.probe", "true")
      ∷ ("rotate.probe_timeout", "6s")
      ∷ ("rotate.probe_attempts", "2")
      ∷ ("rotate.burn_window", "720h")
      ∷ ("rotate.burned_store", "~/.ghostctl/burned.json")
      ∷ []

  pub expanded : Settings → Settings
  expanded cfg = record cfg {
    oracle = record cfg.oracle {
      config_file = expand_home cfg.oracle.config_file;
      private_key_path = expand_home cfg.oracle.private_key_path;
    };
    rotate = record cfg.rotate { burned_store = expand_home cfg.rotate.burned_store };
  }

  wrapped : {A : Type 0} → (String → ConfigError) → Result String A → Result ConfigError A
  wrapped wrap (ok a) = ok a
  wrapped wrap (err e) = err (wrap e)

  validated : Settings → Option ConfigError → Result ConfigError Settings
  validated cfg none = ok cfg
  validated cfg (some e) = err e

  -- LoadConfig: the settings and the path that they come from.
  pub load_config : String → Result ConfigError (Settings × String)
  load_config flag_value = do
    path ← resolve_config_path flag_value
    raw ← wrapped (reading path) (os.read_file path)
    yaml ← wrapped (parsing path) (os.read_config defaults (os.expand_env raw))
    cfg ← wrapped (decoding path) (os.unmarshal yaml)
    checked ← validated (expanded cfg) (validate cfg.nodes)
    ok (checked, path)
