-- ===== src/Ghostctl/Config/Tests.antt =====
-- Runs of the model of cmd/ghostctl/config.go, and instances of its theorems.
use ghost_node.Prelude.{String, ◌≡◌, refl, true, some, [], ◌∷◌, ◌==◌, ok}
use ghost_node.Prelude.Int.{pos}
use ghost_node.Ghostctl.Config.{
  Settings, NodeConfig, Environment, defined_twice, seen, validate_from, validate, after_tilde,
  in_home, expand_home, home_candidates, config_candidates, first_existing, or_missing,
  resolve_config_path, expanded, wrapped, validated, load_config,
}
use ghost_node.Ghostctl.Config.Selecting.{IsValid, load_config-IsValid}

abbrev host : String → NodeConfig
host name = record {
  name = name;
  instance_ocid = "i";
  dns_record = "";
  node_id = "";
  ssh_host = "";
  probe_port = pos 443;
}

abbrev settings : Settings
settings = record {
  oracle = record {
    config_file = "~";
    profile = "DEFAULT";
    tenancy_ocid = "";
    user_ocid = "";
    fingerprint = "";
    region = "";
    private_key_path = "";
  };
  cloudflare = record { api_token = ""; zone_id = ""; ttl = pos 60 };
  control_plane = record { url = ""; admin_token = "" };
  rotate = record {
    attempts = pos 3;
    probe = true;
    probe_timeout = pos 6;
    probe_attempts = pos 2;
    burn_window = pos 720;
    burned_store = "";
  };
  nodes = host "KR" ∷ host "kr" ∷ [];
}

abbrev loaded : Settings
loaded = record settings { oracle = record settings.oracle { config_file = "/root" } }

abbrev here : Environment
here = record {
  Yaml = Settings;
  user_home = ok "/root";
  join = λ parts. "/root";
  getenv = λ name. "";
  exists = λ path. path == "/root";
  read_file = λ path. ok "nodes: ...";
  expand_env = λ text. text;
  read_config = λ defaults text. ok settings;
  unmarshal = λ yaml. ok yaml;
}

load_run : load_config here "" ≡ ok (loaded, "/root")
unfolding load_config validated wrapped expanded resolve_config_path or_missing first_existing
    config_candidates home_candidates expand_home in_home after_tilde validate validate_from seen
load_run = refl

load_config-IsValid_example : IsValid (host "KR" ∷ host "kr" ∷ [])
load_config-IsValid_example = load_config-IsValid here "" "/root" loaded load_run

twice : validate (host "a" ∷ host "b" ∷ host "a" ∷ []) ≡ some (defined_twice "a")
unfolding validate validate_from seen
twice = refl
