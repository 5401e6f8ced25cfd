-- ===== src/Ghostctl/Commands/Tests.antt =====
-- Runs of the model of cmd/ghostctl/main.go, and instances of its theorems.
use ghost_node.Prelude.{
  ℕ, ◌+◌, ◌≤◌, String, ◌≡◌, refl, ap, subst, inl, inr, Bool, true, false, none, some, List, [], ◌∷◌,
  arith, ◌==◌, if◌then◌else◌, Bool-cases, Result, ok, err, length,
}
use ghost_node.Prelude.Int.{pos}
use ghost_node.Texts.{codes, same, trim_space, trim_left, trim_right, keep, is_space}
use ghost_node.Provisioner.Burned.{BurnedStore, missing}
use ghost_node.Provisioner.Oracle.{no_public_ip}
use ghost_node.Provisioner.Rotator.{World, Target, Rotator}
use ghost_node.Ghostctl.Config.{Environment, Settings}
use ghost_node.Ghostctl.Commands.{RotateFlags, Outside, rotate_each, cmd_rotate}
use ghost_node.Ghostctl.Commands.Asking.{IsRefusal, Untouched, cmd_rotate-Untouched}
use ghost_node.Ghostctl.Commands.Rotating.{Holds, started, rotate_each_burns}

abbrev never : String → Bool
never s = false

abbrev lab : World
lab = record {
  State = ℕ;
  now = λ st. st;
  network = λ st ip port. record { pause = λ i. none; dial = λ i. ok 3 };
  probed = λ st ip port. st + 1;
}

abbrev settings : Settings
settings = record {
  oracle = record {
    config_file = "";
    profile = "DEFAULT";
    tenancy_ocid = "t";
    user_ocid = "u";
    fingerprint = "f";
    region = "r";
    private_key_path = "k";
  };
  cloudflare = record { api_token = ""; zone_id = ""; ttl = pos 60 };
  control_plane = record { url = ""; admin_token = "" };
  rotate = record {
    attempts = pos 3;
    probe = true;
    probe_timeout = pos 6;
    probe_attempts = pos 2;
    burn_window = pos 720;
    burned_store = "/burned";
  };
  nodes =
      record {
        name = "kr";
        instance_ocid = "i";
        dns_record = "";
        node_id = "";
        ssh_host = "";
        probe_port = pos 443;
      }
      ∷ [];
}

abbrev here : Environment
here = record {
  Yaml = Settings;
  user_home = ok "/root";
  join = λ parts. "/root";
  getenv = λ name. "";
  exists = λ path. path == "/root";
  read_file = λ path. ok "nodes: ...";
  expand_env = λ text. text;
  read_config = λ defaults text. ok settings;
  unmarshal = λ yaml. ok yaml;
}

-- The terminal answers `no`.
abbrev outside : Outside never lab
outside = record {
  environment = here;
  from_file = λ file profile. err "missing";
  new_provider =
      λ c. ok (λ st id. (st + 10, record { old_ip = id; new_ip = "9.9.9.9"; error = none }));
  current_ip = λ id st. (st, err no_public_ip);
  describe = λ id st. (
    st,
    ok (record {
      display_name = id;
      lifecycle_state = "RUNNING";
      address = "1.1.1.1";
      lifetime = "EPHEMERAL";
    }),
  );
  read_line = λ st. (st, some (codes " No"));
  decode = λ text. err "bad";
  encode = λ es. ok "{}";
  file = λ st path. missing;
  mkdir = λ st. none;
  write = λ st. none;
  stored = λ st saved. st;
  cloudflare = λ token zone ttl. record { name = "cloudflare"; upsert = λ st name ip. (st, none) };
  http = record { new_request = λ request. none; send = λ st request. (st, ok (200, "")) };
  files = record {
    user_home = λ st. err "no home";
    ssh_config_in = λ home. home;
    dir = λ path. path;
    read = λ st path. err "missing";
    create_temp = λ st dir. (st, err "full");
    write_text = λ st tmp text. (st, none);
    close = λ st tmp. (st, none);
    chmod_600 = λ st tmp. (st, none);
    rename = λ st tmp path. (st, none);
    remove = λ st tmp. st;
  };
  text = λ e. "failed";
}

abbrev asking : RotateFlags
asking = record {
  config = "";
  attempts = pos 0;
  no_probe = false;
  no_dns = false;
  no_cp = false;
  no_ssh = false;
  dry_run = false;
  yes = false;
}

says_no : (st : ℕ) → IsRefusal (some (codes " No"))
unfolding same trim_space trim_left trim_right keep is_space
says_no st = (refl, (refl, (refl, (refl, (refl, (refl, (refl, (refl, (refl, (refl, tt))))))))))

abbrev IsAtSeven : ℕ → Type 0
IsAtSeven st = st ≡ 7

cmd_rotate-Untouched_example :
    Untouched never lab outside IsAtSeven
      (λ id st p. p)
      (λ id st p. p)
      (λ st p. p)
      (cmd_rotate never lab outside asking ("kr" ∷ []) 7)
cmd_rotate-Untouched_example =
    cmd_rotate-Untouched never lab outside IsAtSeven (λ id st p. p) (λ id st p. p) (λ st p. p)
      asking ("kr" ∷ []) 7 (inr (refl, says_no)) refl

abbrev target : String → Target
target name = record {
  name = name;
  instance_id = name;
  dns_record = "";
  node_id = "";
  probe_port = pos 443;
  ssh_host = "";
}

abbrev rotator : Rotator never lab
rotator = record {
  provider = some (λ st id. (st + 10, record { old_ip = id; new_ip = "9.9.9.9"; error = none }));
  burned_store = none;
  post = [];
  attempts = pos 1;
  probe = true;
  probe_attempts = pos 1;
  burn_window = pos 100;
}

abbrev store : BurnedStore
store = record { path = ""; entries = ("8.8.8.8", 1) ∷ [] }

rotate_each_burns_example : Holds never lab outside store (
    rotate_each never lab outside rotator
      (target "1.1.1.1" ∷ target "2.2.2.2" ∷ [])
      (started never lab outside 5 store))
rotate_each_burns_example =
    rotate_each_burns never lab outside store rotator (target "1.1.1.1" ∷ target "2.2.2.2" ∷ []) 5

-- A parser that reads every leading `--yes`.
abbrev reading : ℕ → List String → Result String (ℕ × List String)
reading n [] = ok (n, [])
reading n (arg ∷ rest) =
    let later = reading (n + 1) rest in if arg == "--yes" then later else ok (n, arg ∷ rest)

abbrev left : Result String (ℕ × List String) → List String
left (ok (n, rest)) = rest
left (err e) = []

reading_Consumes :
    (n n' : ℕ) (args rest : List String)
    → reading n args ≡ ok (n', rest)
    → length rest ≤ length args
reading_Consumes n n' [] rest e = subst (λ r. length r ≤ 0) (ap left e) (omega arith)
reading_Consumes n n' (arg ∷ args) rest e = elim (Bool-cases (arg == "--yes")) [
  | inl y ↦ let g = rw y at e in omega (arith, reading_Consumes (n + 1) n' args rest g)
  | inr x ↦
      let g = rw x at e in subst (λ r. length r ≤ length (arg ∷ args)) (ap left g) (omega arith)
]
