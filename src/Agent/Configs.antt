-- ===== src/Agent/Configs.antt =====
-- internal/agent/config_manager.go: configurations from the control plane, applied one by one. What
-- the disk and the operating system answer is a parameter, and so is what happens while Stop waits:
-- any events of the processes and of the goroutines that watch them. Between the calls of one
-- configuration, IsRunning, Stop and Start, nothing else happens here.
pub mod Applied
mod Tests
use ghost_node.Prelude.{
  String, Bool, not, Option, none, some, List, [], ◌∷◌, ◌==◌, if◌then◌else◌, lookup, insert, erase,
}
use ghost_node.Agent.Processes.{Manager, Event, is_running, start, run}

-- TransportConfig of the protocol.
pub record TransportConfig : Type 0 where
  pub transport_type : String
  pub enabled : Bool
  pub config_json : String

-- The processes and the configuration files of the node.
pub record Host : Type 0 where
  pub manager : Manager
  pub files : List (String × String)

-- The errors of MkdirAll for a directory, of WriteFile for a path, with what the file holds by then,
-- and of starting a program; and the events, exits and a cancelled context among them, from the
-- signal that Stop sends to the end of its wait.
pub record Answers : Type 0 where
  pub mkdir : String → Option String
  pub write : String → Option (String × String)
  pub exec : String → Option String
  pub meanwhile : String → List Event

pub data ApplyError : Type 0 where
  mkdir_failed write_failed start_failed : String → ApplyError

-- What distinguishes applyXray from applyHysteria2.
pub record Engine : Type 0 where
  pub name : String
  pub directory : String
  pub config_path : String
  pub bin : String
  pub args : List String

abbrev pub xray : Engine
xray = record {
  name = "xray";
  directory = "/etc/xray";
  config_path = "/etc/xray/config.json";
  bin = "/usr/local/bin/xray";
  args = "run" ∷ "-c" ∷ "/etc/xray/config.json" ∷ [];
}

abbrev pub hysteria2 : Engine
hysteria2 = record {
  name = "hysteria2";
  directory = "/etc/hysteria";
  config_path = "/etc/hysteria/config.yaml";
  bin = "/usr/local/bin/hysteria";
  args = "server" ∷ "-c" ∷ "/etc/hysteria/config.yaml" ∷ [];
}

-- Stop; its error is always nil. The entry is deleted after the wait, whatever it is by then.
stop : Answers → String → Manager → Manager
stop answers name m = elim (lookup name m.processes) [
  | none ↦ m
  | some e ↦
      let waited = run (answers.meanwhile name) m in
      record waited { processes = erase name waited.processes }
]

started : Host → Manager × Option String → Host × Option ApplyError
started h (m, none) = (record h { manager = m }, none)
started h (m, some e) = (record h { manager = m }, some (start_failed e))

-- `if cm.pm.IsRunning` and the start.
relaunch : Answers → Engine → Host → Host × Option ApplyError
relaunch answers e h =
    let m = if is_running e.name h.manager then stop answers e.name h.manager else h.manager in
    started h (start (answers.exec e.bin) e.name e.bin e.args m)

written : Answers → Engine → String → Host → Option (String × String) → Host × Option ApplyError
written answers e json h (some (x, left)) =
    (record h { files = insert e.config_path left h.files }, some (write_failed x))
written answers e json h none =
    relaunch answers e (record h { files = insert e.config_path json h.files })

made : Answers → Engine → String → Host → Option String → Host × Option ApplyError
made answers e json h (some x) = (h, some (mkdir_failed x))
made answers e json h none = written answers e json h (answers.write e.config_path)

-- applyXray and applyHysteria2
pub apply_engine : Answers → Engine → String → Host → Host × Option ApplyError
apply_engine answers e json h = made answers e json h (answers.mkdir e.directory)

-- applyOne
pub apply_one : Answers → TransportConfig → Host → Host × Option ApplyError
apply_one answers c h =
    if not c.enabled
    then (record h { manager = stop answers c.transport_type h.manager }, none)
    else if c.transport_type == "xray"
    then apply_engine answers xray c.config_json h
    else if c.transport_type == "hysteria2"
    then apply_engine answers hysteria2 c.config_json h
    else (h, none)

-- Apply: an error is logged, and the next configuration is applied; its own error is always nil.
pub apply : Answers → List TransportConfig → Host → Host
apply answers [] h = h
apply answers (c ∷ cs) h = apply answers cs (apply_one answers c h).0
