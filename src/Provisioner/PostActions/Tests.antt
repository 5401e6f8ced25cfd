-- ===== src/Provisioner/PostActions/Tests.antt =====
-- Runs of the post actions of internal/provisioner/actions.go, and an instance of their theorem.
use ghost_node.Prelude.{
  ℕ, String, ◌≡◌, refl, sym, ap, ◌≢◌, Bool, true, false, ◌&&◌, ◌||◌, not, Option, none, some, List,
  [], ◌∷◌, arith, ◌==◌, eq_iff, eqb, if◌then◌else◌, Result, ok, err,
}
use ghost_node.Prelude.Int.{pos}
use ghost_node.Texts.{
  Text, codes, same, fields, fields_from, close, trim_space, trim_left, trim_right, keep, is_space,
  equal_fold, fold, split_lines, extend, join_lines,
}
use ghost_node.Provisioner.Rotator.{Target}
use ghost_node.Provisioner.SshConfig.{
  named, at_host, indent, renamed, at_option, at_other, at_fields, visit, visit_all, beneath, added,
  settle, joined, set_ssh_host_name,
}
use ghost_node.Provisioner.PostActions.{Files, put_address, trim_slash}
use ghost_node.Provisioner.PostActions.SshFile.{FileLaws}

-- One ssh config, and a temporary file where there is one.
record Disk : Type 0 where
  config : Text
  temp : Option Text

abbrev of_temp : Option Text → Result String Text
of_temp none = err "no such file"
of_temp (some text) = ok text

abbrev reads : Disk → String → Result String Text
reads d path =
    if path == "config"
    then ok d.config
    else if path == "tmp"
    then of_temp d.temp
    else err "no such file"

abbrev making : Disk → Option Text → Disk × Result String String
making d none = (record d { temp = some [] }, ok "tmp")
making d (some text) = (d, err "file exists")

abbrev writing : Disk → String → Text → Disk × Option String
writing d path text =
    if path == "tmp" then (record d { temp = some text }, none) else (d, some "bad file")

abbrev moving : Disk → Bool → Option Text → Disk × Option String
moving d true (some text) = (record { config = text; temp = none }, none)
moving d true none = (d, some "no such file")
moving d false text = (d, some "no such file")

abbrev disk : Files Disk
disk = record {
  user_home = λ d. ok "/root";
  ssh_config_in = λ home. "config";
  dir = λ path. "";
  read = reads;
  create_temp = λ d dir. making d d.temp;
  write_text = writing;
  close = λ d tmp. (d, none);
  chmod_600 = λ d tmp. (d, none);
  rename = λ d tmp path. moving d (tmp == "tmp" && path == "config") d.temp;
  remove = λ d tmp. if tmp == "tmp" then record d { temp = none } else d;
}

disk_fresh :
    (d d' : Disk) (tmp path : String) (text : Text)
    → making d d.temp ≡ (d', ok tmp)
    → reads d path ≡ ok text
    → path ≢ tmp
disk_fresh d d' tmp path text e h =
    ground (arith, eq_iff path "tmp", eq_iff path "config", eq_iff "tmp" "config")

disk_moved :
    (d d' : Disk) (tmp path : String)
    → moving d (tmp == "tmp" && path == "config") d.temp ≡ (d', none)
    → reads d' path ≡ reads d tmp
disk_moved d d' tmp path e = ground (
  arith,
  eq_iff path "tmp",
  eq_iff path "config",
  eq_iff tmp "tmp",
  eq_iff tmp "config",
  eq_iff "tmp" "config",
)

disk_removed :
    (d : Disk) (tmp path : String)
    → path ≢ tmp
    → reads (if tmp == "tmp" then record d { temp = none } else d) path ≡ reads d path
disk_removed d tmp path e = ground (arith, eq_iff tmp "tmp", eq_iff path "tmp")

disk_written :
    (d d' : Disk) (tmp : String) (text : Text)
    → writing d tmp text ≡ (d', none)
    → reads d' tmp ≡ ok text
disk_written d d' tmp text e =
    ground (arith, eq_iff tmp "tmp", eq_iff tmp "config", eq_iff "tmp" "config")

abbrev disk_laws : FileLaws Disk disk
disk_laws = record {
  fresh = λ d d' dir tmp path text e h. disk_fresh d d' tmp path text e h;
  written = disk_written;
  closed = λ d d' tmp path e. ap (λ x. reads x path) (sym (ap (λ r. r.0) e));
  permitted = λ d d' tmp path e. ap (λ x. reads x path) (sym (ap (λ r. r.0) e));
  moved = disk_moved;
  removed = disk_removed;
}

abbrev seoul : Target
seoul = record {
  name = "seoul";
  instance_id = "i1";
  dns_record = "kr.example.com";
  node_id = "n1";
  probe_port = pos 443;
  ssh_host = "kr";
}

abbrev old_config : Disk
old_config = record {
  config = codes "Host kr\n  hostname 1.1.1.1\nHost us\n  HostName 2.2.2.2\n";
  temp = none;
}

abbrev new_config : Disk
new_config = record {
  config = codes "Host kr\n  hostname 9.9.9.9\nHost us\n  HostName 2.2.2.2\n";
  temp = none;
}

none_of : {A : Type 0} → (A → Bool) → List A → Bool
none_of test [] = true
none_of test (x ∷ xs) = not (test x) && none_of test xs

abbrev is_sign : ℕ → Bool
is_sign c = eqb c b'*' || eqb c b'?' || eqb c b'!'

abbrev is_equals : ℕ → Bool
is_equals c = eqb c b'='

text_of : Result String Text → Text
text_of (ok text) = text
text_of (err e) = []

-- A host without HostName gets one beneath its last block.
set_added :
    set_ssh_host_name (codes "Host kr\n  User opc\nHost us") (codes "kr") (codes "9.9.9.9")
    ≡ some (codes "Host kr\n    HostName 9.9.9.9\n  User opc\nHost us")
unfolding named at_host indent renamed at_option at_other at_fields visit visit_all beneath added
    settle joined set_ssh_host_name same fields fields_from close trim_space trim_left trim_right
    keep is_space equal_fold fold split_lines extend join_lines
set_added = refl

url_run :
    (put_address Disk "https://a/" "t" "n1" "1.2.3.4").url
    ≡ codes "https://a/api/v1/admin/nodes/n1/address"
unfolding put_address trim_slash
url_run = refl
