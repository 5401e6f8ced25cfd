-- ===== src/Provisioner/PostActions.antt =====
-- internal/provisioner/actions.go: the post actions DNSAction, ControlPlaneAction and SSHConfigAction.
-- The name server, HTTP and the file system are parameters; a formatted error is kept as the data
-- that it shows, and `text` formats it.
pub mod SshFile
mod Tests
use Prim.Native.String.{◌++◌ as ◌+++◌}
use ghost_node.Prelude.{
  ℕ, String, Bool, ◌||◌, Option, none, some, [], ◌∷◌, ◌++◌, ◌==◌, ltb, eqb, if◌then◌else◌, Result,
  ok, err, ◌>>=◌,
}
use ghost_node.Texts.{Text, codes, same}
use ghost_node.Provisioner.Rotator.{World, Target, PostAction}
use ghost_node.Provisioner.SshConfig.{set_ssh_host_name}

pub data ActionError : Type 0 where
  pointing : (name ip error : String) → ActionError
  token_required : String → ActionError
  building_request calling locating_home creating_temp writing_temp closing_temp setting_permissions
        no_host_block :
      String → ActionError
  returned : ℕ → String → ActionError
  reading replacing : (path error : String) → ActionError

-- The request of ControlPlaneAction: a PUT of an address with a bearer token.
pub record PutAddress : Type 0 where
  pub url : Text
  pub bearer : String
  pub address : String

-- strings.TrimSuffix(a.BaseURL, "/")
pub trim_slash : Text → Text
trim_slash [] = []
trim_slash (c ∷ []) = if eqb c b'/' then [] else c ∷ []
trim_slash (c ∷ d ∷ s) = c ∷ trim_slash (d ∷ s)

module _ (State : Type 0) where
  -- dns.Updater
  pub record Updater : Type 0 where
    pub name : String
    pub upsert : State → String → String → State × Option String

  pub record Http : Type 0 where
    pub new_request : PutAddress → Option String
    pub send : State → PutAddress → State × Result String (ℕ × String)

  -- os and path/filepath: `ssh_config_in` is filepath.Join(home, ".ssh", "config").
  pub record Files : Type 0 where
    pub user_home : State → Result String String
    pub ssh_config_in : String → String
    pub dir : String → String
    pub read : State → String → Result String Text
    pub create_temp : State → String → State × Result String String
    pub write_text : State → String → Text → State × Option String
    pub close : State → String → State × Option String
    pub chmod_600 : State → String → State × Option String
    pub rename : State → String → String → State × Option String
    pub remove : State → String → State

  abbrev pub Applied : Type 0
  Applied = State × Option ActionError

  pub failing : (String → ActionError) → State × Option String → (State → Applied) → Applied
  failing wrap (st, none) next = next st
  failing wrap (st, some e) next = (st, some (wrap e))

  pub upserted : Updater → State → Target → String → Applied
  upserted u st t ip =
      failing (pointing t.dns_record ip) (u.upsert st t.dns_record ip) (λ st'. (st', none))

  -- DNSAction.Apply
  pub dns_apply : Option Updater → State → Target → String → Applied
  dns_apply none st t ip = (st, none)
  dns_apply (some u) st t ip =
      let done = upserted u st t ip in if t.dns_record == "" || ip == "" then (st, none) else done

  answered : State × Result String (ℕ × String) → Applied
  answered (st, err e) = (st, some (calling e))
  answered (st, ok (code, detail)) =
      if ltb code 200 || ltb 299 code then (st, some (returned code detail)) else (st, none)

  pub put_address : String → String → String → String → PutAddress
  put_address base token node ip = record {
    url = trim_slash (codes base) ++ codes "/api/v1/admin/nodes/" ++ codes node ++ codes "/address";
    bearer = token;
    address = ip;
  }

  sent : Http → State → PutAddress → Applied
  sent http st request = elim (http.new_request request) [
    | some e ↦ (st, some (building_request e))
    | none ↦ answered (http.send st request)
  ]

  -- ControlPlaneAction.Apply
  pub control_plane_apply : Http → (base token : String) → State → Target → String → Applied
  control_plane_apply http base token st t ip =
      let done = sent http st (put_address base token t.node_id ip) in
      if base == "" || t.node_id == "" || ip == ""
      then (st, none)
      else if token == ""
      then (st, some (token_required t.node_id))
      else done

  -- From the writing of the temporary file on; a failed write closes it.
  pub fill : Files → String → String → Text → State → Applied
  fill files path tmp text st =
      let (st1, wrote) = files.write_text st tmp text in
      elim wrote [
        | some e ↦ ((files.close st1 tmp).0, some (writing_temp e))
        | none ↦ failing closing_temp (files.close st1 tmp) (λ st2.
            failing setting_permissions (files.chmod_600 st2 tmp)
              (λ st3. failing (replacing path) (files.rename st3 tmp path) (λ st4. (st4, none))))
      ]

  -- The deferred os.Remove(tmpName).
  pub removing : Files → String → Applied → Applied
  removing files tmp (st, e) = (files.remove st tmp, e)

  pub with_temp : Files → String → Text → State × Result String String → Applied
  with_temp files path text (st, err e) = (st, some (creating_temp e))
  with_temp files path text (st, ok tmp) = removing files tmp (fill files path tmp text st)

  pub updated : Files → String → String → State → Text → Option Text → Applied
  updated files path alias st original none = (st, some (no_host_block alias))
  updated files path alias st original (some text) =
      let done = with_temp files path text (files.create_temp st (files.dir path)) in
      if same text original then (st, none) else done

  pub rewrite : Files → String → String → String → State → Result String Text → Applied
  rewrite files path alias ip st (err e) = (st, some (reading path e))
  rewrite files path alias ip st (ok original) =
      updated files path alias st original (set_ssh_host_name original (codes alias) (codes ip))

  pub default_path : Files → State → String → Result String String
  default_path files st path =
      if path == "" then (files.user_home st >>= λ home. ok (files.ssh_config_in home)) else ok path

  pub at_path : Files → String → String → State → Result String String → Applied
  at_path files alias ip st (err e) = (st, some (locating_home e))
  at_path files alias ip st (ok path) = rewrite files path alias ip st (files.read st path)

  -- SSHConfigAction.Apply
  pub ssh_config_apply : Files → String → State → Target → String → Applied
  ssh_config_apply files path st t ip =
      let done = at_path files t.ssh_host ip st (default_path files st path) in
      if t.ssh_host == "" || ip == "" then (st, none) else done

module _ (is_ipv6 : String → Bool) (w : World) (text : ActionError → String) where
  open w use {State}

  pub shown : Applied State → State × Option String
  shown (st, none) = (st, none)
  shown (st, some e) = (st, some (text e))

  -- DNSAction.Name
  pub dns_name : Option (Updater State) → String
  dns_name none = "dns"
  dns_name (some u) = "dns/" +++ u.name

  -- The three actions as the rotation runs them.
  pub dns_action : Option (Updater State) → PostAction is_ipv6 w
  dns_action u = record {
    name = dns_name u;
    apply = λ st t old ip. shown (dns_apply State u st t ip);
  }

  pub control_plane_action : Http State → (base token : String) → PostAction is_ipv6 w
  control_plane_action http base token = record {
    name = "control-plane";
    apply = λ st t old ip. shown (control_plane_apply State http base token st t ip);
  }

  pub ssh_config_action : Files State → String → PostAction is_ipv6 w
  ssh_config_action files path = record {
    name = "ssh-config";
    apply = λ st t old ip. shown (ssh_config_apply State files path st t ip);
  }
