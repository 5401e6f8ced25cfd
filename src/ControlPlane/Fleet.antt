-- ===== src/ControlPlane/Fleet.antt =====
-- internal/grpc/server.go and internal/repository/node_repo.go: the calls of the node agents, and the
-- table of nodes that they change. The table is the list of its rows that are not deleted; a query
-- fails where its argument holds the database's error. uuid.New, uuid.Parse and the order of profiles
-- are parameters, and so is the type of floating-point numbers.
pub mod Addresses
pub mod Staleness
mod Tests
use ghost_node.Prelude.{
  ℕ, ◌+◌, ◌-◌, ◌%◌, ◌^◌, String, Bool, true, false, ◌&&◌, Option, none, some, List, [], ◌∷◌, map,
  ◌==◌, ltb, if◌then◌else◌, Result, ok, err,
}
use ghost_node.Prelude.Int.{ℤ, pos, negsuc}
use ghost_node.ControlPlane.Nodes.{NodeStatus, online, offline, draining, TransportProfile}

pub data RpcError : Type 0 where
  registering invalid_node_id updating_heartbeat fetching_profiles receiving : String → RpcError

pub record RegisterRequest : Type 0 where
  pub hostname : String
  pub address : String
  pub region : String
  pub country : String
  pub agent_version : String

pub record RegisterResponse : Type 0 where
  pub node_id : String
  pub success : Bool
  pub message : String

-- TransportConfig of the protocol; the settings are their JSON text.
pub record TransportConfig : Type 0 where
  pub transport_type : String
  pub port : ℤ
  pub config_json : String
  pub enabled : Bool

is_online : NodeStatus → Bool
is_online online = true
is_online offline = false
is_online draining = false

-- int32(p.Port)
pub int32 : ℤ → ℤ
int32 (pos n) =
    let low = n % 2 ^ 32 in if ltb low (2 ^ 31) then pos low else negsuc (2 ^ 32 - low - 1)
int32 (negsuc n) =
    let low = n % 2 ^ 32 in if ltb low (2 ^ 31) then negsuc low else pos (2 ^ 32 - low - 1)

-- GetConfig, but for its query.
pub configs : List TransportProfile → List TransportConfig
configs [] = []
configs (p ∷ ps) =
    record {
      transport_type = p.type_;
      port = int32 p.port;
      config_json = p.config;
      enabled = p.is_active;
    }
    ∷ configs ps

module _ (Float : Type 0) where
  -- The metrics of a heartbeat.
  pub record Load : Type 0 where
    pub cpu_usage : Float
    pub mem_usage : Float
    pub bandwidth_in : ℤ
    pub bandwidth_out : ℤ
    pub active_conns : ℤ

  -- A row of the table of nodes.
  pub record Row : Type 0 where
    pub id : String
    pub name : String
    pub address : String
    pub region : String
    pub country : String
    pub status : NodeStatus
    pub last_heartbeat : Option ℕ
    pub agent_version : Option String
    pub load : Load
    pub is_public : Bool
    pub created_at : ℕ
    pub updated_at : ℕ

  abbrev pub Table : Type 0
  Table = List Row

  -- FindByAddress, where the database answers: `none` for ErrNotFound.
  pub first_at : String → Table → Option Row
  first_at address [] = none
  first_at address (r ∷ rs) =
      let later = first_at address rs in if r.address == address then some r else later

  -- Save of a row, which sets its `updated_at` too.
  pub replaced : ℕ → Row → Row → Row
  replaced now row r = if r.id == row.id then record row { updated_at = now } else r

  pub save_row : ℕ → Row → Table → Table
  save_row now row rows = map (replaced now row) rows

  -- The columns that UpdateHeartbeat sets.
  pub beaten : (now : ℕ) (id version : String) → Load → Row → Row
  beaten now id version load r =
      if r.id == id
      then record r {
        status = online;
        last_heartbeat = some now;
        agent_version = some version;
        load = load;
        updated_at = now;
      }
      else r

  is_before : ℕ → Option ℕ → Bool
  is_before cutoff none = false
  is_before cutoff (some at) = ltb at cutoff

  has_version : Option String → Bool
  has_version none = false
  has_version (some version) = true

  -- The WHERE of MarkStaleOffline.
  pub is_stale : ℕ → Row → Bool
  is_stale cutoff r =
      is_online r.status && is_before cutoff r.last_heartbeat && has_version r.agent_version

  -- Update of the status, which sets `updated_at` too.
  pub aged : (now cutoff : ℕ) → Row → Row
  aged now cutoff r =
      if is_stale cutoff r then record r { status = offline; updated_at = now } else r

  stale_count : ℕ → Table → ℕ
  stale_count cutoff [] = 0
  stale_count cutoff (r ∷ rs) =
      let rest = stale_count cutoff rs in if is_stale cutoff r then rest + 1 else rest

  -- MarkStaleOffline
  pub mark_stale_offline : Option String → (now threshold : ℕ) → Table → Table × Result String ℕ
  mark_stale_offline (some e) now threshold rows = (rows, err e)
  mark_stale_offline none now threshold rows =
      (map (aged now (now - threshold)) rows, ok (stale_count (now - threshold) rows))

  -- UpdateHeartbeat
  pub update_heartbeat :
      Option String → (now : ℕ) (id version : String) → Load → Table → Table × Option String
  update_heartbeat (some e) now id version load rows = (rows, some e)
  update_heartbeat none now id version load rows = (map (beaten now id version load) rows, none)

  -- ListOnline and ListAll, without the profiles.
  pub list_online : Table → Table
  list_online [] = []
  list_online (r ∷ rs) =
      let rest = list_online rs in if is_online r.status && r.is_public then r ∷ rest else rest

  -- Delete
  pub delete_node : String → Table → Table
  delete_node id [] = []
  delete_node id (r ∷ rs) = let rest = delete_node id rs in if r.id == id then rest else r ∷ rest

  -- The errors that the three queries of RegisterNode meet.
  pub record Faults : Type 0 where
    pub finding : Option String
    pub updating : Option String
    pub creating : Option String

  pub reconnected : RegisterRequest → Row → Row
  reconnected req r = record r {
    agent_version = some req.agent_version;
    status = online;
    name = if req.hostname == "" then r.name else req.hostname;
  }

  pub registered : (now : ℕ) (id : String) → Load → RegisterRequest → Row
  registered now id zero_load req = record {
    id = id;
    name = req.hostname;
    address = req.address;
    region = req.region;
    country = req.country;
    status = online;
    last_heartbeat = none;
    agent_version = some req.agent_version;
    load = zero_load;
    is_public = true;
    created_at = now;
    updated_at = now;
  }

  found : Option String → String → Table → Option Row
  found (some e) address rows = none
  found none address rows = first_at address rows

  saved : Option String → ℕ → Row → Table → Table
  saved (some e) now row rows = rows
  saved none now row rows = save_row now row rows

  enter :
      Option String
      → (now : ℕ) (id : String) → Load
      → RegisterRequest
      → Table
      → Table × Result RpcError RegisterResponse
  enter (some e) now id zero_load req rows = (rows, err (registering e))
  enter none now id zero_load req rows = (
    registered now id zero_load req ∷ rows,
    ok (record { node_id = id; success = true; message = "registered" }),
  )

  -- RegisterNode; `id` is the uuid that BeforeCreate draws for a new row. An error of the update is
  -- only logged.
  pub register_node :
      Faults
      → (now : ℕ) (id : String) → Load
      → RegisterRequest
      → Table
      → Table × Result RpcError RegisterResponse
  register_node faults now id zero_load req rows = elim (found faults.finding req.address rows) [
    | some r ↦ (
      saved faults.updating now (reconnected req r) rows,
      ok (record { node_id = r.id; success = true; message = "reconnected" }),
    )
    | none ↦ enter faults.creating now id zero_load req rows
  ]

  beat : Table × Option String → Table × Result RpcError Bool
  beat (rows, some e) = (rows, err (updating_heartbeat e))
  beat (rows, none) = (rows, ok false)

  -- Heartbeat, after uuid.Parse: the answer is ConfigChanged.
  pub heartbeat :
      Option String
      → Result String String
      → (now : ℕ) (version : String) → Load
      → Table
      → Table × Result RpcError Bool
  heartbeat fault (err e) now version load rows = (rows, err (invalid_node_id e))
  heartbeat fault (ok id) now version load rows =
      beat (update_heartbeat fault now id version load rows)

  -- ListTransportProfiles; `by_priority` is the order of the database.
  active_of : String → List TransportProfile → List TransportProfile
  active_of id [] = []
  active_of id (p ∷ ps) =
      let rest = active_of id ps in if p.node_id == id && p.is_active then p ∷ rest else rest

  list_transport_profiles :
      (List TransportProfile → List TransportProfile)
      → Option String
      → String
      → List TransportProfile
      → Result String (List TransportProfile)
  list_transport_profiles by_priority (some e) id ps = err e
  list_transport_profiles by_priority none id ps = ok (by_priority (active_of id ps))

  fetched : Result String (List TransportProfile) → Result RpcError (List TransportConfig)
  fetched (err e) = err (fetching_profiles e)
  fetched (ok ps) = ok (configs ps)

  -- GetConfig, after uuid.Parse.
  pub get_config :
      (List TransportProfile → List TransportProfile)
      → Option String
      → Result String String
      → List TransportProfile
      → Result RpcError (List TransportConfig)
  get_config by_priority fault (err e) ps = err (invalid_node_id e)
  get_config by_priority fault (ok id) ps =
      fetched (list_transport_profiles by_priority fault id ps)

  -- What stream.Recv returns: an event, the end, or an error.
  pub data Received : Type 0 where
    event end_of_stream : Received
    broken : String → Received

  -- ReportMetrics over what the stream yields: `none` while it waits for more.
  pub report_metrics : List Received → Option (Option RpcError)
  report_metrics [] = none
  report_metrics (event ∷ rest) = report_metrics rest
  report_metrics (end_of_stream ∷ rest) = some none
  report_metrics (broken e ∷ rest) = some (some (receiving e))
