-- ===== src/ControlPlane/Gate.antt =====
-- What stands before the handlers of the control plane: the routes of internal/handler/router.go, the
-- rate limiter of internal/handler/ratelimit.go, and internal/auth/middleware.go. Redis, the matching
-- of paths and the token library are parameters; an instant is a number of seconds. gin's recovery,
-- the logger and the metrics let every request pass and are left out.
pub mod Limits
pub mod Guards
mod Tests
use Prim.Native.Char.{code}
use ghost_node.Prelude.{
  ℕ, ◌+◌, ◌-◌, ◌%◌, String, Bool, true, false, ◌&&◌, Option, none, some, List, [], ◌∷◌, ◌++◌, ◌==◌,
  leb, eqb, if◌then◌else◌, Result, ok, err,
}
use ghost_node.Texts.{Text, codes, is_space, equal_fold}
use ghost_node.ControlPlane.Models.{Role, role_user, role_admin}
use ghost_node.ControlPlane.Jwt.{JwtLibrary, JwtConfig, JwtError, Claims, validate_access_token}

-- The keys that the middleware sets.
pub record Context : Type 0 where
  pub user_id : Option String
  pub email : Option String
  pub role : Option Role

abbrev pub fresh_context : Context
fresh_context = record { user_id = none; email = none; role = none }

pub data Refusal : Type 0 where
  header_required invalid_token malformed_subject admin_required too_many_requests no_content
        not_found :
      Refusal

pub data Verdict : Type 0 where
  pass : Context → Verdict
  refuse : Refusal → Verdict

-- The header at its first space, as strings.SplitN(header, " ", 2) splits it.
pub split_space : String → Option (Text × String)
split_space String.[] = none
split_space (String.◌∷◌ c s) =
    let rest = split_space s in
    if eqb (code c) 32
    then some ([], s)
    else elim rest [ none ↦ none | some p ↦ some (code c ∷ p.0, p.1) ]

trim_start : String → String
trim_start String.[] = ""
trim_start (String.◌∷◌ c s) =
    let rest = trim_start s in if is_space (code c) then rest else String.◌∷◌ c s

trim_end : String → String
trim_end String.[] = ""
trim_end (String.◌∷◌ c s) =
    let rest = trim_end s in if is_space (code c) && rest == "" then "" else String.◌∷◌ c rest

bearer_of : Option (Text × String) → String
bearer_of none = ""
bearer_of (some (scheme, rest)) =
    if equal_fold scheme (codes "bearer") then trim_end (trim_start rest) else ""

-- extractBearer
pub extract_bearer : String → String
extract_bearer header = if header == "" then "" else bearer_of (split_space header)

-- UserIDFromContext
pub user_id_from_context : Context → String
user_id_from_context c = elim c.user_id [
  | some id ↦ id
  | none ↦ "00000000-0000-0000-0000-000000000000"
]

is_admin : Option Role → Bool
is_admin (some role_admin) = true
is_admin (some role_user) = false
is_admin none = false

-- AdminOnly
pub admin_only : Context → Verdict
admin_only c = if is_admin c.role then pass c else refuse admin_required

module _ (lib : JwtLibrary) (cfg : JwtConfig) where
  subject : Claims → Context → Result String String → Verdict
  subject claims c (err e) = refuse malformed_subject
  subject claims c (ok id) =
      pass (record { user_id = some id; email = some claims.email; role = some claims.role })

  claimed : Context → Result JwtError Claims → Verdict
  claimed c (err e) = refuse invalid_token
  claimed c (ok claims) = subject claims c (lib.parse_uuid claims.user_id)

  -- Required
  pub required : ℕ → String → Context → Verdict
  required now header c =
      let token = extract_bearer header in
      let checked = claimed c (validate_access_token lib cfg now token) in
      if token == "" then refuse header_required else checked

-- The key of a counter: the name, the client and the start of the window.
pub record Key : Type 0 where
  pub name : String
  pub client_ip : String
  pub window_start : ℕ

pub record Redis : Type 1 where
  pub State : Type 0
  pub incr : State → Key → State × Result String ℕ
  pub expire : State → Key → ℕ → State

-- time.Now().Truncate(window)
pub truncate : ℕ → ℕ → ℕ
truncate now window = now - now % window

module _ (redis : Redis) where
  open redis use {State}

  limit : ℕ → ℕ → Key → State × Result String ℕ → State × Bool
  limit reqs window key (st, err e) = (st, true)
  limit reqs window key (st, ok count) =
      let st' = if eqb count 1 then redis.expire st key (window + 1) else st in
      (st', leb count reqs)

  -- rateLimitByIP: whether the request may go on.
  pub rate_limit_by_ip : (name : String) (reqs window now : ℕ) → String → State → State × Bool
  rate_limit_by_ip name reqs window now ip st =
      let key : Key = record { name = name; client_ip = ip; window_start = truncate now window } in
      limit reqs window key (redis.incr st key)

pub data Verb : Type 0 where
  get post put delete options other : Verb

pub data Middleware : Type 0 where
  cors_headers : Middleware
  limited : String → ℕ → Middleware
  authenticated administrators : Middleware

pub data Handler : Type 0 where
  healthz metrics register login refresh logout me get_profile change_password list_devices
        add_device remove_device list_nodes auto_connect get_node get_connection_config
        get_subscription get_my_usage list_all_nodes create_node delete_node add_transport_profile
        update_node_address list_users set_user_active update_user_quota :
      Handler

pub record Route : Type 0 where
  pub verb : Verb
  pub group : String
  pub path : String
  pub chain : List Middleware
  pub handler : Handler

abbrev route : String → List Middleware → Verb → String → Handler → Route
route group chain verb path handler = record {
  verb = verb;
  group = group;
  path = path;
  chain = chain;
  handler = handler;
}

abbrev engine_chain : List Middleware
engine_chain = cors_headers ∷ limited "global" 300 ∷ []

abbrev open_ : Verb → String → Handler → Route
open_ = route "" engine_chain

abbrev auth_group : Verb → String → Handler → Route
auth_group = route "/api/v1/auth" (engine_chain ++ limited "auth" 20 ∷ [])

abbrev protected : Verb → String → Handler → Route
protected = route "/api/v1" (engine_chain ++ authenticated ∷ [])

abbrev admin : Verb → String → Handler → Route
admin = route "/api/v1/admin" (engine_chain ++ authenticated ∷ administrators ∷ [])

-- Setup
pub routes : List Route
routes =
    open_ get "/healthz" healthz
    ∷ open_ get "/metrics" metrics
    ∷ auth_group post "/register" register
    ∷ auth_group post "/login" login
    ∷ auth_group post "/refresh" refresh
    ∷ auth_group post "/logout" logout
    ∷ protected get "/auth/me" me
    ∷ protected get "/profile" get_profile
    ∷ protected put "/profile/password" change_password
    ∷ protected get "/devices" list_devices
    ∷ protected post "/devices" add_device
    ∷ protected delete "/devices/:id" remove_device
    ∷ protected get "/nodes" list_nodes
    ∷ protected get "/nodes/connect" auto_connect
    ∷ protected get "/nodes/:id" get_node
    ∷ protected get "/nodes/:id/connect" get_connection_config
    ∷ protected get "/nodes/:id/subscription" get_subscription
    ∷ protected get "/usage" get_my_usage
    ∷ admin get "/nodes" list_all_nodes
    ∷ admin post "/nodes" create_node
    ∷ admin delete "/nodes/:id" delete_node
    ∷ admin post "/nodes/:id/transports" add_transport_profile
    ∷ admin put "/nodes/:id/address" update_node_address
    ∷ admin get "/users" list_users
    ∷ admin put "/users/:id/status" set_user_active
    ∷ admin put "/users/:id/quota" update_user_quota
    ∷ []

pub record Request : Type 0 where
  pub verb : Verb
  pub path : String
  pub authorization : String
  pub client_ip : String

is_options : Verb → Bool
is_options options = true
is_options get = false
is_options post = false
is_options put = false
is_options delete = false
is_options other = false

-- Which handler a request reaches, with its context.
pub data Reached : Type 0 where
  handled : Handler → Context → Reached
  refused : Refusal → Reached

module _ (lib : JwtLibrary) (cfg : JwtConfig) (redis : Redis)
    (matches : Route → Request → Bool) where
  open redis use {State}

  -- One element of the chain.
  pub apply : ℕ → Request → Middleware → Context → State → State × Verdict
  apply now req cors_headers c st =
      if is_options req.verb then (st, refuse no_content) else (st, pass c)
  apply now req (limited name reqs) c st =
      let (st', may) = rate_limit_by_ip redis name reqs 60 now req.client_ip st in
      if may then (st', pass c) else (st', refuse too_many_requests)
  apply now req authenticated c st = (st, required lib cfg now req.authorization c)
  apply now req administrators c st = (st, admin_only c)

  continued : (Context → State → State × Verdict) → State × Verdict → State × Verdict
  continued next (st, refuse x) = (st, refuse x)
  continued next (st, pass c) = next c st

  pub run_chain : ℕ → Request → List Middleware → Context → State → State × Verdict
  run_chain now req [] c st = (st, pass c)
  run_chain now req (m ∷ ms) c st = continued (run_chain now req ms) (apply now req m c st)

  -- The route that gin chooses.
  pub find_route : Request → List Route → Option Route
  find_route req [] = none
  find_route req (r ∷ rs) = let later = find_route req rs in if matches r req then some r else later

  reached : Handler → State × Verdict → State × Reached
  reached h (st, pass c) = (st, handled h c)
  reached h (st, refuse x) = (st, refused x)

  -- Where no route matches, the chain of the engine runs before the answer 404.
  unmatched : State × Verdict → State × Reached
  unmatched (st, pass c) = (st, refused not_found)
  unmatched (st, refuse x) = (st, refused x)

  pub dispatch : ℕ → Request → State → Option Route → State × Reached
  dispatch now req st none = unmatched (run_chain now req engine_chain fresh_context st)
  dispatch now req st (some r) = reached r.handler (run_chain now req r.chain fresh_context st)

  pub serve : ℕ → Request → State → State × Reached
  serve now req st = dispatch now req st (find_route req routes)
