-- ===== src/ControlPlane/Gate/Guards.antt =====
-- Which requests reach the handlers of internal/handler/router.go.
use ghost_node.Prelude.{
  ℕ, String, ◌≡◌, refl, sym, ap, ◌∙◌, subst, ◌≢◌, inl, inr, Bool, true, Option, none, some, List,
  [], ◌∷◌, arith, ◌==◌, Bool-cases, Result, ok, err, All,
}
use ghost_node.ControlPlane.Models.{Role, role_admin, role_user}
use ghost_node.ControlPlane.Jwt.{JwtLibrary, JwtConfig, JwtError, Claims, validate_access_token}
use ghost_node.ControlPlane.Gate.{
  Context, Verdict, pass, refuse, extract_bearer, is_admin, admin_only, subject, claimed, required,
  Redis, Middleware, cors_headers, limited, authenticated, administrators, Handler, healthz,
  metrics, register, login, refresh, logout, list_all_nodes, create_node, delete_node,
  add_transport_profile, update_node_address, list_users, set_user_active, update_user_quota, Route,
  routes, Request, apply, continued, run_chain, find_route, dispatch, unmatched, serve, reached,
  handled, fresh_context,
}

-- Whom a handler is for.
pub data Audience : Type 0 where
  anyone users_only admins_only : Audience

pub audience : Handler → Audience
audience healthz = anyone
audience metrics = anyone
audience register = anyone
audience login = anyone
audience refresh = anyone
audience logout = anyone
audience list_all_nodes = admins_only
audience create_node = admins_only
audience delete_node = admins_only
audience add_transport_profile = admins_only
audience update_node_address = admins_only
audience list_users = admins_only
audience set_user_active = admins_only
audience update_user_quota = admins_only
audience _ = users_only

-- Whom the middleware after the check of the token lets through, and whom a chain lets through.
after_token : List Middleware → Audience
after_token (administrators ∷ ms) = admins_only
after_token _ = users_only

let_in : List Middleware → Audience
let_in [] = anyone
let_in (authenticated ∷ ms) = after_token ms
let_in (m ∷ ms) = let_in ms

Guarded : Route → Type 0
Guarded r = let_in r.chain ≡ audience r.handler

routes-Guarded : All Guarded routes
unfolding routes Guarded let_in after_token audience
routes-Guarded = ground arith

admin_role : (r : Option Role) → is_admin r ≡ true → r ≡ some role_admin
unfolding is_admin
admin_role none h = absurd (ground arith)
admin_role (some role_user) h = absurd (ground arith)
admin_role (some role_admin) h = refl

module _ (lib : JwtLibrary) (cfg : JwtConfig) (now : ℕ) (header : String) where
  -- The context of a request whose access token is valid: the user that the token names.
  abbrev pub IsUser : Context → Type 0
  IsUser c =
      (claims : Claims) × (id : String) × (validate_access_token lib cfg now (extract_bearer header)
        ≡ ok claims)
      × (lib.parse_uuid claims.user_id ≡ ok id)
      × (c ≡ record { user_id = some id; email = some claims.email; role = some claims.role })

  -- Whom the context belongs to.
  abbrev pub Cleared : Audience → Context → Type 0
  Cleared anyone c = Unit
  Cleared users_only c = IsUser c
  Cleared admins_only c = IsUser c × (c.role ≡ some role_admin)

  subject-IsUser :
      (claims : Claims) (c c' : Context) (r : Result String String)
      → validate_access_token lib cfg now (extract_bearer header) ≡ ok claims
      → lib.parse_uuid claims.user_id ≡ r
      → subject lib cfg claims c r ≡ pass c'
      → IsUser c'
  unfolding subject
  subject-IsUser claims c c' (err e) valid parsed h = absurd (ground arith)
  subject-IsUser claims c c' (ok id) valid parsed h = (claims, id, valid, parsed, ground arith)

  claimed-IsUser :
      (c c' : Context) (r : Result JwtError Claims)
      → validate_access_token lib cfg now (extract_bearer header) ≡ r
      → claimed lib cfg c r ≡ pass c'
      → IsUser c'
  unfolding claimed
  claimed-IsUser c c' (err e) valid h = absurd (ground arith)
  claimed-IsUser c c' (ok claims) valid h = subject-IsUser claims c c' _ valid refl h

  -- A request that passes Required has a valid token.
  required-IsUser : (c c' : Context) → required lib cfg now header c ≡ pass c' → IsUser c'
  unfolding required
  required-IsUser c c' h = elim (Bool-cases (extract_bearer header == "")) [
    | inl y ↦ absurd (let g = rw y at h in ground arith)
    | inr n ↦ claimed-IsUser c c' _ refl (let g = rw n at h in g)
  ]

  -- Two contexts of one request are the same.
  IsUser-unique : (c c' : Context) → IsUser c → IsUser c' → c' ≡ c
  IsUser-unique c c' (claims, id, valid, parsed, same) (claims', id', valid', parsed', same') = cc

  admin_only-pass :
      (c c' : Context) → admin_only c ≡ pass c' → (c' ≡ c) × (c.role ≡ some role_admin)
  unfolding admin_only
  admin_only-pass c c' h = elim (Bool-cases (is_admin c.role)) [
    | inl y ↦ (let g = rw y at h in ground arith, admin_role c.role y)
    | inr n ↦ absurd (let g = rw n at h in ground arith)
  ]

module _ (lib : JwtLibrary) (cfg : JwtConfig) (redis : Redis) (matches : Route → Request → Bool)
    (now : ℕ) (req : Request) where
  abbrev User : Context → Type 0
  User = IsUser lib cfg now req.authorization

  abbrev Passed : redis.State × Verdict → Context → Type 0
  Passed r c = r.1 ≡ pass c

  -- What passes the rest of a chain has passed its first middleware.
  continued-Passed :
      (next : Context → redis.State → redis.State × Verdict) (r : redis.State × Verdict)
      (c' : Context)
      → Passed (continued lib cfg redis matches next r) c'
      → (c : Context) × Passed r c × Passed (next c r.0) c'
  unfolding continued
  continued-Passed next (st, refuse x) c' h = absurd (ground arith)
  continued-Passed next (st, pass c) c' h = (c, refl, h)

  -- A middleware hands on the context of a user as it is.
  apply-User :
      (m : Middleware) (c c' : Context) (st : redis.State)
      → User c
      → Passed (apply lib cfg redis matches now req m c st) c'
      → c' ≡ c
  unfolding apply
  apply-User cors_headers c c' st h p = ground arith
  apply-User (limited name reqs) c c' st h p = ground arith
  apply-User authenticated c c' st h p =
      IsUser-unique lib cfg now req.authorization c c' h
        (required-IsUser lib cfg now req.authorization c c' p)
  apply-User administrators c c' st h p = (admin_only-pass lib cfg now req.authorization c c' p).0

  run_chain-User :
      (ms : List Middleware) (c c' : Context) (st : redis.State)
      → User c
      → Passed (run_chain lib cfg redis matches now req ms c st) c'
      → c' ≡ c
  unfolding run_chain
  run_chain-User [] c c' st h p = ground arith
  run_chain-User (m ∷ ms) c c' st h p =
      let (c1, first, rest) =
        continued-Passed _ (apply lib cfg redis matches now req m c st) c' p in
      let same = apply-User m c c1 st h first in
      run_chain-User ms c1 c' _ (subst User (sym same) h) rest ∙ same

  abbrev ClearedFor : Audience → Context → Type 0
  ClearedFor = Cleared lib cfg now req.authorization

  kept :
      (ms : List Middleware) (c c' : Context) (st : redis.State)
      → User c
      → Passed (run_chain lib cfg redis matches now req ms c st) c'
      → User c'
  kept ms c c' st h p = subst User (sym (run_chain-User ms c c' st h p)) h

  after_token-Cleared :
      (ms : List Middleware) (c c' : Context) (st : redis.State)
      → User c
      → Passed (run_chain lib cfg redis matches now req ms c st) c'
      → ClearedFor (after_token ms) c'
  unfolding after_token run_chain apply
  after_token-Cleared [] c c' st h p = kept [] c c' st h p
  after_token-Cleared (cors_headers ∷ ms) c c' st h p = kept (cors_headers ∷ ms) c c' st h p
  after_token-Cleared (limited name reqs ∷ ms) c c' st h p =
      kept (limited name reqs ∷ ms) c c' st h p
  after_token-Cleared (authenticated ∷ ms) c c' st h p = kept (authenticated ∷ ms) c c' st h p
  after_token-Cleared (administrators ∷ ms) c c' st h p =
      let (c1, first, rest) =
        continued-Passed _ (apply lib cfg redis matches now req administrators c st) c' p in
      let (same, role) = admin_only-pass lib cfg now req.authorization c c1 first in
      let end = run_chain-User (administrators ∷ ms) c c' st h p in
      (subst User (sym end) h, ap (λ x. x.role) end ∙ role)

  run_chain-Cleared :
      (ms : List Middleware) (c c' : Context) (st : redis.State)
      → Passed (run_chain lib cfg redis matches now req ms c st) c'
      → ClearedFor (let_in ms) c'
  unfolding let_in run_chain apply
  run_chain-Cleared [] c c' st p = tt
  run_chain-Cleared (cors_headers ∷ ms) c c' st p =
      let (c1, first, rest) =
        continued-Passed _ (apply lib cfg redis matches now req cors_headers c st) c' p in
      run_chain-Cleared ms c1 c' _ rest
  run_chain-Cleared (limited name reqs ∷ ms) c c' st p =
      let (c1, first, rest) =
        continued-Passed _ (apply lib cfg redis matches now req (limited name reqs) c st) c' p in
      run_chain-Cleared ms c1 c' _ rest
  run_chain-Cleared (administrators ∷ ms) c c' st p =
      let (c1, first, rest) =
        continued-Passed _ (apply lib cfg redis matches now req administrators c st) c' p in
      run_chain-Cleared ms c1 c' _ rest
  run_chain-Cleared (authenticated ∷ ms) c c' st p =
      let (c1, first, rest) =
        continued-Passed _ (apply lib cfg redis matches now req authenticated c st) c' p in
      after_token-Cleared ms c1 c' _ (required-IsUser lib cfg now req.authorization c c1 first) rest

  find_route-Guarded :
      (rs : List Route) (r : Route)
      → All Guarded rs
      → find_route lib cfg redis matches req rs ≡ some r
      → Guarded r
  unfolding find_route
  find_route-Guarded [] r h e = absurd (ground arith)
  find_route-Guarded (x ∷ rs) r (g, h) e = elim (Bool-cases (matches x req)) [
    | inl y ↦ subst Guarded (let k = rw y at e in ground arith) g
    | inr n ↦ find_route-Guarded rs r h (let k = rw n at e in k)
  ]

  reached-handled :
      (g h : Handler) (r : redis.State × Verdict) (c : Context)
      → (reached lib cfg redis matches g r).1 ≡ handled h c
      → (g ≡ h) × Passed r c
  unfolding reached
  reached-handled g h (st, refuse x) c e = absurd (ground arith)
  reached-handled g h (st, pass c1) c e = (ground arith, ground arith)

  unmatched-handled :
      (h : Handler) (r : redis.State × Verdict) (c : Context)
      → (unmatched lib cfg redis matches r).1 ≢ handled h c
  unfolding unmatched
  unmatched-handled h (st, refuse x) c = ground arith
  unmatched-handled h (st, pass c1) c = ground arith

  dispatch-Cleared :
      (st : redis.State) (o : Option Route) (h : Handler) (c : Context)
      → find_route lib cfg redis matches req routes ≡ o
      → (dispatch lib cfg redis matches now req st o).1 ≡ handled h c
      → ClearedFor (audience h) c
  unfolding dispatch Guarded
  dispatch-Cleared st none h c found e = absurd (unmatched-handled h _ c e)
  dispatch-Cleared st (some r) h c found e =
      let (same, passed) = reached-handled r.handler h _ c e in
      let guarded = find_route-Guarded routes r routes-Guarded found in
      subst (λ a. ClearedFor a c) (guarded ∙ ap audience same)
        (run_chain-Cleared r.chain fresh_context c st passed)

  -- A request that reaches a handler for users has a valid access token, whose user and role are
  -- those of its context; a request that reaches a handler for administrators has moreover the role
  -- of one.
  pub serve-Cleared :
      (st : redis.State) (h : Handler) (c : Context)
      → (serve lib cfg redis matches now req st).1 ≡ handled h c
      → Cleared lib cfg now req.authorization (audience h) c
  unfolding serve
  serve-Cleared st h c e = dispatch-Cleared st _ h c refl e
