-- ===== src/ControlPlane/Gate/Tests.antt =====
-- Runs of the routes, the middleware and the rate limiter, and instances of their theorems.
use ghost_node.Prelude.{
  ℕ, ◌+◌, String, ◌≡◌, refl, Bool, true, false, ◌&&◌, some, List, [], ◌∷◌, arith, ◌==◌, eq_refl,
  eqb, if◌then◌else◌, ok, err,
}
use ghost_node.Texts.{equal_fold, fold, same, is_space}
use ghost_node.ControlPlane.Models.{Role, role_user, role_admin}
use ghost_node.ControlPlane.Jwt.{JwtLibrary, JwtConfig, Claims, validate_access_token}
use ghost_node.ControlPlane.Gate.{
  Context, Key, Redis, list_users, Route, routes, Request, get, handled, refused, admin_required,
  serve, dispatch, reached, find_route, run_chain, continued, apply, is_options, rate_limit_by_ip,
  limit, truncate, required, claimed, subject, admin_only, is_admin, extract_bearer, bearer_of,
  split_space, trim_start, trim_end,
}
use ghost_node.ControlPlane.Gate.Guards.{Cleared, audience, serve-Cleared}
use ghost_node.ControlPlane.Gate.Limits.{Counters, seen, promised, limits, limits_refine}

bearer_run : extract_bearer "BEARER  abc " ≡ "abc"
unfolding extract_bearer bearer_of split_space trim_start trim_end equal_fold fold same is_space
bearer_run = refl

no_bearer : extract_bearer "Basic abc" ≡ ""
unfolding extract_bearer bearer_of split_space trim_start trim_end equal_fold fold same is_space
no_bearer = refl

abbrev claims_of : Role → Claims
claims_of role = record {
  user_id = "u1";
  email = "a@b.c";
  role = role;
  registered = record { subject = "u1"; expires_at = 9; issued_at = 1; issuer = "vpnplatform" };
}

-- The token `boss` is an administrator's, and every other one a user's.
abbrev tokens : JwtLibrary
tokens = record {
  numeric_date = λ t. t;
  sign_claims = λ secret claims. ok "boss";
  sign_registered = λ secret claims. ok "refresh";
  parse_claims =
      λ now secret token. ok (claims_of (if token == "boss" then role_admin else role_user), true);
  parse_registered = λ now secret token. err "no";
  parse_uuid = λ id. ok id;
}

abbrev config : JwtConfig
config = record { secret = "s"; access_token_ttl = 8; refresh_token_ttl = 9 }

abbrev same_key : Key → Key → Bool
same_key a b = a.name == b.name && eqb a.window_start b.window_start && a.client_ip == b.client_ip

abbrev hits_of : List Key → Key → ℕ
hits_of [] key = 0
hits_of (k ∷ ks) key = let rest = hits_of ks key in if same_key k key then rest + 1 else rest

abbrev memory : Redis
memory = record {
  State = List Key;
  incr = λ st key. (key ∷ st, ok (hits_of st key + 1));
  expire = λ st key ttl. st;
}

abbrev exact : Route → Request → Bool
exact r req = req.path == "/api/v1/admin/users" && r.path == "/users"

abbrev asks : String → Request
asks header = record {
  verb = get;
  path = "/api/v1/admin/users";
  authorization = header;
  client_ip = "1.1.1.1";
}

abbrev boss : Context
boss = record { user_id = some "u1"; email = some "a@b.c"; role = some role_admin }

boss_run :
    (serve tokens config memory exact 100 (asks "Bearer boss") []).1 ≡ handled list_users boss
unfolding serve dispatch reached find_route run_chain continued apply is_options routes
    rate_limit_by_ip limit truncate required claimed subject admin_only is_admin extract_bearer
    bearer_of split_space trim_start trim_end equal_fold fold same is_space validate_access_token
boss_run = refl

user_run : (serve tokens config memory exact 100 (asks "Bearer joe") []).1 ≡ refused admin_required
unfolding serve dispatch reached find_route run_chain continued apply is_options routes
    rate_limit_by_ip limit truncate required claimed subject admin_only is_admin extract_bearer
    bearer_of split_space trim_start trim_end equal_fold fold same is_space validate_access_token
user_run = refl

serve-Cleared_example : Cleared tokens config 100 "Bearer boss" (audience list_users) boss
serve-Cleared_example =
    serve-Cleared tokens config memory exact 100 (asks "Bearer boss") [] list_users boss boss_run

added : (n : ℕ) (b : Bool) → (if b then n + 1 else n) ≡ n + (if b then 1 else 0)
added n true = refl
added n false = omega arith

key_counts :
    (st : List Key) (name ip other_ip : String) (start other_start : ℕ)
    → hits_of
        (record { name = name; client_ip = ip; window_start = start } ∷ st)
        (record { name = name; client_ip = other_ip; window_start = other_start })
      ≡ hits_of st (record { name = name; client_ip = other_ip; window_start = other_start })
        + (if eqb start other_start && ip == other_ip then 1 else 0)
key_counts st name ip other_ip start other_start =
    rw (eq_refl name) (added (hits_of st _) (eqb start other_start && ip == other_ip))

abbrev memory_counts : Counters memory
memory_counts = record {
  hits = hits_of;
  counts = λ st key. refl;
  remembers = key_counts;
  keeps = λ st key other ttl. refl;
}

limits_refine_example :
    limits memory memory_counts "auth" 2 60 []
      ((61, "a") ∷ (62, "a") ∷ (63, "b") ∷ (64, "a") ∷ (121, "a") ∷ [])
    ≡ promised 2 60 [] ((61, "a") ∷ (62, "a") ∷ (63, "b") ∷ (64, "a") ∷ (121, "a") ∷ [])
unfolding seen
limits_refine_example =
    limits_refine memory memory_counts "auth" 2 60 []
      ((61, "a") ∷ (62, "a") ∷ (63, "b") ∷ (64, "a") ∷ (121, "a") ∷ []) [] (λ start ip. refl)

promised_run :
    promised 2 60 [] ((61, "a") ∷ (62, "a") ∷ (63, "b") ∷ (64, "a") ∷ (121, "a") ∷ [])
    ≡ true ∷ true ∷ true ∷ false ∷ true ∷ []
unfolding promised seen truncate
promised_run = refl
