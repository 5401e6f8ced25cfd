-- ===== src/Provisioner/Cloudflare.antt =====
-- internal/provisioner/dns/cloudflare.go: the A record of a node at Cloudflare. The exchange of
-- requests and the JSON codec are parameters; a formatted text is kept as the data that it shows.
pub mod Names
pub mod Zones
pub mod Upserting
mod Tests
use ghost_node.Prelude.{
  ℕ, String, Bool, true, false, Option, none, some, List, [], ◌∷◌, ◌==◌, eqb, if◌then◌else◌, Result,
  ok, err,
}
use ghost_node.Prelude.Int.{ℤ, pos, leb_ℤ}
use ghost_node.Texts.{Text, codes, same}

pub data Method : Type 0 where
  get post patch : Method

-- The paths that the client asks for, beneath cloudflareAPI.
pub data Path_ : Type 0 where
  zones_named : Text → Path_
  records_named : String → Text → Path_
  dns_records : String → Path_
  dns_record : String → String → Path_

-- cfError
pub record CfError : Type 0 where
  pub code : ℤ
  pub message : String

-- cfDNSRecord
pub record CfDnsRecord : Type 0 where
  pub id : String
  pub type_ : String
  pub name : Text
  pub content : String
  pub ttl : ℤ
  pub proxied : Bool

pub record Zone : Type 0 where
  pub id : String
  pub name : String

pub data DnsError : Type 0 where
  token_required no_error_detail decoding_result : DnsError
  refused : List CfError → DnsError
  no_zone : Text → DnsError
  building_request reading_response : String → DnsError
  sending : Method → Path_ → String → DnsError
  not_json : ℕ → DnsError

-- net/http and encoding/json: a request is built, sent and its answer read; an answer and the JSON
-- in it are decoded.
pub record Api : Type 1 where
  pub State : Type 0
  pub Json : Type 0
  pub new_request : Method → Path_ → Option CfDnsRecord → Option String
  pub send :
      State → Method → Path_ → Option CfDnsRecord → State × Result String (ℕ × Result String Json)
  pub envelope : Json → Option (Bool × List CfError × Option Json)
  pub zones : Json → Option (List Zone)
  pub records : Json → Option (List CfDnsRecord)
  pub record_ : Json → Option CfDnsRecord

-- The struct Cloudflare. The cache is a list of its entries, the newest first.
pub record Cloudflare : Type 0 where
  pub token : String
  pub zone_id : String
  pub ttl : ℤ
  pub proxied : Bool
  pub zone_cache : List (Text × String)

-- NewCloudflare
abbrev pub new_cloudflare : String → String → Cloudflare
new_cloudflare token zone = record {
  token = token;
  zone_id = zone;
  ttl = pos 60;
  proxied = false;
  zone_cache = [];
}

-- cfResponse.err
pub err_of : Bool → List CfError → Option DnsError
err_of true errors = none
err_of false [] = some no_error_detail
err_of false (e ∷ errors) = some (refused (e ∷ errors))

-- c.zoneCache[candidate]
pub cached : Text → List (Text × String) → Option String
cached name [] = none
cached name ((k, id) ∷ entries) =
    let rest = cached name entries in if same k name then some id else rest

-- strings.TrimSuffix(fqdn, ".")
pub trim_dot : Text → Text
trim_dot [] = []
trim_dot (c ∷ []) = if eqb c b'.' then [] else c ∷ []
trim_dot (c ∷ d ∷ s) = c ∷ trim_dot (d ∷ s)

-- The texts strings.Join(labels[i:], ".") for the labels of `s`, from the second on.
pub parents : Text → List Text
parents [] = []
parents (c ∷ s) = let rest = parents s in if eqb c b'.' then s ∷ rest else rest

drop_last : List Text → List Text
drop_last [] = []
drop_last (x ∷ []) = []
drop_last (x ∷ y ∷ xs) = x ∷ drop_last (y ∷ xs)

-- The candidates of zoneFor: the name and its parents but for the last label.
pub candidates : Text → List Text
candidates fqdn = drop_last (trim_dot fqdn ∷ parents (trim_dot fqdn))

-- The record that Upsert sends.
pub wanted : Cloudflare → Text → String → CfDnsRecord
wanted c fqdn ip = record {
  id = "";
  type_ = "A";
  name = fqdn;
  content = ip;
  ttl = if leb_ℤ c.ttl (pos 0) then pos 60 else c.ttl;
  proxied = c.proxied;
}

abbrev pub no_record : CfDnsRecord
no_record = record { id = ""; type_ = ""; name = []; content = ""; ttl = pos 0; proxied = false }

module _ (api : Api) where
  open api use {State, Json}

  -- What do makes of the decoded result; `fresh` is the zero value of `out`.
  decoded : {A : Type 0} → (Json → Option A) → A → Option Json → Result DnsError A
  decoded decode fresh none = ok fresh
  decoded decode fresh (some raw) = elim (decode raw) [ none ↦ err decoding_result | some a ↦ ok a ]

  opened :
      {A : Type 0}
      → (Json → Option A)
      → A
      → ℕ
      → Option (Bool × List CfError × Option Json)
      → Result DnsError A
  opened decode fresh code none = err (not_json code)
  opened decode fresh code (some (success, errors, result)) = elim (err_of success errors) [
    | some e ↦ err e
    | none ↦ decoded decode fresh result
  ]

  answered :
      {A : Type 0}
      → (Json → Option A)
      → A
      → Method
      → Path_
      → Result String (ℕ × Result String Json)
      → Result DnsError A
  answered decode fresh method path (err e) = err (sending method path e)
  answered decode fresh method path (ok (code, err e)) = err (reading_response e)
  answered decode fresh method path (ok (code, ok raw)) =
      opened decode fresh code (api.envelope raw)

  -- do
  pub do_ :
      {A : Type 0}
      → (Json → Option A)
      → A
      → State
      → Method
      → Path_
      → Option CfDnsRecord
      → State × Result DnsError A
  do_ decode fresh st method path body = elim (api.new_request method path body) [
    | some e ↦ (st, err (building_request e))
    | none ↦
        let (st', answer) = api.send st method path body in
        (st', answered decode fresh method path answer)
  ]

  abbrev pub Walk : Type 0
  Walk = Cloudflare × State × Result DnsError String

  -- After the zones of `candidate` were asked for; `next` goes on with the loop.
  looked_up : Cloudflare → Text → (State → Walk) → State × Result DnsError (List Zone) → Walk
  looked_up c candidate next (st, err e) = (c, st, err e)
  looked_up c candidate next (st, ok []) = next st
  looked_up c candidate next (st, ok (z ∷ zs)) =
      (record c { zone_cache = (candidate, z.id) ∷ c.zone_cache }, st, ok z.id)

  -- The loop of zoneFor over the candidates to come.
  pub walk : Cloudflare → Text → State → List Text → Walk
  walk c fqdn st [] = (c, st, err (no_zone fqdn))
  walk c fqdn st (candidate ∷ rest) = elim (cached candidate c.zone_cache) [
    | some id ↦ (c, st, ok id)
    | none ↦
        looked_up c candidate (λ st'. walk c fqdn st' rest)
          (do_ api.zones [] st get (zones_named candidate) none)
  ]

  -- zoneFor
  pub zone_for : Cloudflare → State → Text → Walk
  zone_for c st fqdn =
      if c.zone_id == "" then walk c fqdn st (candidates fqdn) else (c, st, ok c.zone_id)

  first_record : Result DnsError (List CfDnsRecord) → Result DnsError (Option CfDnsRecord)
  first_record (err e) = err e
  first_record (ok []) = ok none
  first_record (ok (r ∷ rs)) = ok (some r)

  -- findRecord
  pub find_record : State → String → Text → State × Result DnsError (Option CfDnsRecord)
  find_record st zone fqdn =
      let (st', found) = do_ api.records [] st get (records_named zone fqdn) none in
      (st', first_record found)

  failure : {A : Type 0} → State × Result DnsError A → State × Option DnsError
  failure (st, ok a) = (st, none)
  failure (st, err e) = (st, some e)

  -- The end of Upsert, once the existing record is known.
  pub write_record :
      Cloudflare
      → String
      → Text
      → String
      → State × Result DnsError (Option CfDnsRecord)
      → State × Option DnsError
  write_record c zone fqdn ip (st, err e) = (st, some e)
  write_record c zone fqdn ip (st, ok none) =
      failure (do_ api.record_ no_record st post (dns_records zone) (some (wanted c fqdn ip)))
  write_record c zone fqdn ip (st, ok (some r)) =
      let sent =
        do_ api.record_ no_record st patch (dns_record zone r.id) (some (wanted c fqdn ip)) in
      if r.content == ip then (st, none) else failure sent

  -- Upsert after zoneFor.
  pub in_zone : Text → String → Walk → Cloudflare × State × Option DnsError
  in_zone fqdn ip (c, st, err e) = (c, st, some e)
  in_zone fqdn ip (c, st, ok zone) =
      let (st', e) = write_record c zone fqdn ip (find_record st zone fqdn) in (c, st', e)

  -- Upsert
  pub upsert : Cloudflare → State → Text → String → Cloudflare × State × Option DnsError
  upsert c st fqdn ip =
      let done = in_zone fqdn ip (zone_for c st fqdn) in
      if c.token == "" then (c, st, some token_required) else done
