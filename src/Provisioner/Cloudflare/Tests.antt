-- ===== src/Provisioner/Cloudflare/Tests.antt =====
-- Runs of the model of internal/provisioner/dns/cloudflare.go, and instances of its theorems.
use ghost_node.Prelude.{
  ℕ, String, ◌≡◌, refl, sym, ap, inl, true, false, Option, none, some, List, [], ◌∷◌, ◌++◌, map,
  arith, if◌then◌else◌, Result, ok, err,
}
use ghost_node.Prelude.Int.{pos}
use ghost_node.Texts.{Text, codes, same}
use ghost_node.Provisioner.Cloudflare.{
  Api, Cloudflare, CfDnsRecord, Method, get, post, patch, Path_, zones_named, records_named,
  dns_records, dns_record, Zone, new_cloudflare, err_of, cached, trim_dot, parents, drop_last,
  candidates, no_record, do_, opened, decoded, answered, looked_up, walk, zone_for, first_record,
  find_record, wanted, failure, write_record, in_zone, upsert,
}
use ghost_node.Provisioner.Cloudflare.Names.{dotted, zone_of}
use ghost_node.Provisioner.Cloudflare.Zones.{Lists, IsCache, Refines, zone_for-Refines}
use ghost_node.Provisioner.Cloudflare.Upserting.{Records, Points, replace, upsert-Points}

data Reply : Type 0 where
  zones_reply : List Zone → Reply
  records_reply : List CfDnsRecord → Reply
  record_reply : CfDnsRecord → Reply

abbrev read_zones : Reply → Option (List Zone)
read_zones (zones_reply zs) = some zs
read_zones (records_reply rs) = none
read_zones (record_reply r) = none

abbrev read_records : Reply → Option (List CfDnsRecord)
read_records (zones_reply zs) = none
read_records (records_reply rs) = some rs
read_records (record_reply r) = none

abbrev read_record : Reply → Option CfDnsRecord
read_record (zones_reply zs) = none
read_record (records_reply rs) = none
read_record (record_reply r) = some r

-- The zones that the server knows.
abbrev directory : Text → Option String
directory name = if same name (codes "example.com") then some "z1" else none

abbrev zones_of : Option String → List Zone
zones_of none = []
zones_of (some id) = record { id = id; name = "example.com" } ∷ []

abbrev added_record : Option CfDnsRecord → List CfDnsRecord
added_record none = []
added_record (some r) = record r { id = "r1" } ∷ []

abbrev patched : String → Option CfDnsRecord → List CfDnsRecord → List CfDnsRecord
patched id none rs = rs
patched id (some r) rs = map (replace id r) rs

-- A server that holds the records of one name.
abbrev serve :
    List CfDnsRecord
    → Method
    → Path_
    → Option CfDnsRecord
    → List CfDnsRecord × Result String (ℕ × Result String Reply)
serve st get (zones_named name) body = (st, ok (200, ok (zones_reply (zones_of (directory name)))))
serve st get (records_named zone name) body = (st, ok (200, ok (records_reply st)))
serve st post (dns_records zone) body =
    (st ++ added_record body, ok (200, ok (record_reply no_record)))
serve st patch (dns_record zone id) body =
    (patched id body st, ok (200, ok (record_reply no_record)))
serve st method path body = (st, err "bad request")

abbrev server : Api
server = record {
  State = List CfDnsRecord;
  Json = Reply;
  new_request = λ method path body. none;
  send = serve;
  envelope = λ raw. some (true, [], some raw);
  zones = read_zones;
  records = read_records;
  record_ = read_record;
}

server_lists : Lists server directory
unfolding do_ answered opened err_of decoded
server_lists st name = ground arith

server_records : Records server
unfolding do_ answered opened err_of decoded
server_records = record {
  records_of = λ st zone name. st;
  lists = λ st st' zone name rs e. ground arith;
  creates = λ st st' zone sent got e. ("r1", sym (ap (λ r. r.0) e));
  patches = λ st st' zone id sent got e. sym (ap (λ r. r.0) e);
}

abbrev client : Cloudflare
client = new_cloudflare "token" ""

abbrev kr : Text
kr = codes "kr.example.com"

abbrev made : CfDnsRecord
made = record {
  id = "r1";
  type_ = "A";
  name = kr;
  content = "1.2.3.4";
  ttl = pos 60;
  proxied = false;
}

abbrev client_after : Cloudflare
client_after = record client { zone_cache = (codes "example.com", "z1") ∷ [] }

zone_run : zone_for server client [] kr ≡ (client_after, [], ok "z1")
unfolding zone_for walk looked_up candidates drop_last trim_dot parents cached do_ answered opened
    err_of decoded same
zone_run = refl

upsert_run : upsert server client [] kr "1.2.3.4" ≡ (client_after, made ∷ [], none)
unfolding upsert in_zone write_record failure wanted find_record first_record zone_for walk
    looked_up candidates drop_last trim_dot parents cached do_ answered opened err_of decoded same
upsert_run = refl

upsert-Points_example :
    (zone : String) × ((zone_for server client [] kr).2 ≡ ok zone)
    × Points server server_records (made ∷ []) zone kr "1.2.3.4"
upsert-Points_example =
    upsert-Points server server_records client client_after [] (made ∷ []) kr "1.2.3.4" upsert_run

client-IsCache : IsCache server directory client
unfolding cached
client-IsCache name id e = ground arith

abbrev kr_labels : List Text
kr_labels = codes "kr" ∷ codes "example" ∷ codes "com" ∷ []

zone_for-Refines_example :
    Refines server directory kr (zone_of directory kr_labels) client (zone_for server client [] kr)
unfolding dotted
zone_for-Refines_example =
    zone_for-Refines server directory client [] kr kr_labels server_lists refl client-IsCache
      (ground arith)
      (
        (refl, (refl, tt)),
        (
          (refl, (refl, (refl, (refl, (refl, (refl, (refl, tt))))))),
          ((refl, (refl, (refl, tt))), tt),
        ),
      )
      (inl refl)

-- The search itself: the zone of the parent.
search_run : zone_of directory kr_labels ≡ some "z1"
unfolding zone_of dotted same
search_run = refl
