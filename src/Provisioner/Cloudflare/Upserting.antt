-- ===== src/Provisioner/Cloudflare/Upserting.antt =====
-- What Upsert of internal/provisioner/dns/cloudflare.go does to the records of a zone.
use ghost_node.Prelude.{
  String, ◌≡◌, refl, ap, ◌∙◌, subst, inl, inr, Option, none, some, List, [], ◌∷◌, ◌++◌, map, arith,
  ◌==◌, eq_iff, if◌then◌else◌, Bool-cases, Result, ok, err,
}
use ghost_node.Texts.{Text}
use ghost_node.Provisioner.Cloudflare.{
  Api, Cloudflare, CfDnsRecord, get, post, patch, records_named, dns_records, dns_record, DnsError,
  do_, Walk, zone_for, first_record, find_record, wanted, no_record, failure, write_record, in_zone,
  upsert,
}

-- A PATCH replaces the record of its id.
pub replace : String → CfDnsRecord → CfDnsRecord → CfDnsRecord
replace id sent r = if r.id == id then record sent { id = id } else r

-- The records of a zone that have a name, and what the documented requests do to them.
pub record Records (api : Api) : Type 1 where
  pub records_of : api.State → String → Text → List CfDnsRecord
  pub lists :
      (st st' : api.State) (zone : String) (name : Text) (rs : List CfDnsRecord)
      → do_ api api.records [] st get (records_named zone name) none ≡ (st', ok rs)
      → records_of st' zone name ≡ rs
  pub creates :
      (st st' : api.State) (zone : String) (sent got : CfDnsRecord)
      → do_ api api.record_ no_record st post (dns_records zone) (some sent) ≡ (st', ok got)
      → (id : String) × (records_of st' zone sent.name
          ≡ records_of st zone sent.name ++ record sent { id = id } ∷ [])
  pub patches :
      (st st' : api.State) (zone id : String) (sent got : CfDnsRecord)
      → do_ api api.record_ no_record st patch (dns_record zone id) (some sent) ≡ (st', ok got)
      → records_of st' zone sent.name ≡ map (replace id sent) (records_of st zone sent.name)

module _ (api : Api) (server : Records api) where
  open server use {records_of}

  -- The first record of the name in the zone has the address.
  pub Points : api.State → String → Text → String → Type 0
  Points st zone fqdn ip =
      (r : CfDnsRecord) × (rest : List CfDnsRecord) × (records_of st zone fqdn ≡ r ∷ rest)
      × (r.content ≡ ip)

  replaced_content :
      (c : Cloudflare) (fqdn : Text) (ip : String) (r : CfDnsRecord)
      → (replace r.id (wanted c fqdn ip) r).content ≡ ip
  unfolding replace wanted
  replaced_content c fqdn ip r = rw ((eq_iff r.id r.id).1 refl) refl

  failure-none :
      {A : Type 0} (st : api.State) (r : api.State × Result DnsError A)
      → failure api r ≡ (st, none)
      → (a : A) × (r ≡ (st, ok a))
  unfolding failure
  failure-none st (st', ok a) e = (a, ground arith)
  failure-none st (st', err x) e = absurd (ground arith)

  -- What findRecord has learnt of the records of the name.
  Found : String → Text → api.State × Result DnsError (Option CfDnsRecord) → Type 0
  Found zone fqdn (st, err e) = Unit
  Found zone fqdn (st, ok none) = records_of st zone fqdn ≡ []
  Found zone fqdn (st, ok (some r)) =
      (rest : List CfDnsRecord) × (records_of st zone fqdn ≡ r ∷ rest)

  first_record-Found :
      (zone : String) (fqdn : Text) (st : api.State) (r : Result DnsError (List CfDnsRecord))
      → ((rs : List CfDnsRecord) → r ≡ ok rs → records_of st zone fqdn ≡ rs)
      → Found zone fqdn (st, first_record api r)
  unfolding first_record Found
  first_record-Found zone fqdn st (err e) listed = tt
  first_record-Found zone fqdn st (ok []) listed = listed [] refl
  first_record-Found zone fqdn st (ok (r ∷ rs)) listed = (rs, listed (r ∷ rs) refl)

  find_record-Found :
      (st : api.State) (zone : String) (fqdn : Text)
      → Found zone fqdn (find_record api st zone fqdn)
  unfolding find_record
  find_record-Found st zone fqdn =
      let asked = do_ api api.records [] st get (records_named zone fqdn) none in
      first_record-Found zone fqdn asked.0 asked.1
        (λ rs e. server.lists st asked.0 zone fqdn rs (ap (λ r. (asked.0, r)) e))

  created-Points :
      (c : Cloudflare) (st st' : api.State) (zone : String) (fqdn : Text) (ip : String)
      → records_of st zone fqdn ≡ []
      → failure api
          (do_ api api.record_ no_record st post (dns_records zone) (some (wanted c fqdn ip)))
        ≡ (st', none)
      → Points st' zone fqdn ip
  unfolding Points wanted
  created-Points c st st' zone fqdn ip empty e =
      let (got, sent) = failure-none st' _ e in
      let (id, after) = server.creates st st' zone (wanted c fqdn ip) got sent in
      (
        record (wanted c fqdn ip) { id = id },
        [],
        after ∙ ap (λ rs. rs ++ record (wanted c fqdn ip) { id = id } ∷ []) empty,
        refl,
      )

  replaced-Points :
      (c : Cloudflare) (st st' : api.State) (zone : String) (fqdn : Text) (ip : String)
      (r : CfDnsRecord) (rest : List CfDnsRecord)
      → records_of st zone fqdn ≡ r ∷ rest
      → failure api
          (do_ api api.record_ no_record st patch (dns_record zone r.id) (some (wanted c fqdn ip)))
        ≡ (st', none)
      → Points st' zone fqdn ip
  unfolding Points wanted
  replaced-Points c st st' zone fqdn ip r rest listed e =
      let (got, sent) = failure-none st' _ e in
      let after = server.patches st st' zone r.id (wanted c fqdn ip) got sent in
      (
        replace r.id (wanted c fqdn ip) r,
        map (replace r.id (wanted c fqdn ip)) rest,
        after ∙ ap (λ rs. map (replace r.id (wanted c fqdn ip)) rs) listed,
        replaced_content c fqdn ip r,
      )

  write_record-Points :
      (c : Cloudflare) (st' : api.State) (zone : String) (fqdn : Text) (ip : String)
      (found : api.State × Result DnsError (Option CfDnsRecord))
      → Found zone fqdn found
      → write_record api c zone fqdn ip found ≡ (st', none)
      → Points st' zone fqdn ip
  unfolding write_record Found Points
  write_record-Points c st' zone fqdn ip (st, err x) h e = absurd (ground arith)
  write_record-Points c st' zone fqdn ip (st, ok none) h e =
      created-Points c st st' zone fqdn ip h e
  write_record-Points c st' zone fqdn ip (st, ok (some r)) (rest, h) e =
      elim (Bool-cases (r.content == ip)) [
        | inl y ↦
            let g : (st, none) ≡ (st', none) = (let g = rw y at e in g) in
            (
              r,
              rest,
              subst (λ s. records_of s zone fqdn ≡ r ∷ rest) (ap (λ x. x.0) g) h,
              (eq_iff r.content ip).0 y,
            )
        | inr n ↦ replaced-Points c st st' zone fqdn ip r rest h (let g = rw n at e in g)
      ]

  in_zone-Points :
      (c c' : Cloudflare) (st' : api.State) (fqdn : Text) (ip : String) (w : Walk api)
      → in_zone api fqdn ip w ≡ (c', st', none)
      → (zone : String) × (w.2 ≡ ok zone) × Points st' zone fqdn ip
  unfolding in_zone
  in_zone-Points c c' st' fqdn ip (c1, st, err x) e = absurd (ground arith)
  in_zone-Points c c' st' fqdn ip (c1, st, ok zone) e = (
    zone,
    refl,
    write_record-Points c1 st' zone fqdn ip _ (find_record-Found st zone fqdn)
        (ap (λ x. (x.1, x.2)) e),
  )

  -- After an Upsert without error, the first record of the name, in the zone that zoneFor found, has
  -- the address, where the requests answer from the records of the zones: a listing lists them, a
  -- created record is added at the end, and a patch replaces the record of its id.
  pub upsert-Points :
      (c c' : Cloudflare) (st st' : api.State) (fqdn : Text) (ip : String)
      → upsert api c st fqdn ip ≡ (c', st', none)
      → (zone : String) × ((zone_for api c st fqdn).2 ≡ ok zone) × Points st' zone fqdn ip
  unfolding upsert
  upsert-Points c c' st st' fqdn ip e = elim (Bool-cases (c.token == "")) [
    | inl y ↦ absurd (let g = rw y at e in ground arith)
    | inr n ↦ in_zone-Points c c' st' fqdn ip _ (let g = rw n at e in g)
  ]
