-- ===== src/Provisioner/Cloudflare/Zones.antt =====
-- The zone that zoneFor of internal/provisioner/dns/cloudflare.go finds, against the directory of
-- zones that the API answers from: a plain search through the parents of a name.
use ghost_node.Prelude.{
  ℕ, String, ◌≡◌, refl, ap, ◌∙◌, subst, ◌≢◌, ◌⊎◌, inl, inr, Bool, true, false, Option, none, some,
  List, [], ◌∷◌, arith, eq_iff, Bool-cases, Option-cases, Result, ok, err, All,
}
use ghost_node.Texts.{Text, same, same_eq}
use ghost_node.Provisioner.Cloudflare.Names.{
  dotted, zone_of, parents_of, IsLabel, Spells, candidates-dotted,
}
use ghost_node.Provisioner.Cloudflare.{
  Api, Cloudflare, CfError, Method, get, Path_, zones_named, Zone, DnsError, no_zone, cached,
  candidates, do_, answered, opened, decoded, err_of, looked_up, walk, zone_for, Walk,
}

-- The first candidate that the directory knows.
search_zone : (Text → Option String) → List Text → Option String
search_zone directory [] = none
search_zone directory (name ∷ rest) = elim (directory name) [
  | some id ↦ some id
  | none ↦ search_zone directory rest
]

search_zone-parents_of :
    (directory : Text → Option String) (labels : List Text)
    → search_zone directory (parents_of labels) ≡ zone_of directory labels
unfolding search_zone parents_of zone_of
search_zone-parents_of directory [] = refl
search_zone-parents_of directory (label ∷ []) = refl
search_zone-parents_of directory (label ∷ next ∷ rest) =
    elim (Option-cases (directory (dotted (label ∷ next ∷ rest)))) [
      | inl n ↦
          rw (n, search_zone, parents_of, zone_of) (search_zone-parents_of directory (next ∷ rest))
      | inr (id, y) ↦ rw (y, search_zone, parents_of, zone_of) refl
    ]

module _ (api : Api) (directory : Text → Option String) where
  open api use {State, Json}

  -- An answer that lists the zones of a name agrees with the directory.
  abbrev pub Listed : Text → Result DnsError (List Zone) → Type 0
  Listed name (err e) = Unit
  Listed name (ok []) = directory name ≡ none
  Listed name (ok (z ∷ zs)) = directory name ≡ some z.id

  abbrev pub Lists : Type 0
  Lists =
      (st : State) (name : Text)
      → Listed name (do_ api api.zones [] st get (zones_named name) none).1

  -- Every entry of the cache stands in the directory.
  abbrev pub IsCache : Cloudflare → Type 0
  IsCache c =
      (name : Text) (id : String) → cached name c.zone_cache ≡ some id → directory name ≡ some id

  abbrev pub Agrees : Text → Option String → Result DnsError String → Type 0
  Agrees fqdn found (ok zone) = found ≡ some zone
  Agrees fqdn found (err e) = (e ≢ no_zone fqdn) ⊎ (found ≡ none)

  -- The client itself is not changed but for its cache.
  abbrev pub Refines : Text → Option String → Cloudflare → Walk api → Type 0
  Refines fqdn found c (c', st, r) =
      (c' ≡ record c { zone_cache = c'.zone_cache }) × IsCache c' × Agrees fqdn found r

  decoded_other :
      {A : Type 0} (decode : Json → Option A) (fresh : A) (result : Option Json) (fqdn : Text)
      → decoded api decode fresh result ≢ err (no_zone fqdn)
  unfolding decoded
  decoded_other decode fresh none fqdn = ground arith
  decoded_other decode fresh (some raw) fqdn = elim (Option-cases (decode raw)) [
    | inl n ↦ rw (n, decoded) (ground arith)
    | inr (a, y) ↦ rw (y, decoded) (ground arith)
  ]

  opened_other :
      {A : Type 0} (decode : Json → Option A) (fresh : A) (code : ℕ)
      (e : Option (Bool × List CfError × Option Json)) (fqdn : Text)
      → opened api decode fresh code e ≢ err (no_zone fqdn)
  unfolding opened err_of
  opened_other decode fresh code none fqdn = ground arith
  opened_other decode fresh code (some (true, errors, result)) fqdn =
      decoded_other decode fresh result fqdn
  opened_other decode fresh code (some (false, [], result)) fqdn = ground arith
  opened_other decode fresh code (some (false, e ∷ errors, result)) fqdn = ground arith

  answered_other :
      {A : Type 0} (decode : Json → Option A) (fresh : A) (method : Method) (path : Path_)
      (r : Result String (ℕ × Result String Json)) (fqdn : Text)
      → answered api decode fresh method path r ≢ err (no_zone fqdn)
  unfolding answered
  answered_other decode fresh method path (err e) fqdn = ground arith
  answered_other decode fresh method path (ok (code, err e)) fqdn = ground arith
  answered_other decode fresh method path (ok (code, ok raw)) fqdn =
      opened_other decode fresh code (api.envelope raw) fqdn

  -- The request for zones does not fail with the error of zoneFor.
  do_other :
      (st : State) (name fqdn : Text)
      → (do_ api api.zones [] st get (zones_named name) none).1 ≢ err (no_zone fqdn)
  unfolding do_
  do_other st name fqdn = elim (Option-cases (api.new_request get (zones_named name) none)) [
    | inl n ↦ rw (n, do_) (answered_other api.zones [] get (zones_named name) _ fqdn)
    | inr (e, y) ↦ rw (y, do_) (ground arith)
  ]

  remember-IsCache :
      (c : Cloudflare) (name : Text) (id : String)
      → IsCache c
      → directory name ≡ some id
      → IsCache (record c { zone_cache = (name, id) ∷ c.zone_cache })
  unfolding cached
  remember-IsCache c name id h known asked found e = elim (Bool-cases (same name asked)) [
    | inl y ↦
        subst (λ n. directory n ≡ some found) (same_eq name asked y)
          (known ∙ (let g = rw y at e in g))
    | inr n ↦ h asked found (let g = rw n at e in g)
  ]

  looked_up-Refines :
      (c : Cloudflare) (fqdn name : Text) (rest : List Text) (next : State → Walk api)
      (r : State × Result DnsError (List Zone))
      → IsCache c
      → Listed name r.1
      → r.1 ≢ err (no_zone fqdn)
      → ((st : State) → Refines fqdn (search_zone directory rest) c (next st))
      → Refines fqdn (search_zone directory (name ∷ rest)) c (looked_up api c name next r)
  unfolding looked_up search_zone
  looked_up-Refines c fqdn name rest next (st, err e) h l other later =
      (refl, h, inl (λ same_error. other (ap (λ x. err x) same_error)))
  looked_up-Refines c fqdn name rest next (st, ok []) h l other later =
      rw (l, search_zone) (later st)
  looked_up-Refines c fqdn name rest next (st, ok (z ∷ zs)) h l other later =
      (refl, remember-IsCache c name z.id h l, rw (l, search_zone) refl)

  walk-Refines :
      Lists
      → (c : Cloudflare) (fqdn : Text) (st : State) (names : List Text) → IsCache c
      → Refines fqdn (search_zone directory names) c (walk api c fqdn st names)
  unfolding walk search_zone
  walk-Refines lists c fqdn st [] h = (refl, h, inr refl)
  walk-Refines lists c fqdn st (name ∷ rest) h = elim (Option-cases (cached name c.zone_cache)) [
    | inl n ↦
        rw (n, walk)
          (looked_up-Refines c fqdn name rest _ _ h (lists st name) (do_other st name fqdn)
            (λ st'. walk-Refines lists c fqdn st' rest h))
    | inr (id, y) ↦ rw (y, walk, h name id y, search_zone) (refl, h, refl)
  ]

  -- Where the answers to requests for zones and the cache agree with a directory of zones, no zone
  -- is configured, and the name is spelt by labels, with or without a dot at the end, zoneFor answers
  -- the zone of the name or else of its nearest parent in the directory, the top-level domain left
  -- out; it reports that there is no zone only if the directory has none of them; and it changes
  -- nothing of the client but its cache, which agrees with the directory at the end.
  pub zone_for-Refines :
      (c : Cloudflare) (st : State) (fqdn : Text) (labels : List Text)
      → Lists
      → c.zone_id ≡ ""
      → IsCache c
      → labels ≢ []
      → All IsLabel labels
      → Spells fqdn labels
      → Refines fqdn (zone_of directory labels) c (zone_for api c st fqdn)
  unfolding zone_for
  zone_for-Refines c st fqdn labels lists unset h some_ good spelt =
      let found = walk-Refines lists c fqdn st (candidates fqdn) h in
      let same_zone : search_zone directory (candidates fqdn) ≡ zone_of directory labels =
        ap (search_zone directory) (candidates-dotted fqdn labels some_ good spelt)
        ∙ search_zone-parents_of directory labels in
      rw ((eq_iff c.zone_id "").1 unset)
        (subst (λ z. Refines fqdn z c (walk api c fqdn st (candidates fqdn))) same_zone found)
