-- ===== src/ControlPlane/Gate/Limits.antt =====
-- rateLimitByIP of internal/handler/ratelimit.go against what it promises: a fixed number of requests
-- in each window for each client.
use ghost_node.Prelude.{
  ℕ, ◌+◌, String, ◌≡◌, refl, ap, ◌∙◌, inl, inr, Bool, true, false, ◌&&◌, List, [], ◌∷◌, arith, ◌==◌,
  ltb, leb, eqb, if◌then◌else◌, Bool-cases, ok,
}
use ghost_node.ControlPlane.Gate.{Key, Redis, truncate, limit, rate_limit_by_ip}

-- The requests seen so far by one limiter: the start of the window and the client.
abbrev Log : Type 0
Log = List (ℕ × String)

unfoldable pub seen : ℕ → String → Log → ℕ
seen window ip [] = 0
seen window ip ((start, client) ∷ log) =
    let rest = seen window ip log in if eqb start window && client == ip then rest + 1 else rest

-- The promise: a request goes on exactly if its client made fewer than `reqs` requests before it in
-- the same window. A request is its instant and its client.
unfoldable pub promised : (reqs window : ℕ) → Log → List (ℕ × String) → List Bool
promised reqs window log [] = []
promised reqs window log ((now, ip) ∷ rest) =
    let start = truncate now window in
    ltb (seen start ip log) reqs ∷ promised reqs window ((start, ip) ∷ log) rest

-- INCR counts each key on its own; EXPIRE takes no count away before the window has passed, and a
-- key is not used after its window.
pub record Counters (redis : Redis) : Type 0 where
  pub hits : redis.State → Key → ℕ
  pub counts : (st : redis.State) (key : Key) → (redis.incr st key).1 ≡ ok (hits st key + 1)
  pub remembers :
      (st : redis.State) (name ip other_ip : String) (start other_start : ℕ)
      → hits
          (redis.incr st (record { name = name; client_ip = ip; window_start = start })).0
          (record { name = name; client_ip = other_ip; window_start = other_start })
        ≡ hits st (record { name = name; client_ip = other_ip; window_start = other_start })
          + (if eqb start other_start && ip == other_ip then 1 else 0)
  pub keeps :
      (st : redis.State) (key other : Key) (ttl : ℕ)
      → hits (redis.expire st key ttl) other ≡ hits st other

counted :
    {a b : ℕ} (same : Bool) → a ≡ b → a + (if same then 1 else 0) ≡ (if same then b + 1 else b)
counted true h = omega (arith, h)
counted false h = omega (arith, h)

below : {a b : ℕ} (reqs : ℕ) → a ≡ b → leb (a + 1) reqs ≡ ltb b reqs
below reqs h = ground arith

module _ (redis : Redis) (counters : Counters redis) (name : String) (reqs window : ℕ) where
  open counters use {hits}

  -- The limiter on one request after another.
  pub limits : redis.State → List (ℕ × String) → List Bool
  limits st [] = []
  limits st ((now, ip) ∷ rest) =
      let (st', may) = rate_limit_by_ip redis name reqs window now ip st in may ∷ limits st' rest

  -- The counters of the name agree with the log.
  abbrev pub Agrees : redis.State → Log → Type 0
  Agrees st log =
      (start : ℕ) (ip : String)
      → hits st (record { name = name; client_ip = ip; window_start = start }) ≡ seen start ip log

  limit-hits :
      (st : redis.State) (n : ℕ) (key other : Key)
      → hits (limit redis reqs window key (st, ok n)).0 other ≡ hits st other
  unfolding limit
  limit-hits st n key other = elim (Bool-cases (eqb n 1)) [
    | inl y ↦ rw y (counters.keeps st key other (window + 1))
    | inr x ↦ rw x refl
  ]

  limit-may :
      (st : redis.State) (n : ℕ) (key : Key)
      → (limit redis reqs window key (st, ok n)).1 ≡ leb n reqs
  unfolding limit
  limit-may st n key = refl

  limit-Agrees :
      (st : redis.State) (now : ℕ) (ip : String) (log : Log)
      → Agrees st log
      → Agrees
          (rate_limit_by_ip redis name reqs window now ip st).0
          ((truncate now window, ip) ∷ log)
        × ((rate_limit_by_ip redis name reqs window now ip st).1
            ≡ ltb (seen (truncate now window) ip log) reqs)
  unfolding rate_limit_by_ip seen
  limit-Agrees st now ip log h =
      let start = truncate now window in
      let key : Key = record { name = name; client_ip = ip; window_start = start } in
      let st' = (redis.incr st key).0 in
      let answer : redis.incr st key ≡ (st', ok (hits st key + 1)) =
        ap (λ x. (st', x)) (counters.counts st key) in
      (
        (λ other_start other_ip.
            ap
              (λ r.
                hits (limit redis reqs window key r).0
                  (record { name = name; client_ip = other_ip; window_start = other_start }))
              answer
            ∙ limit-hits st' (hits st key + 1) key _
            ∙ counters.remembers st name ip other_ip start other_start
            ∙ counted (eqb start other_start && ip == other_ip) (h other_start other_ip)),
        ap (λ r. (limit redis reqs window key r).1) answer
            ∙ limit-may st' (hits st key + 1) key
            ∙ below reqs (h start ip),
      )

  -- On one request after another, of any clients at any instants, the limiter lets exactly those go
  -- on that the promise lets go on, where the counters of Redis work and agree with the requests
  -- seen before.
  pub limits_refine :
      (log : Log) (requests : List (ℕ × String)) (st : redis.State)
      → Agrees st log
      → limits st requests ≡ promised reqs window log requests
  unfolding limits promised
  limits_refine log [] st h = refl
  limits_refine log ((now, ip) ∷ rest) st h =
      let (agrees, same) = limit-Agrees st now ip log h in
      rw
        (
          same,
          limits_refine ((truncate now window, ip) ∷ log) rest
              (rate_limit_by_ip redis name reqs window now ip st).0 agrees,
        )
        refl
