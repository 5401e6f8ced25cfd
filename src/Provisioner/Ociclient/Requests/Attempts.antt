-- ===== src/Provisioner/Ociclient/Requests/Attempts.antt =====
-- How often do of internal/provisioner/ociclient/client.go sends a request.
use ghost_node.Prelude.{
  ℕ, zero, suc, ◌+◌, ◌-◌, ◌*◌, ◌≤◌, String, ◌≡◌, refl, subst, inl, inr, true, false, Option, none,
  some, arith, Bool-cases, Result, ok, err,
}
use ghost_node.Texts.{Text}
use ghost_node.Provisioner.Ociclient.Requests.{
  Method, RequestError, context_done, Http, transient, do_once, judge, resume, retry, tries, url_of,
  body_of, do_, built, signed, retries,
}

-- How a loop of at most `most` attempts ends after `n` of them.
pub data Ended {A : Type 0} (most : ℕ) : ℕ → Result RequestError A → Type 0 where
  answered : {n : ℕ} (out : A) → n ≤ most → Ended most n (ok out)
  refused : {n : ℕ} (e : RequestError) → n ≤ most → transient e ≡ false → Ended most n (err e)
  broken_off : {n : ℕ} (e : String) → n ≤ most → Ended most n (err (context_done e))
  worn_out : {n : ℕ} (e : RequestError) → n ≡ most → transient e ≡ true → Ended most n (err e)

moved :
    {A : Type 0} {m : ℕ} (most k : ℕ) (r : Result RequestError A)
    → m ≡ k
    → Ended most m r
    → Ended most k r
moved most k r e h = subst (λ j. Ended most j r) e h

add_one_between : (m n : ℕ) → m + 1 + n ≡ m + (n + 1)
add_one_between m n = omega arith

module _ (http : Http) {A : Type 0} (decode : Option (Text → Result String A))
    (count : http.State → ℕ)
    (sends : (st : http.State) (req : http.Request) → count (http.send st req).0 ≡ count st + 1)
    (waits : (st : http.State) (k : ℕ) → count (http.wait st k).0 ≡ count st) (most : ℕ) where
  open http use {State}

  abbrev Outcome : Type 0
  Outcome = State × Result RequestError (Option A)

  -- What is left of a loop ends well after `made` attempts.
  abbrev EndsAfter : ℕ → State → Outcome → Type 0
  EndsAfter made st o = (n : ℕ) × (count o.0 ≡ count st + n) × Ended most (made + n) o.1

  resume-Ended :
      (method : Method) (url : Text) (body : Option Text) (rest : State → Outcome) (made : ℕ)
      (w : State × Option String)
      → made ≤ most
      → ((st : State) → EndsAfter made st (rest st))
      → EndsAfter made w.0 (resume http decode method url body rest w)
  unfolding resume
  resume-Ended method url body rest made (st, some e) h k =
      (0, omega arith, broken_off e (omega arith))
  resume-Ended method url body rest made (st, none) h k = k st

  judge-Ended :
      (method : Method) (url : Text) (body : Option Text) (rest : State → RequestError → Outcome)
      (made : ℕ) (o : Outcome)
      → made ≤ most
      → ((st : State) (e : RequestError) → transient e ≡ true → EndsAfter made st (rest st e))
      → EndsAfter made o.0 (judge http decode method url body rest o)
  unfolding judge
  judge-Ended method url body rest made (st, ok out) h k =
      (0, omega arith, answered out (omega arith))
  judge-Ended method url body rest made (st, err e) h k = elim (Bool-cases (transient e)) [
    | inl t ↦ rw t (k st e t)
    | inr f ↦ rw f (0, omega arith, refused e (omega arith) f)
  ]

  module _ (method : Method) (url : Text) (body : Option Text) (req signed_req : http.Request)
      (builds : http.build method url body ≡ ok req)
      (signs : http.sign req body ≡ ok signed_req) where
    do_once-count : (st : State) → count (do_once http decode method url body st).0 ≡ count st + 1
    unfolding do_once built signed
    do_once-count st = rw (builds, signs) (sends st signed_req)

    -- One attempt and the rest.
    attempt-Ended :
        (rest : State → RequestError → Outcome) (made : ℕ) (st : State)
        → made + 1 ≤ most
        → ((st : State) (e : RequestError)
            → transient e ≡ true
            → EndsAfter (made + 1) st (rest st e))
        → EndsAfter made st
            (judge http decode method url body rest (do_once http decode method url body st))
    attempt-Ended rest made st h k =
        let ended =
          judge-Ended method url body rest (made + 1) (do_once http decode method url body st) h
            k in
        (
          ended.0 + 1,
          omega (arith, do_once-count st),
          moved most _ _ (add_one_between made ended.0) ended.2,
        )

    retry-Ended :
        (left attempt made : ℕ) (st : State) (last : RequestError)
        → transient last ≡ true
        → made + left ≡ most
        → EndsAfter made st (retry http decode method url body left attempt st last)
    unfolding retry
    retry-Ended zero attempt made st last t h = (0, omega arith, worn_out last (omega arith) t)
    retry-Ended (suc left) attempt made st last t h =
        let paused = http.wait st ((attempt - 1) * 2) in
        let ended = resume-Ended method url body _ made paused (omega arith) (λ st'.
          attempt-Ended (retry http decode method url body left (attempt + 1)) made st'
            (omega arith)
            (λ st'' e t'. retry-Ended left (attempt + 1) (made + 1) st'' e t' (omega arith))) in
        (ended.0, omega (arith, waits st ((attempt - 1) * 2)), ended.2)

-- Where the request can be built and signed, and a pause sends nothing, do sends it at least once
-- and at most four times: it succeeds, or ends with an error that another attempt would not help, or
-- because the context is done during a pause, or after exactly four attempts with an error after
-- which it would try again.
pub do_-Ended :
    (http : Http) {A : Type 0} (decode : Option (Text → Result String A)) (count : http.State → ℕ)
    (endpoint : Text) (method : Method) (path : Text) (query : Option Text)
    (input : Option (Result String Text)) (body : Option Text) (req signed_req : http.Request)
    (st : http.State)
    → ((st : http.State) (req : http.Request) → count (http.send st req).0 ≡ count st + 1)
    → ((st : http.State) (k : ℕ) → count (http.wait st k).0 ≡ count st)
    → body_of http decode method input ≡ ok body
    → http.build method (url_of http decode endpoint path query) body ≡ ok req
    → http.sign req body ≡ ok signed_req
    → (n : ℕ) × (count (do_ http decode endpoint method path query input st).0 ≡ count st + (1 + n))
      × Ended 4 (1 + n) (do_ http decode endpoint method path query input st).1
unfolding do_ tries retries
do_-Ended http decode count endpoint method path query input body req signed_req st sends waits
      encoded builds signs =
    let url = url_of http decode endpoint path query in
    let once =
      do_once-count http decode count sends waits 4 method url body req signed_req builds signs
        st in
    let ended =
      judge-Ended http decode count sends waits 4 method url body
        (retry http decode method url body 3 2) 1 (do_once http decode method url body st)
        (omega arith)
        (λ st' e t.
          retry-Ended http decode count sends waits 4 method url body req signed_req builds signs 3
            2 1 st' e t refl) in
    rw (encoded, do_) (ended.0, omega (arith, once), ended.2)
