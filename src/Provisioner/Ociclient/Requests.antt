-- ===== src/Provisioner/Ociclient/Requests.antt =====
-- The requests of internal/provisioner/ociclient/client.go: do and doOnce. HTTP, JSON, the signer
-- and the pause between two attempts are a parameter, and the state of the world is theirs.
pub mod Attempts
mod Tests
use ghost_node.Prelude.{
  ℕ, zero, suc, ◌+◌, ◌-◌, ◌*◌, String, Bool, true, ◌&&◌, ◌||◌, Option, none, some, [], ◌∷◌, ◌++◌,
  leb, eqb, if◌then◌else◌, Result, ok, err,
}
use ghost_node.Texts.{Text, codes, trim_space}

-- http.MethodPost and the others that the client uses.
pub data Method : Type 0 where
  get post put delete : Method

pub record ApiError : Type 0 where
  pub status : ℕ
  pub code : Text
  pub message : Text
  pub request_id : Text

-- `context_done` is ctx.Err(); the others are wrapped errors.
pub data RequestError : Type 0 where
  encoding_body building signing sending reading decoding context_done : String → RequestError
  api : ApiError → RequestError

pub record Response : Type 0 where
  pub status : ℕ
  pub request_id : Text
  pub body : Result String Text

pub record Http : Type 1 where
  pub State : Type 0
  pub Request : Type 0
  pub build : Method → Text → Option Text → Result String Request
  pub sign : Request → Option Text → Result String Request
  pub send : State → Request → State × Result String Response
  pub wait : State → ℕ → State × Option String
  -- The code and the message of an error's body, where it is JSON.
  pub error_body : Text → Option (Text × Text)

-- maxAttempts, less the first.
retries : ℕ
retries = 3

-- err after doOnce: whether the loop goes on.
pub transient : RequestError → Bool
transient (api e) = eqb e.status 429 || leb 500 e.status
transient (encoding_body e) = true
transient (building e) = true
transient (signing e) = true
transient (sending e) = true
transient (reading e) = true
transient (decoding e) = true
transient (context_done e) = true

module _ (http : Http) {A : Type 0} (decode : Option (Text → Result String A)) where
  open http use {State, Request}

  said : Text → Option (Text × Text) → Text × Text
  said body none = ([], trim_space body)
  said body (some (code, [])) = (code, trim_space body)
  said body (some (code, c ∷ message)) = (code, c ∷ message)

  api_error : Response → Text → ApiError
  api_error resp body =
      let parts = said body (http.error_body body) in
      record {
        status = resp.status;
        code = parts.0;
        message = parts.1;
        request_id = resp.request_id;
      }

  decoded : Text → Option (Text → Result String A) → Result RequestError (Option A)
  decoded body none = ok none
  decoded [] (some read) = ok none
  decoded (c ∷ body) (some read) = elim (read (c ∷ body)) [
    | ok out ↦ ok (some out)
    | err e ↦ err (decoding e)
  ]

  received : Result String Response → Result RequestError (Option A)
  received (err e) = err (sending e)
  received (ok resp) = elim resp.body [
    | err e ↦ err (reading e)
    | ok body ↦
        if leb 200 resp.status && leb resp.status 299
        then decoded body decode
        else err (api (api_error resp body))
  ]

  signed : State → Result String Request → State × Result RequestError (Option A)
  signed st (err e) = (st, err (signing e))
  signed st (ok req) = ((http.send st req).0, received (http.send st req).1)

  built : Option Text → State → Result String Request → State × Result RequestError (Option A)
  built body st (err e) = (st, err (building e))
  built body st (ok req) = signed st (http.sign req body)

  -- doOnce
  pub do_once : Method → Text → Option Text → State → State × Result RequestError (Option A)
  do_once method url body st = built body st (http.build method url body)

  module _ (method : Method) (url : Text) (body : Option Text) where
    -- The end of one attempt; `rest` is the rest of the loop.
    judge :
        (State → RequestError → State × Result RequestError (Option A))
        → State × Result RequestError (Option A)
        → State × Result RequestError (Option A)
    judge rest (st, ok out) = (st, ok out)
    judge rest (st, err e) = if transient e then rest st e else (st, err e)

    resume :
        (State → State × Result RequestError (Option A))
        → State × Option String
        → State × Result RequestError (Option A)
    resume rest (st, some e) = (st, err (context_done e))
    resume rest (st, none) = rest st

    -- The attempts after the first: `left` of them, the next with the number `attempt`.
    pub retry : (left attempt : ℕ) → State → RequestError → State × Result RequestError (Option A)
    retry zero attempt st last = (st, err last)
    retry (suc left) attempt st last =
        resume (λ st'. judge (retry left (attempt + 1)) (do_once method url body st'))
          (http.wait st ((attempt - 1) * 2))

    -- The loop of do.
    pub tries : State → State × Result RequestError (Option A)
    tries st = judge (retry retries 2) (do_once method url body st)

  pub body_of : Method → Option (Result String Text) → Result RequestError (Option Text)
  body_of method (some (ok body)) = ok (some body)
  body_of method (some (err e)) = err (encoding_body e)
  body_of post none = ok (some (codes "{}"))
  body_of put none = ok (some (codes "{}"))
  body_of get none = ok none
  body_of delete none = ok none

  pub url_of : Text → Text → Option Text → Text
  url_of endpoint path none = endpoint ++ path
  url_of endpoint path (some query) = endpoint ++ path ++ b'?' ∷ query

  -- do; `input` is what json.Marshal makes of `in`, and `query` is query.Encode() where there is a query.
  pub do_ :
      (endpoint : Text)
      → Method
      → (path : Text) → (query : Option Text) → Option (Result String Text)
      → State
      → State × Result RequestError (Option A)
  do_ endpoint method path query input st = elim (body_of method input) [
    | err e ↦ (st, err e)
    | ok body ↦ tries method (url_of endpoint path query) body st
  ]
