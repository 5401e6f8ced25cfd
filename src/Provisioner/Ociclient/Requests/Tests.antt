-- ===== src/Provisioner/Ociclient/Requests/Tests.antt =====
-- Runs of the requests of internal/provisioner/ociclient/client.go, and an instance of their theorem.
use ghost_node.Prelude.{ℕ, ◌+◌, ◌≡◌, refl, Option, none, some, [], ltb, if◌then◌else◌, Result, ok}
use ghost_node.Texts.{Text, codes}
use ghost_node.Provisioner.Ociclient.Requests.{
  get, RequestError, Http, transient, do_once, judge, resume, retry, tries, url_of, body_of, do_,
  built, signed, received, decoded, said, api_error, retries,
}
use ghost_node.Provisioner.Ociclient.Requests.Attempts.{Ended, do_-Ended}

-- A server that answers with the status `busy` to the first `failures` requests; the state is the
-- number of requests that were sent.
abbrev server : (failures busy : ℕ) → Http
server failures busy = record {
  State = ℕ;
  Request = Text;
  build = λ method url body. ok url;
  sign = λ req body. ok req;
  send = λ st req. (
    st + 1,
    ok (record {
      status = if ltb st failures then busy else 200;
      request_id = codes "r1";
      body = ok [];
    }),
  );
  wait = λ st seconds. (st, none);
  error_body = λ body. none;
}

abbrev call : ℕ → ℕ → ℕ × Result RequestError (Option Text)
call failures busy =
    do_ (server failures busy) {A = Text} none (codes "https://h") get (codes "/20160918/instances")
      (some (codes "limit=1")) none 0

do_-Ended_example : (n : ℕ) × ((call 2 503).0 ≡ 0 + (1 + n)) × Ended 4 (1 + n) (call 2 503).1
unfolding body_of url_of
do_-Ended_example =
    do_-Ended (server 2 503) {A = Text} none (λ st. st) (codes "https://h") get
      (codes "/20160918/instances") (some (codes "limit=1")) none none
      (codes "https://h/20160918/instances?limit=1") (codes "https://h/20160918/instances?limit=1")
      0 (λ st req. refl) (λ st k. refl) refl refl refl

-- The third attempt succeeds, and a status that will stay is not tried again.
recovers : call 2 503 ≡ (3, ok none)
unfolding do_ tries retries retry resume judge do_once built signed received decoded body_of
    transient api_error
recovers = refl

gives_up : (call 9 404).0 ≡ 1
unfolding do_ tries retries retry resume judge do_once built signed received decoded body_of
    transient api_error said
gives_up = refl

four_times : (call 9 429).0 ≡ 4
unfolding do_ tries retries retry resume judge do_once built signed received decoded body_of
    transient api_error said
four_times = refl
