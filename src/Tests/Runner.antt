-- ===== src/Tests/Runner.antt =====
-- A runner with one default header, and a runtime that polls once.
use finch_router.Prelude.{
  ℕ, ◌≡◌, ◌≢◌, refl, List, String, [], ◌∷◌, none, some, Outcome, ok, err, panicked, arith,
}
use finch_router.Crates.{get}
use finch_router.Error.{Error}
use finch_router.Action.{Async, ready, not_ready, EndpointAction}
use finch_router.Context.{take_body}
use finch_router.Body.{State, poll_receive_all, receive, default_preflight}
use finch_router.Ext.Future.Settling.{Resolves, resolved, pending}
use finch_router.Runner.{ReqBody, RequestHeaders, TestRunner, apply_raw, poll_req_body}
use finch_router.Runner.Applying.{receiving_all, receiving_runner, apply_raw-body_request}
use finch_router.Runner.Requests.{UriCrate, text_body, body_request}
use finch_router.Service.{AppFuture, poll_apply}
use finch_router.Tests.{a_bc}
use finch_router.Tests.Responses.{headed, headers}

-- the headers of a request are lost, and a map is its values under two names
abbrev carried : RequestHeaders headed
carried = record {
  headers = λ _ _. [];
  set_headers = λ _ r. r;
  pairs = λ m. elim (m "accept") [ [] ↦ [] | v ∷ _ ↦ ("accept", v) ∷ [] ];
}

abbrev runner : TestRunner headed (State ReqBody) (List ℕ)
runner = receiving_runner headers carried (some λ name. "text/plain" ∷ [])

abbrev once : {T : Type 0} → Outcome Error (Async T) → Outcome Error T
once (ok (ready x)) = ok x
once (ok not_ready) = panicked
once (err e) = err e
once panicked = panicked

abbrev Receiving : Type 0
Receiving = AppFuture headed ReqBody (State ReqBody)

abbrev endpoint : EndpointAction headed ReqBody (State ReqBody) (List ℕ)
endpoint = (receiving_all headers carried).behaviour

always_ready : (fut : Receiving) → (poll_apply endpoint fut).0 ≢ ok not_ready
unfolding poll_apply poll_receive_all receive poll_req_body take_body default_preflight
always_ready fut = ground arith

once-Resolves :
    (x : Outcome Error (List ℕ)) (fut' fut : Receiving)
    → Resolves (poll_apply endpoint) x fut' fut
    → once (poll_apply endpoint fut).0 ≡ x
once-Resolves (ok x) fut' fut (resolved e) = ground (arith, e)
once-Resolves (err x) fut' fut (resolved e) = ground (arith, e)
once-Resolves panicked fut' fut (resolved e) = ground (arith, e)
once-Resolves x fut' fut (pending e st) = absurd (always_ready fut (ground (arith, e)))

abbrev relative : UriCrate headed
relative = record {
  Uri = String;
  parse_uri = λ s. ok s;
  path_and_query = λ s. some s;
  authority_part = λ _. none;
  get = λ _. ok (get, a_bc);
  parse_value = λ s. ok s;
  text_bytes = λ _. 104 ∷ 105 ∷ [];
}

apply_raw-body_request_example :
    apply_raw headers carried
      (λ fut. once (poll_apply endpoint fut).0)
      runner
      (body_request headers carried relative
        (text_body headers carried relative)
        ((get, a_bc), "hi"))
    ≡ ok (104 ∷ 105 ∷ [])
apply_raw-body_request_example =
    apply_raw-body_request headers carried relative (some λ name. "text/plain" ∷ [])
      (λ fut. once (poll_apply endpoint fut).0) once-Resolves (get, a_bc) "hi" refl
