-- ===== src/Runner/Applying.antt =====
-- src/test.rs: what applying a request with the runner gives.
use finch_router.Prelude.{
  ℕ, ◌≡◌, refl, ◌∙◌, ap, List, String, [], ◌∷◌, Option, none, some, Outcome, ok, arith,
}
use mathlib.Core.List.{append-nil}
use finch_router.Crates.{Crates}
use finch_router.Error.{Error}
use finch_router.Context.{PreflightContext, ActionContext, new_context, new_preflight}
use finch_router.Action.{incomplete, Endpoint}
use finch_router.Action.Runs.{Settles}
use finch_router.Body.{start, State, default_preflight}
use finch_router.Body.Receiving.{Streams, ended, chunk, receive_all_action, receive_all-Settles}
use finch_router.Ext.Future.Settling.{Resolves}
use finch_router.Output.{HeaderCrate}
use finch_router.Runner.{
  ReqBody, RequestHeaders, TestRunner, poll_req_body, prepare_headers, prepare_request, apply_raw,
}
use finch_router.Runner.Requests.{UriCrate, insert_absent, text_body, body_request}
use finch_router.Service.{AppFuture, poll_apply}
use finch_router.Service.Driving.{first_context, dispatch-Settles}

module _ {k : Crates} (h : HeaderCrate k) (q : RequestHeaders k) where
  -- the request that is dispatched
  abbrev pub completed_request : {A T : Type 0} → TestRunner k A T → k.Request → k.Request
  completed_request r request = q.set_headers (prepare_headers h q r (q.headers request)) request

  -- Where the runtime gives what a future resolves to, and the check of the endpoint is incomplete on
  -- the completed request, applying a request gives what polling the action settles with.
  pub apply_raw-Settles :
      {A T : Type 0} (r : TestRunner k A T) (block_on : AppFuture k ReqBody A → Outcome Error T)
      (blocks : (x : Outcome Error T) (fut' fut : AppFuture k ReqBody A)
        → Resolves (poll_apply r.endpoint.behaviour) x fut' fut
        → block_on fut ≡ x)
      (request : k.Request) (body : ReqBody) {x : Outcome Error T} {s s' : A}
      {cx' : ActionContext k ReqBody} {px : PreflightContext k}
      → r.endpoint.behaviour.preflight r.endpoint.action
          (new_preflight (new_context (completed_request r request)))
        ≡ (ok incomplete, s, px)
      → Settles r.endpoint.behaviour x s' cx' s (first_context (completed_request r request) body)
      → apply_raw h q block_on r (ok (request, body)) ≡ x
  unfolding apply_raw prepare_request
  apply_raw-Settles r block_on blocks request body p st =
      blocks _ _ _ (dispatch-Settles r.endpoint (completed_request r request) body p st)

  req_body-Streams :
      (bytes : List ℕ)
      → Streams poll_req_body (record { bytes = none }) (bytes ∷ []) (record { bytes = some bytes })
  unfolding poll_req_body
  req_body-Streams bytes = chunk refl (ended refl)

  abbrev pub receiving_all : Endpoint k ReqBody (State ReqBody) (List ℕ)
  receiving_all = record { action = start; behaviour = receive_all_action poll_req_body 2 }

  abbrev pub receiving_runner : Option k.HeaderMap → TestRunner k (State ReqBody) (List ℕ)
  receiving_runner headers = record { endpoint = receiving_all; default_headers = headers }

  -- a request with a body is answered with the bytes of the body
  apply_raw_receives :
      (headers : Option k.HeaderMap)
      (block_on : AppFuture k ReqBody (State ReqBody) → Outcome Error (List ℕ))
      (blocks : (x : Outcome Error (List ℕ)) (fut' fut : AppFuture k ReqBody (State ReqBody))
        → Resolves (poll_apply receiving_all.behaviour) x fut' fut
        → block_on fut ≡ x)
      (request : k.Request) (bytes : List ℕ)
      → apply_raw h q block_on
          (receiving_runner headers)
          (ok (request, record { bytes = some bytes }))
        ≡ ok bytes
  unfolding default_preflight
  apply_raw_receives headers block_on blocks request bytes =
      let r = receiving_runner headers in
      let cx : ActionContext k ReqBody =
        first_context (completed_request r request) (record { bytes = some bytes }) in
      let settled =
        receive_all-Settles poll_req_body 2 cx refl (req_body-Streams bytes) (omega arith) in
      apply_raw-Settles r block_on blocks request (record { bytes = some bytes }) refl settled
      ∙ ap ok (append-nil bytes)

  -- Where the media type of a text is a header value, and the runtime gives what a future resolves to,
  -- applying a request whose body is a text to an endpoint that receives all gives the bytes of the
  -- text, whatever the headers of the request and the default headers are.
  pub apply_raw-body_request :
      (u : UriCrate k) (headers : Option k.HeaderMap)
      (block_on : AppFuture k ReqBody (State ReqBody) → Outcome Error (List ℕ))
      (blocks : (x : Outcome Error (List ℕ)) (fut' fut : AppFuture k ReqBody (State ReqBody))
        → Resolves (poll_apply receiving_all.behaviour) x fut' fut
        → block_on fut ≡ x)
      (request : k.Request) (text : String) {value : k.HeaderValue}
      → u.parse_value "text/plain; charset=utf-8" ≡ ok value
      → apply_raw h q block_on
          (receiving_runner headers)
          (body_request h q u (text_body h q u) (request, text))
        ≡ ok (u.text_bytes text)
  unfolding body_request text_body
  apply_raw-body_request u headers block_on blocks request text {value} e = rw e (
      apply_raw_receives headers block_on blocks (insert_absent h q u "content-type" value request)
        (u.text_bytes text))
