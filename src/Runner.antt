-- ===== src/Runner.antt =====
-- src/test.rs: the test runner, which completes a request with headers, dispatches it, and blocks on
-- the future. The request with its headers, and the runtime, are parameters.
pub mod Headers
pub mod Requests
pub mod Hosts
pub mod Applying
use finch_router.Prelude.{ℕ, String, List, [], ◌∷◌, Option, none, some, Outcome, ok, err, panicked}
use finch_router.Common.{One}
use finch_router.Crates.{Crates}
use finch_router.Error.{Error}
use finch_router.Action.{Async, ready, map_ok, Endpoint}
use finch_router.Output.{HeaderCrate}
use finch_router.Service.{AppFuture, dispatch, poll_apply}

-- `ReqBody`
pub record ReqBody : Type 0 where
  pub bytes : Option (List ℕ)

-- `ReqBody::poll_buf`
unfoldable pub poll_req_body : ReqBody → Outcome Error (Async (Option (List ℕ))) × ReqBody
poll_req_body body = (ok (ready body.bytes), record { bytes = none })

-- What the code calls of `http::Request` and of an iteration over a header map.
pub record RequestHeaders (k : Crates) : Type 0 where
  pub headers : k.Request → k.HeaderMap
  pub set_headers : k.HeaderMap → k.Request → k.Request
  pub pairs : k.HeaderMap → List (String × k.HeaderValue)

-- the default of the header User-Agent, with the version of the package
abbrev pub user_agent : String
user_agent = "finchers/0.14.0-dev"

-- `TestRunner`, without its runtime
pub record TestRunner (k : Crates) (A T : Type 0) : Type 0 where
  pub endpoint : Endpoint k ReqBody A T
  pub default_headers : Option k.HeaderMap

-- `TestRunner::with_runtime`
unfoldable pub with_runtime :
    {k : Crates} {A T : Type 0} → Endpoint k ReqBody A T → TestRunner k A T
with_runtime endpoint = record { endpoint = endpoint; default_headers = none }

module _ {k : Crates} (h : HeaderCrate k) (q : RequestHeaders k) where
  -- `or_insert`
  unfoldable pub or_insert : String → String → k.HeaderMap → k.HeaderMap
  or_insert name value headers = elim (h.get_all name headers) [
    | [] ↦ h.insert name (h.from_static value) headers
    | _ ∷ _ ↦ headers
  ]

  -- the loop over the default headers
  unfoldable pub append_pairs : List (String × k.HeaderValue) → k.HeaderMap → k.HeaderMap
  append_pairs [] headers = headers
  append_pairs ((name, value) ∷ rest) headers = append_pairs rest (h.append name value headers)

  module _ {A T : Type 0} where
    -- `TestRunner::default_headers`: the map that it lends, and the runner that has it
    unfoldable pub lend_default_headers : TestRunner k A T → k.HeaderMap × TestRunner k A T
    lend_default_headers r = elim r.default_headers [
      | some headers ↦ (headers, r)
      | none ↦ (h.new_headers, record r { default_headers = some h.new_headers })
    ]

    -- the default headers, where there are any
    abbrev pub defaults : TestRunner k A T → List (String × k.HeaderValue)
    defaults r = elim r.default_headers [ some m ↦ q.pairs m | none ↦ [] ]

    -- the headers of `prepare_request`
    unfoldable pub prepare_headers : TestRunner k A T → k.HeaderMap → k.HeaderMap
    unfolding or_insert append_pairs
    prepare_headers r headers =
        or_insert "user-agent" user_agent
          (or_insert "host" "localhost" (append_pairs (defaults r) headers))

    -- `prepare_request`, of a conversion that gives a request and its body, or the text of its error
    unfoldable pub prepare_request :
        TestRunner k A T
        → Outcome String (k.Request × ReqBody)
        → Outcome String (k.Request × ReqBody)
    unfolding prepare_headers
    prepare_request r (ok (request, body)) =
        ok (q.set_headers (prepare_headers r (q.headers request)) request, body)
    prepare_request r (err e) = err e
    prepare_request r panicked = panicked

    -- `apply_inner`; its `expect` panics where the request cannot be made
    unfoldable pub apply_inner :
        {R : Type 0}
        → TestRunner k A T
        → Outcome String (k.Request × ReqBody)
        → (AppFuture k ReqBody A → Outcome Error R)
        → Outcome Error R
    unfolding prepare_request
    apply_inner r request f = elim (prepare_request r request) [
      | ok (prepared, body) ↦ f (dispatch r.endpoint prepared body)
      | err _ ↦ panicked
      | panicked ↦ panicked
    ]

    -- `apply_raw`; `block_on` is the runtime's, over `poll_fn` of `poll_apply`
    unfoldable pub apply_raw :
        (AppFuture k ReqBody A → Outcome Error T)
        → TestRunner k A T
        → Outcome String (k.Request × ReqBody)
        → Outcome Error T
    unfolding apply_inner
    apply_raw block_on r request = apply_inner r request block_on

  -- `apply`
  unfoldable pub apply :
      {A T : Type 0}
      → (AppFuture k ReqBody A → Outcome Error (One T))
      → TestRunner k A (One T)
      → Outcome String (k.Request × ReqBody)
      → Outcome Error T
  unfolding apply_raw
  apply block_on r request = map_ok (λ x. x.0) (apply_raw block_on r request)
