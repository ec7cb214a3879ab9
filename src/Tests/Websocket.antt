-- ===== src/Tests/Websocket.antt =====
-- A handshake, and a request without a key.
use text.Mathlib.Text.{◌==◌ as str_eq}
use finch_router.Prelude.{
  ℕ, String, ◌≡◌, ◌⊎◌, inl, inr, arith, codes, bytes_eq, if◌then◌else◌, refl, List, [], ◌∷◌, none,
  some, Outcome, ok, panicked,
}
use finch_router.Common.{One, one}
use finch_router.Crates.{get, post}
use finch_router.Context.{ActionContext, new_context}
use finch_router.Action.{Endpoint, ready}
use finch_router.Ext.Future.Settling.{Resolves}
use finch_router.Output.{HttpResponse}
use finch_router.Service.{poll_apply, dispatch}
use finch_router.Service.Driving.{flying, first_context}
use finch_router.Service.Response.{poll_response}
use finch_router.Websocket.{WsCrates, WsAction, poll_ws, ws}
use finch_router.Websocket.Handshake.{IsHandshake}
use finch_router.Websocket.Upgrading.{upgraded, dispatch-ws-Resolves, dispatch-ws_refused}
use finch_router.Tests.{a_bc}
use finch_router.Tests.Responses.{headed, headers, headers_laws, changes}

abbrev sixteen : List ℕ
sixteen = 1 ∷ 2 ∷ 3 ∷ 4 ∷ 5 ∷ 6 ∷ 7 ∷ 8 ∷ 9 ∷ 10 ∷ 11 ∷ 12 ∷ 13 ∷ 14 ∷ 15 ∷ 16 ∷ []

abbrev keyed : WsCrates headed
keyed = record {
  value_eq = str_eq;
  as_bytes = codes;
  from_text = λ s. s;
  base64_decode = λ _. some sixteen;
  base64_encode = λ bytes.
      if bytes_eq bytes (codes "key258EAFA5-E914-47DA-95CA-C5AB0DC85B11") then "hash" else "none";
  sha1 = λ bytes. bytes;
}

-- a task is given to the executor as it is
abbrev spawn_task : ℕ × List ℕ → List (ℕ × List ℕ) → Outcome String (Unit {0}) × List (ℕ × List ℕ)
spawn_task task tasks = (ok tt, task ∷ tasks)

abbrev endpoint :
    Endpoint headed (List ℕ) (WsAction ℕ (List (ℕ × List ℕ))) (One (HttpResponse headed String))
endpoint = ws keyed headers spawn_task 9 []

asked : IsHandshake keyed (get, a_bc) "hash"
asked = (
  ("Upgrade", refl, inl refl),
  ("websocket", refl, inr refl),
  ("13", refl, refl),
  "key",
  refl,
  sixteen,
  refl,
  refl,
  refl,
)

dispatch-ws-Resolves_example :
    let left : ActionContext headed (List ℕ) = record {
      context = new_context (get, a_bc);
      body = none;
    } in
    (response : HttpResponse headed String) × Resolves
      (poll_apply endpoint.behaviour)
      (ok (one response))
      (flying (upgraded keyed headers spawn_task ((9, 1 ∷ []) ∷ [])) left)
      (dispatch endpoint (get, a_bc) (1 ∷ []))
    × (response.status ≡ 101)
    × (response.headers "sec-websocket-accept" ≡ "hash" ∷ [])
    × ((poll_ws keyed headers spawn_task
          (upgraded keyed headers spawn_task ((9, 1 ∷ []) ∷ []))
          left).0
        ≡ panicked)
dispatch-ws-Resolves_example =
    dispatch-ws-Resolves keyed headers spawn_task headers_laws 9 [] ((9, 1 ∷ []) ∷ []) (get, a_bc)
      (1 ∷ []) "hash" "sec-websocket-accept" asked refl refl

-- a request by POST has no such headers
dispatch-ws_refused_example :
    let (polled, fut) =
      poll_response headers changes endpoint.behaviour
        (λ x _. x.0)
        (dispatch endpoint (post, a_bc) (1 ∷ [])) in
    (response : HttpResponse headed (String ⊎ String)) × (polled ≡ ok (ready response))
    × (response.status ≡ 400)
    × (fut ≡ flying endpoint.action (first_context (post, a_bc) (1 ∷ [])))
dispatch-ws_refused_example =
    dispatch-ws_refused keyed headers spawn_task changes 9 [] (post, a_bc) (1 ∷ []) (λ x _. x.0)
      (λ hash asks. let e = asks.0.1 in absurd (ground (arith, e)))
