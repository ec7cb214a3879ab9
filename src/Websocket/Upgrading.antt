-- ===== src/Websocket/Upgrading.antt =====
-- finchers-tungstenite/src/lib.rs: what serving a WebSocket endpoint comes to.
use text.Mathlib.Text.{◌==◌ as str_eq}
use finch_router.Prelude.{
  List, [], ◌∷◌, ◌++◌, if◌then◌else◌, inr, Outcome-cases, String, ◌≡◌, refl, none, some, Outcome,
  ok, err, panicked, arith, ◌⊎◌, inl,
}
use finch_router.Common.{One, one}
use finch_router.Crates.{Crates}
use finch_router.Context.{ActionContext, new_context, take_body}
use finch_router.Action.{ready, Endpoint}
use finch_router.Cookies.{CookieCrate}
use finch_router.Ext.Future.Settling.{Resolves}
use finch_router.Output.{HeaderCrate, HttpResponse, IntoResponse, map_body, error_response}
use finch_router.Service.{dispatch, poll_apply}
use finch_router.Service.Driving.{flying, dispatch-Settles, first_context}
use finch_router.Service.Response.{DeltaCrate, poll_response, assemble}
use finch_router.Action.Runs.{now}
use finch_router.Service.Assembly.{HeaderLaws}
use finch_router.Websocket.Handshake.{IsHandshake, forwards, backwards, handshake_returns}
use finch_router.Websocket.{
  WsCrates, WsAction, HandshakeErrorKind, handshake, handshake_error, switching, poll_ws,
  preflight_ws, ws,
}

module _ {k : Crates} {Bd F Ex : Type 0} (w : WsCrates k) (h : HeaderCrate k)
    (spawn : F × Bd → Ex → Outcome String (Unit {0}) × Ex) where
  -- the action once the function is taken out
  abbrev pub upgraded : Ex → WsAction F Ex
  upgraded executor = record { on_upgrade = none; executor = executor }

  -- the values of the response to a handshake under a name
  abbrev pub switched : String → String → List k.HeaderValue
  switched hash name =
      (if str_eq name "connection" then h.from_static "upgrade" ∷ [] else [])
      ++ ((if str_eq name "upgrade" then h.from_static "websocket" ∷ [] else [])
          ++ (if str_eq name "sec-websocket-accept" then w.from_text hash ∷ [] else []))

  get_all-switching :
      (laws : HeaderLaws h) (hash name : String)
      → h.get_all name h.new_headers ≡ []
      → h.get_all name (switching w h hash).headers ≡ switched hash name
  unfolding switching
  get_all-switching laws hash name none_new =
      let connection = h.append "connection" (h.from_static "upgrade") h.new_headers in
      let upgrade = h.append "upgrade" (h.from_static "websocket") connection in
      ground (
        arith,
        none_new,
        laws.get_all-append name "connection" (h.from_static "upgrade") h.new_headers,
        laws.get_all-append name "upgrade" (h.from_static "websocket") connection,
        laws.get_all-append name "sec-websocket-accept" (w.from_text hash) upgrade,
      )

  -- Where the request is a handshake, and the executor takes the task of the function and the body,
  -- the dispatched future resolves to a response of status 101 whose headers are Connection, Upgrade
  -- and Sec-WebSocket-Accept, with the hash that the client expects, and no other, where a new header
  -- map has none. The function and the body are taken out, so that polling the action again panics.
  pub dispatch-ws-Resolves :
      (laws : HeaderLaws h) (on_upgrade : F) (executor executor' : Ex) (request : k.Request)
      (body : Bd) (hash name : String)
      → IsHandshake w request hash
      → spawn (on_upgrade, body) executor ≡ (ok tt, executor')
      → h.get_all name h.new_headers ≡ []
      → let e : Endpoint k Bd (WsAction F Ex) (One (HttpResponse k String)) =
          ws w h spawn on_upgrade executor in
        let left : ActionContext k Bd = record { context = new_context request; body = none } in
        (response : HttpResponse k String) × Resolves
          (poll_apply e.behaviour)
          (ok (one response))
          (flying (upgraded executor') left)
          (dispatch e request body)
        × (response.status ≡ 101)
        × (h.get_all name response.headers ≡ switched hash name)
        × ((poll_ws w h spawn (upgraded executor') left).0 ≡ panicked)
  unfolding ws poll_ws preflight_ws take_body new_context switching
  dispatch-ws-Resolves laws on_upgrade executor executor' request body hash name asks spawned
        none_new =
      let accepted = backwards w request hash asks in
      (
        switching w h hash,
        dispatch-Settles (ws w h spawn on_upgrade executor) request body refl
            (now (ground (arith, accepted, spawned))),
        refl,
        get_all-switching laws hash name none_new,
        ground (arith, accepted),
      )

  refused_by :
      {ck : CookieCrate k} (d : DeltaCrate ck) (on_upgrade : F) (executor : Ex)
      (request : k.Request) (body : Bd) (kind : HandshakeErrorKind)
      (into : IntoResponse k (One (HttpResponse k String)) String)
      → handshake w request ≡ err kind
      → let e : Endpoint k Bd (WsAction F Ex) (One (HttpResponse k String)) =
          ws w h spawn on_upgrade executor in
        let (polled, fut) = poll_response h d e.behaviour into (dispatch e request body) in
        (response : HttpResponse k (String ⊎ String)) × (polled ≡ ok (ready response))
        × (response.status ≡ 400)
        × (response.extension ≡ some (handshake_error kind))
        × (fut ≡ flying e.action (first_context request body))
  unfolding ws poll_ws preflight_ws poll_response dispatch poll_apply assemble
  refused_by d on_upgrade executor request body kind into refused = (
    (assemble h d (map_body inl (error_response h (handshake_error kind) request))
        (new_context request)).0,
    ground (arith, refused),
    refl,
    refl,
    ground (arith, refused),
  )

  -- Where the request is no handshake, whatever the hash, the first poll of the dispatched future as a
  -- service is ready with a response of status 400, and the function and the body are left, with
  -- nothing spawned.
  pub dispatch-ws_refused :
      {ck : CookieCrate k} (d : DeltaCrate ck) (on_upgrade : F) (executor : Ex)
      (request : k.Request) (body : Bd) (into : IntoResponse k (One (HttpResponse k String)) String)
      → ((hash : String) → ¬ (IsHandshake w request hash))
      → let e : Endpoint k Bd (WsAction F Ex) (One (HttpResponse k String)) =
          ws w h spawn on_upgrade executor in
        let (polled, fut) = poll_response h d e.behaviour into (dispatch e request body) in
        (response : HttpResponse k (String ⊎ String)) × (polled ≡ ok (ready response))
        × (response.status ≡ 400)
        × (fut ≡ flying e.action (first_context request body))
  dispatch-ws_refused d on_upgrade executor request body into none_asked =
      elim (Outcome-cases (handshake w request)) [
        | inl (hash, e) ↦ absurd (none_asked hash (forwards w request hash e))
        | inr (inl (kind, e)) ↦
            let (response, polled, status, _, kept) =
              refused_by d on_upgrade executor request body kind into e in
            (response, polled, status, kept)
        | inr (inr e) ↦ absurd (handshake_returns w request e)
      ]
