-- ===== src/Websocket.antt =====
-- finchers-tungstenite/src/handshake.rs and finchers-tungstenite/src/lib.rs: the checks of a WebSocket
-- handshake, and the action that answers it. Hashing, base64, the upgrade of the body and the
-- executor are parameters.
pub mod Handshake
pub mod Upgrading
use Prim.Native.String.{◌++◌ as str_append}
use finch_router.Prelude.{
  ℕ, String, List, [], ◌∷◌, ◌++◌, Bool, ◌||◌, not, Option, none, some, Outcome, ok, err, panicked,
  chain, if◌then◌else◌, length, ◌==◌, with_error,
}
use finch_router.Common.{One, one}
use finch_router.Crates.{Crates}
use finch_router.Error.{Error, user, internal_server_error}
use finch_router.Context.{PreflightContext, ActionContext, take_body}
use finch_router.Action.{Async, ready, incomplete, Checked, Polled, EndpointAction, Endpoint}
use finch_router.Output.{HeaderCrate, HttpResponse, new_response}

pub data HandshakeErrorKind : Type 0 where
  missing_header : String → HandshakeErrorKind
  invalid_header : String → HandshakeErrorKind
  invalid_sec_websocket_key : HandshakeErrorKind
  invalid_sec_websocket_version : HandshakeErrorKind

-- the `Display` of `HandshakeErrorKind`, and of `HandshakeError` around it
unfoldable pub kind_text : HandshakeErrorKind → String
kind_text (missing_header name) = str_append "missing header: `" (str_append name "'")
kind_text (invalid_header name) = str_append "The header value is invalid: `" (str_append name "'")
kind_text invalid_sec_websocket_key = "The value of `Sec-WebSocket-Key` is invalid"
kind_text invalid_sec_websocket_version =
    "The value of `Sec-WebSocket-Version` must be equal to '13'"

-- `HandshakeError` as an `Error`, with its status
unfoldable pub handshake_error : HandshakeErrorKind → Error
unfolding kind_text
handshake_error kind = user (str_append "handshake error: " (kind_text kind)) 400

pub record WsCrates (k : Crates) : Type 0 where
  -- `HeaderValue == str`, `as_bytes`, and the header value of a text
  pub value_eq : k.HeaderValue → String → Bool
  pub as_bytes : k.HeaderValue → List ℕ
  pub from_text : String → k.HeaderValue
  -- `base64::decode`, `base64::encode`, and the digest of `Sha1` after its updates
  pub base64_decode : List ℕ → Option (List ℕ)
  pub base64_encode : List ℕ → String
  pub sha1 : List ℕ → List ℕ

-- `258EAFA5-E914-47DA-95CA-C5AB0DC85B11`
abbrev pub guid : List ℕ
guid =
    50 ∷ 53 ∷ 56 ∷ 69 ∷ 65 ∷ 70 ∷ 65 ∷ 53 ∷ 45 ∷ 69 ∷ 57 ∷ 49 ∷ 52 ∷ 45 ∷ 52 ∷ 55 ∷ 68 ∷ 65 ∷ 45
    ∷ 57 ∷ 53 ∷ 67 ∷ 65 ∷ 45 ∷ 67 ∷ 53 ∷ 65 ∷ 66 ∷ 48 ∷ 68 ∷ 67 ∷ 56 ∷ 53 ∷ 66 ∷ 49 ∷ 49 ∷ []

module _ {k : Crates} (w : WsCrates k) where
  -- `headers().get(..).ok_or_else(..)?`, under the name of the lookup and that of the error
  abbrev pub required : k.Request → String → String → Outcome HandshakeErrorKind k.HeaderValue
  required request header name = elim (k.header request header) [
    | some h ↦ ok h
    | none ↦ err (missing_header name)
  ]

  -- a `return Err(..)` where a test fails
  abbrev pub ensure : Bool → HandshakeErrorKind → Outcome HandshakeErrorKind (Unit {0})
  ensure test kind = if test then ok tt else err kind

  -- the decoding of the key
  abbrev pub decode_key : k.HeaderValue → Outcome HandshakeErrorKind (List ℕ)
  decode_key h = elim (w.base64_decode (w.as_bytes h)) [
    | some decoded ↦ ok decoded
    | none ↦ err invalid_sec_websocket_key
  ]

  -- the hash of a key
  abbrev pub accept_hash : k.HeaderValue → String
  accept_hash h = w.base64_encode (w.sha1 (w.as_bytes h ++ guid))

  -- `handshake`; the `Accept` is its hash
  unfoldable pub handshake : k.Request → Outcome HandshakeErrorKind String
  handshake request = chain (required request "connection" "Connection") (λ c.
      chain
        (ensure (w.value_eq c "Upgrade" || w.value_eq c "upgrade") (invalid_header "Connection"))
        (λ _. chain (required request "upgrade" "Upgrade") (λ u.
          chain
            (ensure (w.value_eq u "Websocket" || w.value_eq u "websocket")
              (invalid_header "Upgrade"))
            (λ _. chain (required request "sec-websocket-version" "Sec-WebSocket-Version") (λ v.
              chain (ensure (w.value_eq v "13") invalid_sec_websocket_version) (λ _.
                chain (required request "sec-websocket-key" "Sec-WebSocket-Key") (λ h.
                  chain (decode_key h) (λ decoded.
                    chain (ensure (length decoded == 16) invalid_sec_websocket_key)
                      (λ _. ok (accept_hash h))))))))))

-- `WsAction`, with the executor that the upgraded connection is spawned on
pub record WsAction (F Ex : Type 0) : Type 0 where
  pub on_upgrade : Option F
  pub executor : Ex

module _ {k : Crates} (w : WsCrates k) (h : HeaderCrate k) where
  -- the response to a handshake
  unfoldable pub switching : String → HttpResponse k String
  switching hash =
      let connection = h.append "connection" (h.from_static "upgrade") h.new_headers in
      let upgrade = h.append "upgrade" (h.from_static "websocket") connection in
      record (new_response h "") {
        status = 101;
        headers = h.append "sec-websocket-accept" (w.from_text hash) upgrade;
      }

  module _ {Bd F Ex : Type 0} (spawn : F × Bd → Ex → Outcome String (Unit {0}) × Ex) where
    -- the part of `poll_action` that has the function and the body: the task that upgrades the body
    -- and runs the function is spawned
    unfoldable pub spawn_upgrade :
        String
        → F
        → Bd
        → Ex
        → ActionContext k Bd
        → Polled k Bd (WsAction F Ex) (One (HttpResponse k String))
    unfolding switching
    spawn_upgrade hash on_upgrade body executor cx =
        let (spawned, executor') = spawn (on_upgrade, body) executor in
        let left : WsAction F Ex = record { on_upgrade = none; executor = executor' } in
        elim spawned [
          | ok _ ↦ (ok (ready (one (switching hash))), left, cx)
          | err e ↦ (err (internal_server_error e), left, cx)
          | panicked ↦ (panicked, left, cx)
        ]

    -- `WsAction::poll_action`
    unfoldable pub poll_ws :
        WsAction F Ex
        → ActionContext k Bd
        → Polled k Bd (WsAction F Ex) (One (HttpResponse k String))
    unfolding spawn_upgrade handshake_error handshake
    poll_ws s cx = elim (handshake w cx.context.request) [
      | err kind ↦ (err (handshake_error kind), s, cx)
      | panicked ↦ (panicked, s, cx)
      | ok hash ↦ elim s.on_upgrade [
        | none ↦ (panicked, s, cx)
        | some on_upgrade ↦
            let (taken, cx') = take_body cx in
            elim taken [
              | ok body ↦ spawn_upgrade hash on_upgrade body s.executor cx'
              | err e ↦ (err e, record s { on_upgrade = none }, cx')
              | panicked ↦ (panicked, record s { on_upgrade = none }, cx')
            ]
      ]
    ]

    -- `WsAction::preflight`
    unfoldable pub preflight_ws :
        WsAction F Ex → PreflightContext k → Checked k (WsAction F Ex) (One (HttpResponse k String))
    preflight_ws s cx = (ok incomplete, s, cx)

    -- `ws`, and `Endpoint for WsEndpoint`
    unfoldable pub ws : F → Ex → Endpoint k Bd (WsAction F Ex) (One (HttpResponse k String))
    unfolding poll_ws preflight_ws
    ws on_upgrade executor = record {
      action = record { on_upgrade = some on_upgrade; executor = executor };
      behaviour = record { preflight = preflight_ws; poll_action = poll_ws };
    }
