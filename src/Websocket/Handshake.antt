-- ===== src/Websocket/Handshake.antt =====
-- finchers-tungstenite/src/handshake.rs: which requests are a handshake.
use finch_router.Prelude.{
  ℕ, String, ◌≡◌, ◌⊎◌, ◌↔◌, refl, List, Bool, true, false, codes, ◌++◌, ◌≢◌, some, Outcome, ok, err,
  panicked, arith, length, ◌||◌, chain, ◌==◌,
}
use finch_router.Crates.{Crates}
use finch_router.Websocket.{WsCrates, HandshakeErrorKind, handshake, required, ensure, decode_key}

module _ {E : Type 0} where
  -- where a chain of checks succeeds, its first one does
  chain-ok :
      {A B : Type 0} (r : Outcome E A) (f : A → Outcome E B) {y : B}
      → chain r f ≡ ok y
      → (x : A) × (r ≡ ok x) × (f x ≡ ok y)
  chain-ok (ok x) f h = (x, refl, h)
  chain-ok (err e) f h = absurd (ground (arith, h))
  chain-ok panicked f h = absurd (ground (arith, h))

module _ {k : Crates} (w : WsCrates k) where
  required-ok :
      (request : k.Request) (header name : String) {x : k.HeaderValue}
      → required w request header name ≡ ok x
      → k.header request header ≡ some x
  required-ok request header name h = ground (arith, h)

  ensure-ok :
      (test : Bool) (kind : HandshakeErrorKind) {x : Unit {0}}
      → ensure w test kind ≡ ok x
      → test ≡ true
  ensure-ok true kind h = refl
  ensure-ok false kind h = absurd (ground (arith, h))

  decode_key-ok :
      (v : k.HeaderValue) {x : List ℕ}
      → decode_key w v ≡ ok x
      → w.base64_decode (w.as_bytes v) ≡ some x
  decode_key-ok v h = ground (arith, h)

  either-true : (a b : Bool) → (a || b) ≡ true → (a ≡ true) ⊎ (b ≡ true)
  either-true a b h = ground (arith, h)

  -- A header has one of two values.
  abbrev pub Says : k.Request → String → String → String → Type 0
  Says request header a b =
      (h : k.HeaderValue) × (k.header request header ≡ some h)
      × ((w.value_eq h a ≡ true) ⊎ (w.value_eq h b ≡ true))

  -- The headers that a handshake has, with a key of 16 bytes, and the hash that the client expects: of
  -- the key as it is sent, followed by the identifier of the protocol.
  abbrev pub IsHandshake : k.Request → String → Type 0
  IsHandshake request hash =
      Says request "connection" "Upgrade" "upgrade"
      × Says request "upgrade" "Websocket" "websocket"
      × ((v : k.HeaderValue) × (k.header request "sec-websocket-version" ≡ some v)
          × (w.value_eq v "13" ≡ true))
      × (h : k.HeaderValue) × (k.header request "sec-websocket-key" ≡ some h)
      × (decoded : List ℕ) × (w.base64_decode (w.as_bytes h) ≡ some decoded)
      × (length decoded ≡ 16)
      × (hash
          ≡ w.base64_encode (w.sha1 (w.as_bytes h ++ codes "258EAFA5-E914-47DA-95CA-C5AB0DC85B11")))

  pub forwards :
      (request : k.Request) (hash : String)
      → handshake w request ≡ ok hash
      → IsHandshake request hash
  unfolding handshake
  forwards request hash e0 =
      let (c, has_c, e1) = chain-ok (required w request "connection" "Connection") _ e0 in
      let (_, is_c, e2) =
        chain-ok (ensure w (w.value_eq c "Upgrade" || w.value_eq c "upgrade") _) _ e1 in
      let (u, has_u, e3) = chain-ok (required w request "upgrade" "Upgrade") _ e2 in
      let (_, is_u, e4) =
        chain-ok (ensure w (w.value_eq u "Websocket" || w.value_eq u "websocket") _) _ e3 in
      let (v, has_v, e5) =
        chain-ok (required w request "sec-websocket-version" "Sec-WebSocket-Version") _ e4 in
      let (_, is_v, e6) = chain-ok (ensure w (w.value_eq v "13") _) _ e5 in
      let (h, has_h, e7) =
        chain-ok (required w request "sec-websocket-key" "Sec-WebSocket-Key") _ e6 in
      let (decoded, is_h, e8) = chain-ok (decode_key w h) _ e7 in
      let (_, is_long, e9) = chain-ok (ensure w (length decoded == 16) _) _ e8 in
      (
        (c, required-ok request _ _ has_c, either-true _ _ (ensure-ok _ _ is_c)),
        (u, required-ok request _ _ has_u, either-true _ _ (ensure-ok _ _ is_u)),
        (v, required-ok request _ _ has_v, ensure-ok _ _ is_v),
        h,
        required-ok request _ _ has_h,
        decoded,
        decode_key-ok h is_h,
        ground (arith, ensure-ok _ _ is_long),
        ground (arith, e9),
      )

  pub backwards :
      (request : k.Request) (hash : String)
      → IsHandshake request hash
      → handshake w request ≡ ok hash
  unfolding handshake
  backwards request hash
        (
          (c, has_c, is_c),
          (u, has_u, is_u),
          (v, has_v, is_v),
          h,
          has_h,
          decoded,
          is_h,
          is_long,
          e,
        ) =
      ground (arith, has_c, is_c, has_u, is_u, has_v, is_v, has_h, is_h, is_long, e)

  -- A request is accepted with a hash exactly where it is a handshake with that hash.
  handshake_iff :
      (request : k.Request) (hash : String)
      → (handshake w request ≡ ok hash) ↔ IsHandshake request hash
  handshake_iff request hash = (forwards request hash, backwards request hash)

  pub handshake_returns : (request : k.Request) → handshake w request ≢ panicked
  unfolding handshake
  handshake_returns request h = ground (arith, h)
