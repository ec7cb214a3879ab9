-- ===== src/Body.antt =====
-- src/endpoints/body.rs: the endpoints that take or receive the body of the request.
-- `http`'s headers, `mime` and `serde` are parameters: `mime_of` is `to_str` and `parse` of a header
-- value, and a decoder is `from_utf8`, `serde_json::from_slice` or `serde_qs::from_str`, each with
-- its error as the text that it displays. A body is a `BufStream`. A chunk
-- is what `bytes()` gives of it, which is all that the code reads of it: of a chunk that is not in one
-- piece, the first piece.
pub mod Receiving
pub mod Endpoints
use finch_router.Prelude.{
  ℕ, zero, suc, String, List, [], ◌++◌, Option, none, some, Outcome, ok, err, panicked, Bool, not,
  if◌then◌else◌,
}
use finch_router.Common.{One, one}
use finch_router.Crates.{Crates}
use finch_router.Error.{Error, bad_request}
use finch_router.Context.{PreflightContext, ActionContext, take_body}
use finch_router.Action.{
  Async, ready, not_ready, incomplete, map_ok, Checked, Polled, EndpointAction, Endpoint,
}

-- `BufStream::poll_buf` of a body, with its error converted by `from_boxed_compat`
abbrev pub PollBuf : Type 0 → Type 0
PollBuf Bd = Bd → Outcome Error (Async (Option (List ℕ))) × Bd

-- `EndpointAction::preflight`, where an action does not override it
unfoldable pub default_preflight :
    {k : Crates} {S T : Type 0} → S → PreflightContext k → Checked k S T
default_preflight s cx = (ok incomplete, s, cx)

module _ {k : Crates} {Bd : Type 0} where
  -- `RawAction::poll_action`
  unfoldable pub poll_raw : Unit {0} → ActionContext k Bd → Polled k Bd (Unit {0}) (One Bd)
  poll_raw s cx = let (r, cx') = take_body cx in (map_ok (λ x. ready (one x)) r, s, cx')

  -- `raw`
  unfoldable pub raw : Endpoint k Bd (Unit {0}) (One Bd)
  unfolding poll_raw default_preflight
  raw = record {
    action = tt;
    behaviour = record { preflight = default_preflight; poll_action = poll_raw };
  }

-- `receive_all::State`
pub data State (Bd : Type 0) : Type 0 where
  start : State Bd
  receiving : Bd → List ℕ → State Bd

module _ {Bd : Type 0} (poll_buf : PollBuf Bd) where
  -- The `while let` of the `Receiving` arm; the fuel bounds its rounds, and `none` is the result
  -- where it runs out. The buffer is emptied where the body ends.
  unfoldable pub receive : ℕ → Bd → List ℕ → Option (Outcome Error (Async (List ℕ)) × State Bd)
  receive zero body buf = none
  receive (suc fuel) body buf =
      let (r, body') = poll_buf body in
      elim r [
        | ok (ready (some data')) ↦ receive fuel body' (buf ++ data')
        | ok (ready none) ↦ some (ok (ready buf), receiving body' [])
        | ok not_ready ↦ some (ok not_ready, receiving body' buf)
        | err e ↦ some (err e, receiving body' buf)
        | panicked ↦ some (panicked, receiving body' buf)
      ]

module _ {k : Crates} {Bd : Type 0} (poll_buf : PollBuf Bd) where
  -- `ReceiveAllAction::poll_action`: the body is taken at the first poll, and received from there
  unfoldable pub poll_receive_all :
      ℕ → State Bd → ActionContext k Bd → Option (Polled k Bd (State Bd) (List ℕ))
  poll_receive_all fuel start cx =
      let (r, cx') = take_body cx in
      elim r [
        | ok payload ↦ elim (receive poll_buf fuel payload []) [
          | none ↦ none
          | some (out, s) ↦ some (out, s, cx')
        ]
        | err e ↦ some (err e, start, cx')
        | panicked ↦ some (panicked, start, cx')
      ]
  poll_receive_all fuel (receiving body buf) cx = elim (receive poll_buf fuel body buf) [
    | none ↦ none
    | some (out, s) ↦ some (out, s, cx)
  ]

  -- `poll_action` of `TextAction`, `JsonAction` and `UrlencodedAction`, by their decoder
  unfoldable pub poll_decoded :
      {T : Type 0}
      → (List ℕ → Outcome String T)
      → ℕ
      → State Bd
      → ActionContext k Bd
      → Option (Polled k Bd (State Bd) (One T))
  unfolding poll_receive_all
  poll_decoded decode fuel s cx = elim (poll_receive_all fuel s cx) [
    | none ↦ none
    | some (ok (ready bytes), s', cx') ↦ elim (decode bytes) [
      | ok x ↦ some (ok (ready (one x)), s', cx')
      | err cause ↦ some (err (bad_request cause), s', cx')
      | panicked ↦ some (panicked, s', cx')
    ]
    | some (ok not_ready, s', cx') ↦ some (ok not_ready, s', cx')
    | some (err e, s', cx') ↦ some (err e, s', cx')
    | some (panicked, s', cx') ↦ some (panicked, s', cx')
  ]

-- `content_type`
unfoldable pub content_type :
    (k : Crates) {Mime : Type 0}
    → (k.HeaderValue → Outcome String Mime)
    → k.Request
    → Outcome Error (Option Mime)
content_type k mime_of request = elim (k.header request "content-type") [
  | none ↦ ok none
  | some h ↦ elim (mime_of h) [
    | ok mime ↦ ok (some mime)
    | err cause ↦ err (bad_request cause)
    | panicked ↦ panicked
  ]
]

module _ {k : Crates} {Mime : Type 0} (mime_of : k.HeaderValue → Outcome String Mime) where
  -- `TextAction::preflight`; `charset` is `m.get_param("charset")`, and `is_utf8` its comparison
  unfoldable pub preflight_text :
      {Charset S T : Type 0}
      → (Mime → Option Charset)
      → (Charset → Bool)
      → S
      → PreflightContext k
      → Checked k S T
  unfolding content_type
  preflight_text charset is_utf8 s cx = elim (content_type k mime_of cx.context.request) [
    | err e ↦ (err e, s, cx)
    | panicked ↦ (panicked, s, cx)
    | ok none ↦ (ok incomplete, s, cx)
    | ok (some m) ↦ elim (charset m) [
      | none ↦ (ok incomplete, s, cx)
      | some param ↦
          if not (is_utf8 param)
          then (err (bad_request "Only the UTF-8 charset is supported."), s, cx)
          else (ok incomplete, s, cx)
    ]
  ]

  -- `preflight` of `JsonAction` and `UrlencodedAction`, by the test for their type and by the text
  -- of their error
  unfoldable pub preflight_typed :
      {S T : Type 0} → (Mime → Bool) → String → S → PreflightContext k → Checked k S T
  unfolding content_type
  preflight_typed is_expected message s cx = elim (content_type k mime_of cx.context.request) [
    | err e ↦ (err e, s, cx)
    | panicked ↦ (panicked, s, cx)
    | ok none ↦ (err (bad_request "missing content type"), s, cx)
    | ok (some m) ↦
        if not (is_expected m) then (err (bad_request message), s, cx) else (ok incomplete, s, cx)
  ]
