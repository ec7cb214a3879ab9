-- ===== src/Body/Endpoints.antt =====
-- src/endpoints/body.rs: the endpoints that decode the body. The fuel is the number of rounds that a
-- poll may take; where it runs out the model panics.
use finch_router.Prelude.{
  ℕ, ◌<◌, ◌≡◌, refl, String, List, [], Option, none, some, Outcome, ok, Bool, true, length, chain,
  arith,
}
use finch_router.Common.{One}
use finch_router.Crates.{Crates}
use finch_router.Error.{Error}
use finch_router.Context.{PreflightContext, ActionContext, new_context, new_preflight}
use finch_router.Action.{incomplete, Checked, Endpoint}
use finch_router.Action.Runs.{Settles, now, later}
use finch_router.Body.{PollBuf, State, start, receiving, preflight_text, preflight_typed}
use finch_router.Body.Receiving.{Streams, joined, decoded, decoded_action, decode-Settles}
use finch_router.Ext.Future.Settling.{Resolves}
use finch_router.Service.{dispatch, poll_apply}
use finch_router.Service.Driving.{flying, first_context, dispatch-Settles}

-- What the code calls of `mime` and of `from_utf8`.
pub record BodyCrate (k : Crates) : Type 1 where
  pub Mime : Type 0
  -- `to_str` and `parse` of a header value
  pub mime_of : k.HeaderValue → Outcome String Mime
  -- the parameter `charset`, and whether it is UTF-8
  pub Charset : Type 0
  pub charset : Mime → Option Charset
  pub is_utf8 : Charset → Bool
  -- whether a type is `application/json`, and `application/x-www-form-urlencoded`
  pub is_json : Mime → Bool
  pub is_form : Mime → Bool
  pub from_utf8 : List ℕ → Outcome String String

module _ {k : Crates} (c : BodyCrate k) {Bd : Type 0} (poll_buf : PollBuf Bd) (fuel : ℕ) where
  -- an endpoint that checks the request and then decodes its body
  abbrev pub decoding :
      {T : Type 0}
      → (State Bd → PreflightContext k → Checked k (State Bd) (One T))
      → (List ℕ → Outcome String T)
      → Endpoint k Bd (State Bd) (One T)
  decoding check decode = record {
    action = start;
    behaviour = record {
      preflight = check;
      poll_action = (decoded_action poll_buf fuel decode).poll_action;
    };
  }

  -- `text`
  unfoldable pub text : Endpoint k Bd (State Bd) (One String)
  text = decoding (preflight_text c.mime_of c.charset c.is_utf8) c.from_utf8

  -- `json`, with the `from_slice` of its type
  unfoldable pub json :
      {T : Type 0} → (List ℕ → Outcome String T) → Endpoint k Bd (State Bd) (One T)
  json from_slice =
      decoding
        (preflight_typed c.mime_of c.is_json
          "The value of `Content-type` must be `application/json`.")
        from_slice

  -- `urlencoded`, with the `from_str` of its type
  unfoldable pub urlencoded :
      {T : Type 0} → (String → Outcome String T) → Endpoint k Bd (State Bd) (One T)
  urlencoded from_str =
      decoding
        (preflight_typed c.mime_of c.is_form
          "The value of `Content-type` must be `application-x-www-form-urlencoded`.")
        (λ bytes. chain (c.from_utf8 bytes) from_str)

  decoding-Settles :
      {T : Type 0} (check : State Bd → PreflightContext k → Checked k (State Bd) (One T))
      (decode : List ℕ → Outcome String T) {r : Outcome Error (One T)} {s' : State Bd}
      {cx' : ActionContext k Bd} {s : State Bd} {cx : ActionContext k Bd}
      → Settles (decoded_action poll_buf fuel decode) r s' cx' s cx
      → Settles (decoding check decode).behaviour r s' cx' s cx
  decoding-Settles check decode (now e) = now e
  decoding-Settles check decode (later e st) = later e (decoding-Settles check decode st)

  module _ (request : k.Request) {body body' : Bd} {chunks : List (List ℕ)}
      (streams : Streams poll_buf body' chunks body) (enough : length chunks < fuel)
      {value : k.HeaderValue} {mime : c.Mime}
      (has_type : k.header request "content-type" ≡ some value)
      (typed : c.mime_of value ≡ ok mime) where
    preflight_typed_passes :
        {S T : Type 0} (is_expected : c.Mime → Bool) (message : String) (s : S)
        (px : PreflightContext k)
        → is_expected mime ≡ true
        → px.context ≡ new_context request
        → preflight_typed {k = k} c.mime_of {T = T} is_expected message s px
          ≡ (ok incomplete, s, px)
    unfolding preflight_typed new_context
    preflight_typed_passes is_expected message s px e h = ground (arith, has_type, typed, e, h)

    -- the body is taken out of the context
    abbrev after : ActionContext k Bd
    after = record { context = new_context request; body = none }

    dispatch-decoding-Resolves :
        {T : Type 0} (check : State Bd → PreflightContext k → Checked k (State Bd) (One T))
        (decode : List ℕ → Outcome String T) {px : PreflightContext k}
        → check start (new_preflight (new_context request)) ≡ (ok incomplete, start, px)
        → Resolves
            (poll_apply (decoding check decode).behaviour)
            (decoded (decode (joined chunks)))
            (flying (receiving body' []) after)
            (dispatch (decoding check decode) request body)
    dispatch-decoding-Resolves check decode passes =
        dispatch-Settles (decoding check decode) request body passes (
          decoding-Settles check decode
            (decode-Settles poll_buf fuel decode (first_context request body) refl streams enough))

    -- the two calls of the JSON action, in a context of this request
    pub json_passes :
        {T : Type 0} (from_slice : List ℕ → Outcome String T) (px : PreflightContext k)
        → c.is_json mime ≡ true
        → px.context ≡ new_context request
        → (json from_slice).behaviour.preflight start px ≡ (ok incomplete, start, px)
    unfolding json
    json_passes from_slice px = preflight_typed_passes c.is_json _ start px

    pub json-Settles :
        {T : Type 0} (from_slice : List ℕ → Outcome String T)
        → Settles
            (json from_slice).behaviour
            (decoded (from_slice (joined chunks)))
            (receiving body' [])
            after
            start
            (first_context request body)
    unfolding json
    json-Settles from_slice =
        decoding-Settles _ from_slice
          (decode-Settles poll_buf fuel from_slice (first_context request body) refl streams enough)

    -- Where the media type of the request is JSON, its body gives chunks and ends, and a poll has more
    -- rounds than there are chunks, the future of the JSON endpoint comes to what the decoder makes of
    -- the chunks in order, its error reported as a bad request; the body is gone.
    dispatch-json-Resolves :
        {T : Type 0} (from_slice : List ℕ → Outcome String T)
        → c.is_json mime ≡ true
        → Resolves
            (poll_apply (json from_slice).behaviour)
            (decoded (from_slice (joined chunks)))
            (flying (receiving body' []) after)
            (dispatch (json from_slice) request body)
    unfolding json
    dispatch-json-Resolves from_slice is_json =
        dispatch-decoding-Resolves _ from_slice {px = new_preflight (new_context request)} (
          preflight_typed_passes c.is_json _ start (new_preflight (new_context request)) is_json
            (unfold new_preflight in refl))

    -- The endpoint of forms decodes the body as UTF-8 and then as a form, under the same conditions.
    dispatch-urlencoded-Resolves :
        {T : Type 0} (from_str : String → Outcome String T)
        → c.is_form mime ≡ true
        → Resolves
            (poll_apply (urlencoded from_str).behaviour)
            (decoded (chain (c.from_utf8 (joined chunks)) from_str))
            (flying (receiving body' []) after)
            (dispatch (urlencoded from_str) request body)
    unfolding urlencoded
    dispatch-urlencoded-Resolves from_str is_form =
        dispatch-decoding-Resolves _ (λ bytes. chain (c.from_utf8 bytes) from_str)
          {px = new_preflight (new_context request)}
          (preflight_typed_passes c.is_form _ start (new_preflight (new_context request)) is_form
            (unfold new_preflight in refl))
