-- ===== src/Service/Assembly.antt =====
-- src/service.rs: the response that serving a request comes to.
use text.Mathlib.Text.{◌==◌ as str_eq}
use mathlib.Core.List.{append-nil, append_assoc}
use finch_router.Prelude.{
  ap, ◌∙◌, ◌≡◌, refl, String, List, [], ◌∷◌, ◌++◌, none, some, Outcome, ok, err, ◌⊎◌, inl, inr, map,
  arith, if◌then◌else◌,
}
use finch_router.Crates.{Crates}
use finch_router.Error.{Error, status_code, to_string}
use finch_router.Context.{Context, PreflightContext, new_context, new_preflight}
use finch_router.Action.{EndpointAction, Endpoint, ready}
use finch_router.Ext.Future.Settling.{Resolves, resolved, pending}
use finch_router.Cookies.{CookieCrate}
use finch_router.Output.{HeaderCrate, HttpResponse, IntoResponse, map_body, error_response}
use finch_router.Service.{AppFuture, poll_apply, dispatch}
use finch_router.Service.Driving.{dispatch_failed}
use finch_router.Service.Response.{
  DeltaCrate, encode_cookie, append_cookies, extend_headers, changed_cookies, supplemental,
  assemble, poll_response,
}

-- What `http` documents of appending to a header map.
pub record HeaderLaws {k : Crates} (h : HeaderCrate k) : Type 0 where
  pub get_all-append :
      (name other : String) (value : k.HeaderValue) (headers : k.HeaderMap)
      → h.get_all name (h.append other value headers)
        ≡ h.get_all name headers ++ (if str_eq name other then value ∷ [] else [])
  pub get_all-extend :
      (name other : String) (values : List k.HeaderValue) (headers : k.HeaderMap)
      → h.get_all name (h.extend other values headers)
        ≡ h.get_all name headers ++ (if str_eq name other then values else [])

module _ {V : Type 0} where
  -- the values under a name
  abbrev pub values_of : String → List (String × List V) → List V
  values_of name [] = []
  values_of name ((other, values) ∷ rest) =
      (if str_eq name other then values else []) ++ values_of name rest

module _ {k : Crates} (h : HeaderCrate k) {ck : CookieCrate k} (d : DeltaCrate ck) where
  -- the values that the changed cookies add under a name
  abbrev pub cookie_values : String → List ck.Cookie → List k.HeaderValue
  cookie_values name cs = if str_eq name "set-cookie" then map (encode_cookie h d) cs else []

  module _ (laws : HeaderLaws h) where
    get_all-append_cookies :
        (name : String) (cs : List ck.Cookie) (headers : k.HeaderMap)
        → h.get_all name (append_cookies h d cs headers)
          ≡ h.get_all name headers ++ cookie_values name cs
    unfolding append_cookies
    get_all-append_cookies name [] headers = ground (arith, append-nil (h.get_all name headers))
    get_all-append_cookies name (c ∷ cs) headers =
        let value = encode_cookie h d c in
        ground (
          arith,
          get_all-append_cookies name cs (h.append "set-cookie" value headers),
          laws.get_all-append name "set-cookie" value headers,
          append_assoc (h.get_all name headers) (value ∷ []) (map (encode_cookie h d) cs),
          append-nil (h.get_all name headers),
        )

    get_all-extend_headers :
        (name : String) (drained : List (String × List k.HeaderValue)) (headers : k.HeaderMap)
        → h.get_all name (extend_headers h d drained headers)
          ≡ h.get_all name headers ++ values_of name drained
    unfolding extend_headers
    get_all-extend_headers name [] headers = ground (arith, append-nil (h.get_all name headers))
    get_all-extend_headers name ((other, values) ∷ rest) headers = ground (
      arith,
      get_all-extend_headers name rest (h.extend other values headers),
      laws.get_all-extend name other values headers,
      append_assoc (h.get_all name headers) (if str_eq name other then values else [])
          (values_of name rest),
    )

    -- The response that is sent has, under each name, the values of the response that the output or
    -- the error gives, then the changed cookies where the name is Set-Cookie, then the values of the
    -- supplemental headers. The rest of the response is kept, and the supplemental headers are gone
    -- from the context.
    pub get_all-assemble :
        {B : Type 0} (name : String) (response : HttpResponse k B) (cx : Context k)
        → let (sent, left) = assemble h d response cx in
          (h.get_all name sent.headers
            ≡ h.get_all name response.headers
              ++ (cookie_values name (changed_cookies h d cx)
                  ++ values_of name (supplemental h d cx)))
          × (sent ≡ record response { headers = sent.headers })
          × (left ≡ record cx { response_headers = none })
    unfolding assemble
    get_all-assemble name response cx =
        let cs = changed_cookies h d cx in
        let with_cookies = append_cookies h d cs response.headers in
        (
          get_all-extend_headers name (supplemental h d cx) with_cookies
              ∙ (ap (λ l. l ++ values_of name (supplemental h d cx))
                    (get_all-append_cookies name cs response.headers)
                  ∙ append_assoc (h.get_all name response.headers) (cookie_values name cs)
                      (values_of name (supplemental h d cx))),
          refl,
          refl,
        )

  module _ {Bd A T B : Type 0} (a : EndpointAction k Bd A T)
      (into_response : IntoResponse k T B) where
    abbrev pub as_outcome : T ⊎ Error → Outcome Error T
    as_outcome (inl output) = ok output
    as_outcome (inr e) = err e

    -- the response to a result before anything is added
    abbrev pub bare : T ⊎ Error → k.Request → HttpResponse k (String ⊎ B)
    bare (inl output) request = map_body inr (into_response output request)
    bare (inr e) request = map_body inl (error_response h e request)

    abbrev pub answer :
        T ⊎ Error → AppFuture k Bd A → HttpResponse k (String ⊎ B) × AppFuture k Bd A
    answer r fut =
        let (response, cx) = assemble h d (bare r fut.context.request) fut.context in
        (response, record fut { context = cx })

    -- Where polling the action of a future ends with an output or an error, polling the future as a
    -- service ends with the response to it, assembled in the context that the action leaves, however
    -- often the action is not ready; it never fails.
    pub poll_response-Resolves :
        {fut' : AppFuture k Bd A} (r : T ⊎ Error) {fut : AppFuture k Bd A}
        → Resolves (poll_apply a) (as_outcome r) fut' fut
        → Resolves (poll_response h d a into_response) (ok (answer r fut').0) (answer r fut').1 fut
    unfolding poll_response
    poll_response-Resolves (inl output) (resolved e) = resolved (ground (arith, e))
    poll_response-Resolves (inr x) (resolved e) = resolved (ground (arith, e))
    poll_response-Resolves r (pending e st) =
        pending (ground (arith, e)) (poll_response-Resolves r st)

  -- Where the check of an endpoint fails, the first poll of its dispatched future is ready with a
  -- response that has the status of the error, its text as the body, and the error as an extension.
  dispatch_refused :
      {Bd A T B : Type 0} (e : Endpoint k Bd A T) (into_response : IntoResponse k T B)
      (request : k.Request) (body : Bd) (s : A) (px : PreflightContext k) (x : Error)
      → e.behaviour.preflight e.action (new_preflight (new_context request)) ≡ (err x, s, px)
      → (response : HttpResponse k (String ⊎ B)) × ((poll_response h d e.behaviour into_response
            (dispatch e request body)).0
          ≡ ok (ready response))
        × (response.status ≡ status_code x)
        × (response.body ≡ inl (to_string x))
        × (response.extension ≡ some x)
  unfolding poll_response
  dispatch_refused e into_response request body s px x p =
      let fut = (poll_apply e.behaviour (dispatch e request body)).1 in
      let (failed, _, kept, _) = dispatch_failed e request body s px x p in
      (
        (assemble h d (map_body inl (error_response h x request)) (new_context request)).0,
        ground (arith, failed, kept),
        refl,
        refl,
        refl,
      )
