-- ===== src/Service/Response.antt =====
-- src/service.rs: `Future::poll` of `AppFuture`, which turns the result of `poll_apply` into a
-- response, and adds to it the changed cookies and the supplemental headers of the context.
use finch_router.Prelude.{
  String, List, [], ◌∷◌, none, some, Outcome, ok, err, panicked, ◌⊎◌, inl, inr,
}
use finch_router.Crates.{Crates, IoErrorKind}
use finch_router.Context.{Context}
use finch_router.Action.{Async, ready, not_ready, EndpointAction}
use finch_router.Cookies.{CookieCrate}
use finch_router.Output.{HeaderCrate, HttpResponse, IntoResponse, map_body, error_response}
use finch_router.Service.{AppFuture, poll_apply}

-- `CookieJar::delta`, the `Display` of `Cookie::encoded`, and the header value of its bytes
pub record DeltaCrate {k : Crates} (ck : CookieCrate k) : Type 0 where
  pub delta : k.CookieJar → List ck.Cookie
  pub encoded : ck.Cookie → String
  pub from_shared_unchecked : String → k.HeaderValue

module _ {k : Crates} (h : HeaderCrate k) {ck : CookieCrate k} (d : DeltaCrate ck) where
  -- `encode_cookie`
  unfoldable pub encode_cookie : ck.Cookie → k.HeaderValue
  encode_cookie cookie = d.from_shared_unchecked (d.encoded cookie)

  -- the loop over `cookies.delta()`
  unfoldable pub append_cookies : List ck.Cookie → k.HeaderMap → k.HeaderMap
  unfolding encode_cookie
  append_cookies [] headers = headers
  append_cookies (c ∷ cs) headers =
      append_cookies cs (h.append "set-cookie" (encode_cookie c) headers)

  -- the loop over `hdrs.drain()`
  unfoldable pub extend_headers : List (String × List k.HeaderValue) → k.HeaderMap → k.HeaderMap
  extend_headers [] headers = headers
  extend_headers ((name, values) ∷ rest) headers =
      extend_headers rest (h.extend name values headers)

  -- `self.context.cookies`, where there is a jar
  abbrev pub changed_cookies : Context k → List ck.Cookie
  changed_cookies cx = elim cx.cookies [ some jar ↦ d.delta jar | none ↦ [] ]

  -- `self.context.response_headers`, where there are any
  abbrev pub supplemental : Context k → List (String × List k.HeaderValue)
  supplemental cx = elim cx.response_headers [ some headers ↦ h.drain headers | none ↦ [] ]

  -- the part of `poll` that has a response; `response_headers` is taken out of the context
  unfoldable pub assemble :
      {B : Type 0} → HttpResponse k B → Context k → HttpResponse k B × Context k
  unfolding append_cookies extend_headers
  assemble response cx =
      let headers = append_cookies (changed_cookies cx) response.headers in
      (
        record response { headers = extend_headers (supplemental cx) headers },
        record cx { response_headers = none },
      )

  module _ {Bd A T B : Type 0} (a : EndpointAction k Bd A T)
      (into_response : IntoResponse k T B) where
    -- `AppFuture::poll`; it never gives an `io::Error`
    unfoldable pub poll_response :
        AppFuture k Bd A
        → Outcome IoErrorKind (Async (HttpResponse k (String ⊎ B))) × AppFuture k Bd A
    unfolding assemble error_response
    poll_response fut =
        let (r, fut') = poll_apply a fut in
        let request = fut'.context.request in
        elim r [
          | ok not_ready ↦ (ok not_ready, fut')
          | panicked ↦ (panicked, fut')
          | ok (ready output) ↦
              let (response, cx) =
                assemble (map_body inr (into_response output request)) fut'.context in
              (ok (ready response), record fut' { context = cx })
          | err e ↦
              let (response, cx) =
                assemble (map_body inl (error_response h e request)) fut'.context in
              (ok (ready response), record fut' { context = cx })
        ]

-- `Context::response_headers`: the map that it lends, and the context that has it
unfoldable pub response_headers : {k : Crates} → HeaderCrate k → Context k → k.HeaderMap × Context k
response_headers h cx = elim cx.response_headers [
  | some headers ↦ (headers, cx)
  | none ↦ (h.new_headers, record cx { response_headers = some h.new_headers })
]
