-- ===== src/Routing/Answering.antt =====
-- src/service.rs: the response to a request for a route.
use finch_router.Prelude.{
  ℕ, ◌≡◌, String, List, ◌∷◌, Outcome, ok, err, panicked, ◌⊎◌, inl, inr, arith,
}
use finch_router.Common.{HList}
use finch_router.Crates.{Crates, IoErrorKind}
use finch_router.Context.{new_context}
use finch_router.Cursor.{slash}
use finch_router.Cursor.Split.{split}
use finch_router.Action.{Async, ready, map_ok, Endpoint}
use finch_router.Cookies.{CookieCrate}
use finch_router.Output.{HeaderCrate, HttpResponse, IntoResponse, map_body, error_response}
use finch_router.Routing.{Route, Found, compile, denote}
use finch_router.Routing.Serving.{FirstPoll, compile-FirstPoll}
use finch_router.Service.{dispatch}
use finch_router.Service.Response.{
  DeltaCrate, append_cookies, extend_headers, assemble, poll_response,
}

module _ {k : Crates} (h : HeaderCrate k) {T B : Type 0} (into_response : IntoResponse k T B) where
  -- the response to what is found, before anything is added to it
  abbrev pub answer_to :
      k.Request → Found T → Outcome IoErrorKind (Async (HttpResponse k (String ⊎ B)))
  answer_to request (ok (x, _)) = ok (ready (map_body inr (into_response x request)))
  answer_to request (err e) = ok (ready (map_body inl (error_response h e request)))
  answer_to request panicked = panicked

  poll_response-first :
      {ck : CookieCrate k} (d : DeltaCrate ck) {Bd S : Type 0} (e : Endpoint k Bd S T)
      (request : k.Request) (body : Bd) (found : Found T)
      → FirstPoll e request body (map_ok (λ x. x.0) found)
      → (poll_response h d e.behaviour into_response (dispatch e request body)).0
        ≡ answer_to request found
  unfolding poll_response assemble append_cookies extend_headers new_context
  poll_response-first d e request body (ok (x, n)) (result, kept) = ground (arith, result, kept)
  poll_response-first d e request body (err y) (result, kept) = ground (arith, result, kept)
  poll_response-first d e request body panicked (result, kept) = ground (arith, result, kept)

-- On a request whose path is a slash and a rest, the first poll of the future of an endpoint that
-- is built of `segment`, `eos`, `param`, path literals without a catch-all, the method endpoints,
-- values, `and`, `or`, `or_strict`, `map` and `map_err` is ready with the response of what the
-- endpoint denotes on the segments of the rest: that of its output or of its error, to which no
-- cookie and no header is added; where it denotes a panic the poll panics.
pub poll_response-compile :
    {k : Crates} (h : HeaderCrate k) {ck : CookieCrate k} (d : DeltaCrate ck) {Bd B : Type 0}
    {ts : List (Type 0)} (into_response : IntoResponse k (HList ts) B) (r : Route ts)
    (request : k.Request) (body : Bd) (rest : List ℕ)
    → k.path request ≡ slash ∷ rest
    → let e = compile k Bd r in
      (poll_response h d e.behaviour into_response (dispatch e request body)).0
      ≡ answer_to h into_response request (denote k request r (split rest))
poll_response-compile {k} h d {Bd} into_response r request body rest whole =
    poll_response-first h into_response d (compile k Bd r) request body _
      (compile-FirstPoll k r request body rest whole)
