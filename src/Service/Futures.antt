-- ===== src/Service/Futures.antt =====
-- src/service.rs, src/action.rs: what a future does to the context reaches the response.
use finch_router.Prelude.{Option, none, ◌≡◌, ok, inr, arith}
use finch_router.Crates.{Crates}
use finch_router.Context.{new_context}
use finch_router.Context.Local.{with_cx}
use finch_router.Action.{ready}
use finch_router.Action.Futures.{Running, FuturePoll, future_endpoint, future_action}
use finch_router.Cookies.{CookieCrate}
use finch_router.Output.{HeaderCrate, IntoResponse, map_body}
use finch_router.Service.{dispatch, poll_apply}
use finch_router.Service.Response.{DeltaCrate, assemble, poll_response}

module _ {k : Crates} (h : HeaderCrate k) {ck : CookieCrate k} (d : DeltaCrate ck) where
  -- Where a future is polled on a request and its code calls `Context::with`, which is given the
  -- context of that request, and the closure returns an output, the first poll of the service is
  -- ready with the response to the output, assembled in the context that the closure leaves: its
  -- headers and cookies are sent. What the thread has set outside does not matter.
  pub poll_response-with_cx :
      {Bd P F T B : Type 0} (here : P) (outer : Option P) (closure : P → FuturePoll k P F T)
      (into_response : IntoResponse k T B) (future : F) (request : k.Request) (body : Bd) (x : T)
      {cell : Option P} {left : Running k F}
      → closure here (record {
        tls_cx = none;
        rest = record { future = future; context = new_context request };
      })
        ≡ (ok (ready x), record { tls_cx = cell; rest = left })
      → let e = future_endpoint {Bd = Bd} here outer (with_cx closure) future in
        (poll_response h d e.behaviour into_response (dispatch e request body)).0
        ≡ ok (
            ready
              ((assemble h d (map_body inr (into_response x left.context.request)) left.context).0))
  unfolding poll_response poll_apply dispatch future_action with_cx
  poll_response-with_cx here outer closure into_response future request body x e = ground (arith, e)
