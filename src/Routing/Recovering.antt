-- ===== src/Routing/Recovering.antt =====
-- src/endpoint/ext/and_then.rs, src/endpoint/ext/recover.rs, src/service.rs: a route followed by
-- functions of the user that make futures from its output and from its error.
use finch_router.Prelude.{suffix?, ℕ, ◌≡◌, ap, List, ◌∷◌, ok, err, panicked, arith}
use finch_router.Common.{HList}
use finch_router.Crates.{Crates}
use finch_router.Error.{Error}
use finch_router.Context.{PreflightContext, new_context, new_preflight}
use finch_router.Cursor.{slash}
use finch_router.Cursor.Split.{split}
use finch_router.Action.{Preflight, completed, incomplete, map_ok, Endpoint}
use finch_router.Action.Runs.{now}
use finch_router.Action.Performing.{Serves, at_check, at_poll, Serves-Resolves}
use finch_router.Ext.Future.{WithFuture, and_then, recover}
use finch_router.Ext.Future.Performing.{
  Futures, and_then_result, recover_result, and_then-Performs, recover-Performs,
}
use finch_router.Ext.Future.Settling.{Resolves}
use finch_router.Routing.{Route, StateOf, Found, compile, denote}
use finch_router.Routing.Meeting.{Meets, Promises}
use finch_router.Routing.Refinement.{compile-Refines}
use finch_router.Service.{AppFuture, dispatch, poll_apply}
use finch_router.Service.Driving.{first_context}

module _ {k : Crates} {Bd S T : Type 0} (e : Endpoint k Bd S T) (request : k.Request)
    (body : Bd) where
  promised-Serves :
      {x : T} {s : S} {px : PreflightContext k} (p : Preflight T)
      → e.behaviour.preflight e.action (new_preflight (new_context request)) ≡ (ok p, s, px)
      → Promises e.behaviour x p s
      → Serves e request body (ok x)
  promised-Serves {s = s} {px = px} (completed y) c h =
      at_check {s' = s} {px' = px} (ground (arith, c, h))
  promised-Serves incomplete c h = at_poll c (now (h (first_context request body)).1)

  Meets-Serves :
      (ss : List (List ℕ)) (found : Found T)
      → Meets e.behaviour e.action (new_preflight (new_context request)) ss found
      → Serves e request body (map_ok (λ x. x.0) found)
  Meets-Serves ss (ok (x, n)) d = promised-Serves d.result d.checked d.promised
  Meets-Serves ss (err y) h =
      let left = e.behaviour.preflight e.action (new_preflight (new_context request)) in
      at_check {s' = left.1} {px' = left.2} (ap (λ r. (r, left.1, left.2)) h)
  Meets-Serves ss panicked h =
      let left = e.behaviour.preflight e.action (new_preflight (new_context request)) in
      at_check {s' = left.1} {px' = left.2} (ap (λ r. (r, left.1, left.2)) h)

-- On a request whose path is a slash and a rest, and where every future that the two functions make
-- comes to a result, the service of a route followed by `and_then` and by `recover` comes to a result:
-- of the output that the route gives on the segments of the rest, the result of the future made from
-- it; of an error of the route, or of that future, the result of the future made from this error; and
-- otherwise a panic.
pub recover-and_then-Resolves :
    (k : Crates) {Bd F G R : Type 0} (u : Futures F R) (v : Futures G R) {ts : List (Type 0)}
    (route : Route ts) (f : HList ts → F) (g : Error → G) (request : k.Request) (body : Bd)
    (rest : List ℕ)
    → k.path request ≡ slash ∷ rest
    → let e = recover v.poll (and_then u.poll (compile k Bd route) f) g in
      (fut' : AppFuture k Bd (WithFuture (WithFuture (StateOf route) F) G)) × Resolves
        (poll_apply e.behaviour)
        (recover_result v g
          (and_then_result u f (map_ok (λ x. x.0) (denote k request route (split rest)))))
        fut'
        (dispatch e request body)
unfolding and_then recover new_context new_preflight
recover-and_then-Resolves k {Bd} u v route f g request body rest whole =
    let e = compile k Bd route in
    let found = denote k request route (split rest) in
    let r = map_ok (λ x. x.0) found in
    let served : Serves e request body r = Meets-Serves e request body (split rest) found (
      compile-Refines k Bd route (new_preflight (new_context request)) rest
        (ap (suffix? 1) whole)) in
    Serves-Resolves (recover v.poll (and_then u.poll e f) g) request body _
      (recover-Performs v _ g _ (and_then-Performs u e.behaviour f r served))
