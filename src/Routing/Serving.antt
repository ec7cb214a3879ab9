-- ===== src/Routing/Serving.antt =====
-- src/service.rs: a service of an endpoint answers with what the endpoint denotes.
use finch_router.Prelude.{suffix?, ℕ, ◌≡◌, ap, List, ◌∷◌, Outcome, ok, err, panicked, arith}
use finch_router.Crates.{Crates}
use finch_router.Error.{Error}
use finch_router.Context.{PreflightContext, new_context, new_preflight}
use finch_router.Cursor.{slash}
use finch_router.Cursor.Split.{split}
use finch_router.Action.{Preflight, completed, incomplete, map_ok, Endpoint}
use finch_router.Action.Runs.{as_poll}
use finch_router.Routing.{Route, Found, compile, denote}
use finch_router.Routing.Meeting.{Promises, Meets}
use finch_router.Routing.Refinement.{compile-Refines}
use finch_router.Service.{dispatch, poll_apply}
use finch_router.Service.Driving.{first_context}

module _ {k : Crates} {Bd S T : Type 0} (e : Endpoint k Bd S T) (request : k.Request)
    (body : Bd) where
  -- the first poll gives the result, and keeps the context of the request
  abbrev pub FirstPoll : Outcome Error T → Type 0
  FirstPoll r =
      let (result, fut) = poll_apply e.behaviour (dispatch e request body) in
      (result ≡ as_poll r) × (fut.context ≡ new_context request)

  delivered :
      {x : T} {s : S} {px : PreflightContext k} (p : Preflight T)
      → e.behaviour.preflight e.action (new_preflight (new_context request)) ≡ (ok p, s, px)
      → Promises e.behaviour x p s
      → FirstPoll (ok x)
  unfolding dispatch poll_apply
  delivered (completed y) c h = ground (arith, c, h)
  delivered incomplete c h =
      let (s', polls) = h (first_context request body) in ground (arith, c, polls)

  first_poll :
      (ss : List (List ℕ)) (found : Found T)
      → Meets e.behaviour e.action (new_preflight (new_context request)) ss found
      → FirstPoll (map_ok (λ x. x.0) found)
  unfolding dispatch poll_apply
  first_poll ss (ok (x, n)) d = delivered d.result d.checked d.promised
  first_poll ss (err y) h = ground (arith, h)
  first_poll ss panicked h = ground (arith, h)

-- the first poll of the service of a route
pub compile-FirstPoll :
    (k : Crates) {Bd : Type 0} {ts : List (Type 0)} (r : Route ts) (request : k.Request) (body : Bd)
    (rest : List ℕ)
    → k.path request ≡ slash ∷ rest
    → FirstPoll (compile k Bd r) request body (map_ok (λ x. x.0) (denote k request r (split rest)))
unfolding new_context new_preflight
compile-FirstPoll k {Bd} r request body rest h =
    first_poll (compile k Bd r) request body (split rest) _
      (compile-Refines k Bd r (new_preflight (new_context request)) rest (ap (suffix? 1) h))

-- On a request whose path is a slash and a rest, the first poll of the service of an endpoint that
-- is built of `segment`, `eos`, `param`, path literals without a catch-all, the method endpoints,
-- values, `and`, `or`, `or_strict`, `map` and `map_err` gives what the endpoint denotes on the
-- segments of the rest: the same output, the same error, or a panic.
pub poll_apply-compile :
    (k : Crates) {Bd : Type 0} {ts : List (Type 0)} (r : Route ts) (request : k.Request) (body : Bd)
    (rest : List ℕ)
    → k.path request ≡ slash ∷ rest
    → let e = compile k Bd r in
      (poll_apply e.behaviour (dispatch e request body)).0
      ≡ as_poll (map_ok (λ x. x.0) (denote k request r (split rest)))
poll_apply-compile k r request body rest h = (compile-FirstPoll k r request body rest h).0
