-- ===== src/Routing/Bodies.antt =====
-- src/endpoint/ext/and.rs, src/endpoints/body.rs, src/service.rs: a route, and behind it an endpoint
-- whose action is polled, such as one that receives the body.
use mathlib.Core.Path.{subst}
use finch_router.Prelude.{
  ℕ, ◌≡◌, ◌<◌, ap, suffix?, String, true, length, List, [], ◌∷◌, some, Outcome, ok, err, panicked,
  arith,
}
use finch_router.Common.{HList, One, combine}
use finch_router.Crates.{Crates}
use finch_router.Error.{Error}
use finch_router.Context.{ActionContext, new_context, new_preflight}
use finch_router.Cursor.{slash}
use finch_router.Cursor.Split.{split}
use finch_router.Action.{Preflight, incomplete, map_ok, EndpointAction, Endpoint}
use finch_router.Action.Runs.{Settles, now, later}
use finch_router.Body.{PollBuf, State}
use finch_router.Body.Endpoints.{BodyCrate, json, json_passes, json-Settles}
use finch_router.Body.Receiving.{Streams, joined, decoded}
use finch_router.Ext.And as And
use finch_router.Ext.And.{MaybeDone, in_flight, ready_with, gone, AndAction, and_action}
use finch_router.Ext.Future.Settling.{Resolves}
use finch_router.Routing.{Route, StateOf, compile, denote}
use finch_router.Routing.Combining.{settled, preflight_done-settled, poll_done-settled}
use finch_router.Routing.Meeting.{Promises, Delivers, Meets}
use finch_router.Routing.Refinement.{compile-Refines}
use finch_router.Service.{AppFuture, dispatch, poll_apply}
use finch_router.Service.Driving.{flying, first_context, dispatch-Settles}

module _ {k : Crates} {Bd F1 F2 O1 O2 O : Type 0} (join : O1 → O2 → O)
    (a1 : EndpointAction k Bd F1 O1) (a2 : EndpointAction k Bd F2 O2) (x : O1) where
  abbrev Both : Type 0
  Both = AndAction F1 O1 F2 O2

  abbrev with_first : MaybeDone F1 O1 → F2 → Both
  with_first m s = record { f1 = m; f2 = in_flight s }

  -- the pair, once its first action is done
  second-Settles :
      (r : Outcome Error O2) {s2' : F2} {cx' : ActionContext k Bd} {s2 : F2}
      {cx : ActionContext k Bd}
      → Settles a2 r s2' cx' s2 cx
      → (s' : Both) × Settles
          (and_action join a1 a2)
          (map_ok (join x) r)
          s'
          cx'
          (with_first (ready_with x) s2)
          cx
  unfolding and_action
  second-Settles (ok y) (now e) = (record { f1 = gone; f2 = gone }, now (ground (arith, e)))
  second-Settles (err z) {s2'} (now e) = (with_first (ready_with x) s2', now (ground (arith, e)))
  second-Settles panicked {s2'} (now e) = (with_first (ready_with x) s2', now (ground (arith, e)))
  second-Settles r (later e st) =
      let (s', st') = second-Settles r st in (s', later (ground (arith, e)) st')

  -- the pair, once the check of its first action has promised an output
  promised-Settles :
      (p : Preflight O1) (s1 : F1) (r : Outcome Error O2) {s2' : F2} {cx' : ActionContext k Bd}
      {s2 : F2} {cx : ActionContext k Bd}
      → Promises a1 x p s1
      → Settles a2 r s2' cx' s2 cx
      → (s' : Both) × Settles
          (and_action join a1 a2)
          (map_ok (join x) r)
          s'
          cx'
          (with_first (settled a1 p s1) s2)
          cx
  unfolding and_action
  promised-Settles p s1 (ok y) {cx = cx} h (now e) =
      (record { f1 = gone; f2 = gone }, now (ground (arith, poll_done-settled a1 p s1 x cx h, e)))
  promised-Settles p s1 (err z) {s2'} {cx = cx} h (now e) =
      (with_first (ready_with x) s2', now (ground (arith, poll_done-settled a1 p s1 x cx h, e)))
  promised-Settles p s1 panicked {s2'} {cx = cx} h (now e) =
      (with_first (ready_with x) s2', now (ground (arith, poll_done-settled a1 p s1 x cx h, e)))
  promised-Settles p s1 r {cx = cx} h (later e st) =
      let (s', st') = second-Settles r st in
      (s', later (ground (arith, poll_done-settled a1 p s1 x cx h, e)) st')

module _ {k : Crates} {Bd F1 F2 : Type 0} (ts us : List (Type 0)) (e1 : Endpoint k Bd F1 (HList ts))
    (e2 : Endpoint k Bd F2 (HList us)) (request : k.Request) (body : Bd) where
  -- Behind an endpoint that gives an output, an endpoint whose check is incomplete.
  then-Resolves :
      (ss : List (List ℕ)) (x : HList ts) (n : ℕ)
      (d : Delivers e1.behaviour e1.action (new_preflight (new_context request)) ss x n)
      (r : Outcome Error (HList us)) {s2 s2' : F2} {cx' : ActionContext k Bd}
      → e2.behaviour.preflight e2.action d.after ≡ (ok incomplete, s2, d.after)
      → Settles e2.behaviour r s2' cx' s2 (first_context request body)
      → let e = And.and ts us e1 e2 in
        (fut' : AppFuture k Bd (AndAction F1 (HList ts) F2 (HList us))) × Resolves
          (poll_apply e.behaviour)
          (map_ok (combine ts us x) r)
          fut'
          (dispatch e request body)
  unfolding And.and and_action
  then-Resolves ss x n d r {cx' = cx'} checks st =
      let a1 = e1.behaviour in
      let a2 = e2.behaviour in
      let (s', settles) =
        promised-Settles (combine ts us) a1 a2 x d.result d.left r d.promised st in
      (
        flying s' cx',
        dispatch-Settles (And.and ts us e1 e2) request body {px = d.after}
            (ground (
              arith,
              preflight_done-settled a1 d.result d.checked,
              preflight_done-settled a2 incomplete checks,
            ))
            settles,
      )

module _ {k : Crates} (c : BodyCrate k) {Bd : Type 0} (poll_buf : PollBuf Bd) (fuel : ℕ) where
  -- On a request whose path is a slash and a rest, on which a route gives an output, whose media type
  -- is JSON and whose body gives chunks and ends, the service of the route followed by `json` comes to
  -- that output followed by what the decoder makes of the chunks in order, or to its error as a bad
  -- request, where a poll has more rounds than there are chunks.
  pub and-json-Resolves :
      {ts : List (Type 0)} (route : Route ts) (request : k.Request) (rest : List ℕ)
      {body body' : Bd} {chunks : List (List ℕ)} {value : k.HeaderValue} {mime : c.Mime}
      {T : Type 0} (from_slice : List ℕ → Outcome String T) (x : HList ts) (n : ℕ)
      → k.path request ≡ slash ∷ rest
      → denote k request route (split rest) ≡ ok (x, n)
      → k.header request "content-type" ≡ some value
      → c.mime_of value ≡ ok mime
      → c.is_json mime ≡ true
      → Streams poll_buf body' chunks body
      → length chunks < fuel
      → let e = And.and ts (T ∷ []) (compile k Bd route) (json c poll_buf fuel from_slice) in
        (fut' : AppFuture k Bd (AndAction (StateOf route) (HList ts) (State Bd) (One T))) × Resolves
          (poll_apply e.behaviour)
          (map_ok (combine ts (T ∷ []) x) (decoded (from_slice (joined chunks))))
          fut'
          (dispatch e request body)
  unfolding json new_preflight new_context
  and-json-Resolves {ts} route request rest {body = body} {chunks = chunks} {T = T} from_slice x n
        whole found has_type typed is_json streams enough =
      let e1 = compile k Bd route in
      let meets =
        compile-Refines k Bd route (new_preflight (new_context request)) rest
          (ap (suffix? 1) whole) in
      let d : Delivers e1.behaviour e1.action (new_preflight (new_context request)) (split rest) x
          n =
        subst (Meets e1.behaviour e1.action (new_preflight (new_context request)) (split rest))
          found meets in
      then-Resolves ts (T ∷ []) e1 (json c poll_buf fuel from_slice) request body (split rest) x n d
        (decoded (from_slice (joined chunks)))
        (json_passes c poll_buf fuel request streams enough has_type typed from_slice d.after
          is_json d.kept)
        (json-Settles c poll_buf fuel request streams enough has_type typed from_slice)
