-- ===== src/Ext/Future/Performing.antt =====
-- src/endpoint/ext/and_then.rs, src/endpoint/ext/recover.rs: what the two combinators come to, from the
-- check to the end, where every future that the functions of the user make comes to a result.
use finch_router.Prelude.{none, Outcome, ok, err, panicked, arith}
use finch_router.Common.{One}
use finch_router.Crates.{Crates}
use finch_router.Error.{Error}
use finch_router.Context.{PreflightContext, ActionContext}
use finch_router.Action.{Async, EndpointAction}
use finch_router.Action.Runs.{Settles, now, later}
use finch_router.Action.Performing.{Performs, at_check, at_poll}
use finch_router.Ext.Future.{WithFuture, and_then_action, recover_action}
use finch_router.Ext.Future.Settling.{
  Resolves, wrap, with_future, and_then_future, and_then-Settles, recover_future, recover-Settles,
}

-- a future of the user, by its poll, and the result that it comes to
pub record Futures (Fut R : Type 0) : Type 0 where
  pub poll : Fut → Outcome Error (Async R) × Fut
  pub result : Fut → Outcome Error R
  pub spent : Fut → Fut
  pub resolves : (fut : Fut) → Resolves poll (result fut) (spent fut) fut

module _ {Fut R : Type 0} (u : Futures Fut R) where
  -- a result, and then the future that is made from its output
  abbrev pub and_then_result : {T : Type 0} → (T → Fut) → Outcome Error T → Outcome Error (One R)
  and_then_result f (ok x) = wrap (u.result (f x))
  and_then_result f (err e) = err e
  and_then_result f panicked = panicked

  -- a result, or the future that is made from its error
  abbrev pub recover_result : (Error → Fut) → Outcome Error (One R) → Outcome Error (One R)
  recover_result f (ok x) = ok x
  recover_result f (err e) = wrap (u.result (f e))
  recover_result f panicked = panicked

  module _ {k : Crates} {Bd S T : Type 0} (a : EndpointAction k Bd S T) (f : T → Fut) where
    and_then_polled :
        (r : Outcome Error T) {s' : S} {cx' : ActionContext k Bd} {s : S} {cx : ActionContext k Bd}
        → Settles a r s' cx' s cx
        → (w : WithFuture S Fut) × Settles
            (and_then_action u.poll a f)
            (and_then_result f r)
            w
            cx'
            (with_future s none)
            cx
    unfolding and_then_action
    and_then_polled (ok x) st = (_, and_then-Settles u.poll a f st (u.resolves (f x)))
    and_then_polled (err y) {s'} (now e) = (with_future s' none, now (ground (arith, e)))
    and_then_polled panicked {s'} (now e) = (with_future s' none, now (ground (arith, e)))
    and_then_polled (err y) (later e st) =
        let (w, st') = and_then_polled (err y) st in (w, later (ground (arith, e)) st')
    and_then_polled panicked (later e st) =
        let (w, st') = and_then_polled panicked st in (w, later (ground (arith, e)) st')

    pub and_then-Performs :
        {px : PreflightContext k} {ax : ActionContext k Bd} (r : Outcome Error T) {s : S}
        → Performs a px ax r s
        → Performs (and_then_action u.poll a f) px ax (and_then_result f r) (with_future s none)
    unfolding and_then_action
    and_then-Performs (ok x) (at_check {s' = s'} {px' = px'} e) =
        at_poll {px1 = px'} (ground (arith, e)) (and_then_future u.poll a f s' (u.resolves (f x)))
    and_then-Performs (err y) (at_check {s' = s'} {px' = px'} e) =
        at_check {s' = with_future s' none} {px' = px'} (ground (arith, e))
    and_then-Performs panicked (at_check {s' = s'} {px' = px'} e) =
        at_check {s' = with_future s' none} {px' = px'} (ground (arith, e))
    and_then-Performs r (at_poll {px1 = px1} e st) =
        at_poll {px1 = px1} (ground (arith, e)) (and_then_polled r st).1

  module _ {k : Crates} {Bd S : Type 0} (a : EndpointAction k Bd S (One R)) (f : Error → Fut) where
    recover_polled :
        (r : Outcome Error (One R)) {s' : S} {cx' : ActionContext k Bd} {s : S}
        {cx : ActionContext k Bd}
        → Settles a r s' cx' s cx
        → (w : WithFuture S Fut) × Settles
            (recover_action u.poll a f)
            (recover_result f r)
            w
            cx'
            (with_future s none)
            cx
    unfolding recover_action
    recover_polled (err y) st = (_, recover-Settles u.poll a f st (u.resolves (f y)))
    recover_polled (ok x) {s'} (now e) = (with_future s' none, now (ground (arith, e)))
    recover_polled panicked {s'} (now e) = (with_future s' none, now (ground (arith, e)))
    recover_polled (ok x) (later e st) =
        let (w, st') = recover_polled (ok x) st in (w, later (ground (arith, e)) st')
    recover_polled panicked (later e st) =
        let (w, st') = recover_polled panicked st in (w, later (ground (arith, e)) st')

    pub recover-Performs :
        {px : PreflightContext k} {ax : ActionContext k Bd} (r : Outcome Error (One R)) {s : S}
        → Performs a px ax r s
        → Performs (recover_action u.poll a f) px ax (recover_result f r) (with_future s none)
    unfolding recover_action
    recover-Performs (err y) (at_check {s' = s'} {px' = px'} e) =
        at_poll {px1 = px'} (ground (arith, e)) (recover_future u.poll a f s' (u.resolves (f y)))
    recover-Performs (ok x) (at_check {s' = s'} {px' = px'} e) =
        at_check {s' = with_future s' none} {px' = px'} (ground (arith, e))
    recover-Performs panicked (at_check {s' = s'} {px' = px'} e) =
        at_check {s' = with_future s' none} {px' = px'} (ground (arith, e))
    recover-Performs r (at_poll {px1 = px1} e st) =
        at_poll {px1 = px1} (ground (arith, e)) (recover_polled r st).1
