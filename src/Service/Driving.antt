-- ===== src/Service/Driving.antt =====
-- src/service.rs: what driving an `AppFuture` to its end comes to, in terms of the action.
use finch_router.Prelude.{◌≡◌, some, Outcome, ok, err, panicked, arith}
use finch_router.Crates.{Crates}
use finch_router.Error.{Error}
use finch_router.Context.{PreflightContext, ActionContext, new_context, new_preflight}
use finch_router.Action.{ready, completed, incomplete, EndpointAction, Endpoint}
use finch_router.Action.Runs.{Settles, now, later}
use finch_router.Ext.Future.Settling.{Resolves, resolved, pending}
use finch_router.Service.{AppFuture, in_flight, dispatch, poll_apply}

-- the context that the action is first polled with
abbrev pub first_context : {k : Crates} {Bd : Type 0} → k.Request → Bd → ActionContext k Bd
first_context request body = record { context = new_context request; body = some body }

-- a future whose action is polled
abbrev pub flying : {k : Crates} {Bd A : Type 0} → A → ActionContext k Bd → AppFuture k Bd A
flying action cx = record { state = in_flight action; context = cx.context; body = cx.body }

module _ {k : Crates} {Bd A T : Type 0} where
  module _ (a : EndpointAction k Bd A T) where
    poll_apply-flying :
        {r : Outcome Error T} {s' : A} {cx' : ActionContext k Bd} {s : A} {cx : ActionContext k Bd}
        → Settles a r s' cx' s cx
        → Resolves (poll_apply a) r (flying s' cx') (flying s cx)
    unfolding poll_apply
    poll_apply-flying (now e) = resolved (ground (arith, e))
    poll_apply-flying (later e st) = pending (ground (arith, e)) (poll_apply-flying st)

  module _ (e : Endpoint k Bd A T) (request : k.Request) (body : Bd) where
    -- Where the check of the endpoint is incomplete, driving the dispatched future ends as polling
    -- the action does, from a context that holds the request and its body, whatever the check did
    -- to its own.
    pub dispatch-Settles :
        {r : Outcome Error T} {s s' : A} {cx' : ActionContext k Bd} {px : PreflightContext k}
        → e.behaviour.preflight e.action (new_preflight (new_context request))
          ≡ (ok incomplete, s, px)
        → Settles e.behaviour r s' cx' s (first_context request body)
        → Resolves (poll_apply e.behaviour) r (flying s' cx') (dispatch e request body)
    unfolding dispatch poll_apply
    dispatch-Settles p (now f) = resolved (ground (arith, p, f))
    dispatch-Settles p (later f st) =
        pending (ground (arith, p, f)) (poll_apply-flying e.behaviour st)

    -- the future once its action has been taken out
    abbrev spent : AppFuture k Bd A
    spent = (poll_apply e.behaviour (dispatch e request body)).1

    -- Where the check gives an output, the first poll of the dispatched future is ready with it,
    -- keeps the request and its body, and a second poll panics.
    dispatch_completed :
        (s : A) (px : PreflightContext k) (output : T)
        → e.behaviour.preflight e.action (new_preflight (new_context request))
          ≡ (ok (completed output), s, px)
        → ((poll_apply e.behaviour (dispatch e request body)).0 ≡ ok (ready output))
          × (spent.body ≡ some body)
          × (spent.context ≡ new_context request)
          × ((poll_apply e.behaviour spent).0 ≡ panicked)
    unfolding dispatch poll_apply
    dispatch_completed s px output p = ground (arith, p)

    -- Where the check fails, the first poll of the dispatched future fails with its error, keeps
    -- the request and its body, and a second poll panics.
    pub dispatch_failed :
        (s : A) (px : PreflightContext k) (x : Error)
        → e.behaviour.preflight e.action (new_preflight (new_context request)) ≡ (err x, s, px)
        → ((poll_apply e.behaviour (dispatch e request body)).0 ≡ err x)
          × (spent.body ≡ some body)
          × (spent.context ≡ new_context request)
          × ((poll_apply e.behaviour spent).0 ≡ panicked)
    unfolding dispatch poll_apply
    dispatch_failed s px x p = ground (arith, p)
