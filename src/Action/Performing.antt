-- ===== src/Action/Performing.antt =====
-- src/action.rs: an action that is checked once and, if its check is incomplete, polled until it ends;
-- src/service.rs does so.
use finch_router.Prelude.{◌≡◌, Outcome, ok, err, panicked, arith}
use finch_router.Crates.{Crates}
use finch_router.Error.{Error}
use finch_router.Context.{PreflightContext, ActionContext, new_context, new_preflight}
use finch_router.Action.{completed, incomplete, map_ok, EndpointAction, Endpoint}
use finch_router.Action.Runs.{Settles}
use finch_router.Ext.Future.Settling.{Resolves, resolved}
use finch_router.Service.{AppFuture, dispatch, poll_apply}
use finch_router.Service.Driving.{flying, first_context, dispatch-Settles}

module _ {k : Crates} {Bd S T : Type 0} (a : EndpointAction k Bd S T) (px : PreflightContext k)
    (ax : ActionContext k Bd) where
  -- Checking an action in one context, and polling it from another after an incomplete check, comes to
  -- a result.
  pub data Performs (r : Outcome Error T) (s : S) : Type 0 where
    at_check :
        {s' : S} {px' : PreflightContext k}
        → a.preflight s px ≡ (map_ok completed r, s', px')
        → Performs r s
    at_poll :
        {s1 s2 : S} {px1 : PreflightContext k} {ax2 : ActionContext k Bd}
        → a.preflight s px ≡ (ok incomplete, s1, px1)
        → Settles a r s2 ax2 s1 ax
        → Performs r s

module _ {k : Crates} {Bd S T : Type 0} (e : Endpoint k Bd S T) (request : k.Request)
    (body : Bd) where
  -- what the action of an endpoint comes to on a request
  abbrev pub Serves : Outcome Error T → Type 0
  Serves r =
      Performs e.behaviour (new_preflight (new_context request)) (first_context request body) r
        e.action

  checked-Resolves :
      (r : Outcome Error T) {s : S} {px : PreflightContext k}
      → e.behaviour.preflight e.action (new_preflight (new_context request))
        ≡ (map_ok completed r, s, px)
      → Resolves
          (poll_apply e.behaviour)
          r
          (poll_apply e.behaviour (dispatch e request body)).1
          (dispatch e request body)
  unfolding dispatch poll_apply
  checked-Resolves (ok x) p = resolved (ground (arith, p))
  checked-Resolves (err x) p = resolved (ground (arith, p))
  checked-Resolves panicked p = resolved (ground (arith, p))

  -- the dispatched future comes to what the action does
  pub Serves-Resolves :
      (r : Outcome Error T)
      → Serves r
      → (fut' : AppFuture k Bd S) × Resolves
          (poll_apply e.behaviour)
          r
          fut'
          (dispatch e request body)
  Serves-Resolves r (at_check p) = (_, checked-Resolves r p)
  Serves-Resolves r (at_poll {s2 = s2} {ax2 = ax2} p st) =
      (flying s2 ax2, dispatch-Settles e request body p st)
