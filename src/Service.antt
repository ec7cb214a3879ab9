-- ===== src/Service.antt =====
-- src/service.rs: `AppService` turns a request into an `AppFuture`, which checks the endpoint's
-- action once and then polls it.
pub mod Driving
pub mod Response
pub mod Assembly
pub mod Futures
use finch_router.Prelude.{Option, none, some, Outcome, ok, err, panicked}
use finch_router.Crates.{Crates}
use finch_router.Error.{Error}
use finch_router.Context.{Context, ActionContext, new_context, new_preflight}
use finch_router.Action.{Async, ready, completed, incomplete, EndpointAction, Endpoint}

pub data AppFutureState {ℓ} (A : Type ℓ) : Type ℓ where
  start : Option A → AppFutureState A
  in_flight : A → AppFutureState A

-- `AppFuture`, without the endpoint's functions
pub record AppFuture {ℓ} (k : Crates) (Bd : Type 0) (A : Type ℓ) : Type ℓ where
  pub state : AppFutureState A
  pub context : Context k
  pub body : Option Bd

module _ {ℓ} {k : Crates} {Bd T : Type 0} {A : Type ℓ} where
  -- `AppService::dispatch`, and `Service::call`; the request's parts and its body are given apart
  unfoldable pub dispatch : Endpoint k Bd A T → k.Request → Bd → AppFuture k Bd A
  unfolding new_context
  dispatch e request body = record {
    state = start (some e.action);
    context = new_context request;
    body = some body;
  }

module _ {ℓ} {k : Crates} {Bd T : Type 0} {A : Type ℓ} (a : EndpointAction k Bd A T) where
  -- the `InFlight` arm of `poll_apply`; the context and the body are lent to the action
  unfoldable pub poll_in_flight : A → AppFuture k Bd A → Outcome Error (Async T) × AppFuture k Bd A
  poll_in_flight action fut =
      let (r, action', cx) =
        a.poll_action action (record { context = fut.context; body = fut.body }) in
      (r, record { state = in_flight action'; context = cx.context; body = cx.body })

  -- `AppFuture::poll_apply`. Its loop has at most two rounds: the `Start` arm returns or goes on to
  -- the `InFlight` arm, which returns. The action is taken out of `Start` first, and the check has
  -- the context for reading only.
  unfoldable pub poll_apply : AppFuture k Bd A → Outcome Error (Async T) × AppFuture k Bd A
  unfolding poll_in_flight new_preflight
  poll_apply fut = elim fut.state [
    | start none ↦ (panicked, fut)
    | start (some action) ↦
        let (r, action', _) = a.preflight action (new_preflight fut.context) in
        let taken : AppFuture k Bd A = record fut { state = start none } in
        elim r [
          | ok (completed output) ↦ (ok (ready output), taken)
          | ok incomplete ↦ poll_in_flight action' fut
          | err e ↦ (err e, taken)
          | panicked ↦ (panicked, taken)
        ]
    | in_flight action ↦ poll_in_flight action fut
  ]
