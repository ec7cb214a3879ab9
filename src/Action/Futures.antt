-- ===== src/Action/Futures.antt =====
-- src/action.rs: every future is an action, which polls it while the thread-local cell has the context.
use finch_router.Prelude.{Option, Effect}
use finch_router.Crates.{Crates}
use finch_router.Error.{Error}
use finch_router.Context.{Context, ActionContext}
use finch_router.Context.Local.{Local, set_task_cx}
use finch_router.Action.{Async, Polled, EndpointAction, Endpoint}
use finch_router.Body.{default_preflight}

-- what the code of a future can change: itself, and through the cell the context
pub record Running (k : Crates) (F : Type 0) : Type 0 where
  pub future : F
  pub context : Context k

-- `Future::poll`, with its error converted
abbrev pub FuturePoll : (k : Crates) (P F T : Type 0) → Type 0
FuturePoll k P F T = Effect (Local P (Running k F)) Error (Async T)

module _ {k : Crates} {Bd P F T : Type 0} (here : P) (outer : Option P)
    (poll : FuturePoll k P F T) where
  -- the cell as the future finds it before `set`: it has whatever the thread has set outside
  abbrev pub around : F → ActionContext k Bd → Local P (Running k F)
  around future cx = record {
    tls_cx = outer;
    rest = record { future = future; context = cx.context };
  }

  -- `poll_action` of a future, whose context is at the address `here`
  unfoldable pub poll_future : F → ActionContext k Bd → Polled k Bd F T
  unfolding set_task_cx
  poll_future future cx =
      let (r, st) = set_task_cx here poll (around future cx) in
      (r, st.rest.future, record cx { context = st.rest.context })

  -- `EndpointAction for F`
  unfoldable pub future_action : EndpointAction k Bd F T
  unfolding poll_future default_preflight
  future_action = record { preflight = default_preflight; poll_action = poll_future }

  -- `endpoint(|| future)`
  abbrev pub future_endpoint : F → Endpoint k Bd F T
  future_endpoint future = record { action = future; behaviour = future_action }
