-- ===== src/Action/Runs.antt =====
-- How a caller drives an action: `preflight` once and, if that is incomplete, `poll_action` until
-- it is ready or fails. These relations describe such runs of the actions of src/action.rs.
use finch_router.Prelude.{◌≡◌, Outcome, ok, err, panicked}
use finch_router.Crates.{Crates}
use finch_router.Error.{Error}
use finch_router.Context.{ActionContext}
use finch_router.Action.{Async, ready, not_ready, EndpointAction}

-- A result that ends the polling, as one poll returns it.
abbrev pub as_poll : {E T : Type 0} → Outcome E T → Outcome E (Async T)
as_poll (ok x) = ok (ready x)
as_poll (err e) = err e
as_poll panicked = panicked

module _ {ℓ} {k : Crates} {Bd : Type 0} {S : Type ℓ} {T : Type 0}
    (a : EndpointAction k Bd S T) where
  -- Polling from a state and a context ends with a result, in a state and a context.
  pub data Settles (r : Outcome Error T) (s' : S) (cx' : ActionContext k Bd)
      : S → ActionContext k Bd → Type ℓ where
    now :
        {s : S} {cx : ActionContext k Bd}
        → a.poll_action s cx ≡ (as_poll r, s', cx')
        → Settles r s' cx' s cx
    later :
        {s s1 : S} {cx cx1 : ActionContext k Bd}
        → a.poll_action s cx ≡ (ok not_ready, s1, cx1)
        → Settles r s' cx' s1 cx1
        → Settles r s' cx' s cx
