-- ===== src/Ext/OrStrict.antt =====
-- src/endpoint/ext/or_strict.rs: `OrStrict` takes the first endpoint that matches; the second is
-- checked only if the first fails, on the context that `OrStrict` was given.
pub mod Assoc
pub mod Agreement
use finch_router.Prelude.{ok, err, panicked}
use finch_router.Crates.{Crates}
use finch_router.Error.{not_matched}
use finch_router.Context.{PreflightContext, ActionContext}
use finch_router.Action.{completed, incomplete, Checked, Polled, EndpointAction, Endpoint}

pub data State (L R : Type 0) : Type 0 where
  init : L → R → State L R
  left : L → State L R
  right : R → State L R
  done : State L R

module _ {k : Crates} {Bd L R T : Type 0} (a1 : EndpointAction k Bd L T)
    (a2 : EndpointAction k Bd R T) where
  unfoldable pub preflight_or_strict : State L R → PreflightContext k → Checked k (State L R) T
  preflight_or_strict (init l r) cx =
      let (r1, l', cx1) = a1.preflight l cx in
      let (r2, r', cx2) = a2.preflight r cx in
      elim r1 [
        | ok incomplete ↦ (ok incomplete, left l', cx1)
        | ok (completed output) ↦ (ok (completed output), done, cx1)
        | panicked ↦ (panicked, done, cx1)
        | err e1 ↦ elim r2 [
          | ok incomplete ↦ (ok incomplete, right r', cx2)
          | ok (completed output) ↦ (ok (completed output), done, cx2)
          | panicked ↦ (panicked, done, cx2)
          | err e2 ↦ (err (not_matched e1 e2), done, cx2)
        ]
      ]
  preflight_or_strict _ cx = (panicked, done, cx)

  unfoldable pub poll_or_strict : State L R → ActionContext k Bd → Polled k Bd (State L R) T
  poll_or_strict (left t) cx = let (r, t', cx') = a1.poll_action t cx in (r, left t', cx')
  poll_or_strict (right t) cx = let (r, t', cx') = a2.poll_action t cx in (r, right t', cx')
  poll_or_strict s cx = (panicked, s, cx)

  unfoldable pub or_strict_action : EndpointAction k Bd (State L R) T
  unfolding preflight_or_strict poll_or_strict
  or_strict_action = record { preflight = preflight_or_strict; poll_action = poll_or_strict }

-- `EndpointExt::or_strict`, and `Endpoint for OrStrict`
unfoldable pub or_strict :
    {k : Crates} {Bd L R T : Type 0}
    → Endpoint k Bd L T
    → Endpoint k Bd R T
    → Endpoint k Bd (State L R) T
unfolding or_strict_action
or_strict e1 e2 = record {
  action = init e1.action e2.action;
  behaviour = or_strict_action e1.behaviour e2.behaviour;
}
