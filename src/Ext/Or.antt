-- ===== src/Ext/Or.antt =====
-- src/endpoint/ext/or.rs: `Or` checks both endpoints on the same request and takes the one that
-- popped more segments of the path, the first on a tie. `Either` is the sum `⊎`.
pub mod Choice
use finch_router.Prelude.{◌⊎◌, inl, inr, Outcome, ok, err, panicked, leb, if◌then◌else◌}
use finch_router.Common.{One, one}
use finch_router.Crates.{Crates}
use finch_router.Error.{Error, not_matched}
use finch_router.Context.{PreflightContext, ActionContext}
use finch_router.Action.{
  Preflight, completed, incomplete, map_async, map_ok, Checked, Polled, EndpointAction, Endpoint,
}

pub data State (L R : Type 0) : Type 0 where
  init : L → R → State L R
  left : L → State L R
  right : R → State L R
  done : State L R

abbrev pub tag : {A B : Type 0} → (A → B) → One A → One B
tag f (out, _) = one (f out)

module _ {k : Crates} {L R T1 T2 : Type 0} where
  -- the arms that choose an endpoint: return its output, or keep its action
  unfoldable pub take_left :
      Preflight (One T1) → L → PreflightContext k → Checked k (State L R) (One (T1 ⊎ T2))
  take_left (completed (output, _)) l cx = (ok (completed (one (inl output))), done, cx)
  take_left incomplete l cx = (ok incomplete, left l, cx)

  unfoldable pub take_right :
      Preflight (One T2) → R → PreflightContext k → Checked k (State L R) (One (T1 ⊎ T2))
  take_right (completed (output, _)) r cx = (ok (completed (one (inr output))), done, cx)
  take_right incomplete r cx = (ok incomplete, right r, cx)

  -- `match (left_output, right_output)`; `cx1` is the context after the first check, `cx` after
  -- the second
  unfoldable pub choose :
      Outcome Error (Preflight (One T1))
      → L
      → PreflightContext k
      → Outcome Error (Preflight (One T2))
      → R
      → PreflightContext k
      → Checked k (State L R) (One (T1 ⊎ T2))
  unfolding take_left take_right
  choose (ok l) s1 cx1 (ok r) s2 cx =
      if leb cx.cursor.popped cx1.cursor.popped then take_left l s1 cx1 else take_right r s2 cx
  choose (ok l) s1 cx1 (err _) s2 cx = take_left l s1 cx1
  choose (err _) s1 cx1 (ok r) s2 cx = take_right r s2 cx
  choose (err e1) s1 cx1 (err e2) s2 cx = (err (not_matched e1 e2), done, cx)
  choose panicked s1 cx1 _ s2 cx = (panicked, done, cx1)
  choose _ s1 cx1 panicked s2 cx = (panicked, done, cx)

module _ {k : Crates} {Bd L R T1 T2 : Type 0} (a1 : EndpointAction k Bd L (One T1))
    (a2 : EndpointAction k Bd R (One T2)) where
  -- Both checks start from the context that `Or` was given: it is cloned and put back.
  unfoldable pub preflight_or :
      State L R → PreflightContext k → Checked k (State L R) (One (T1 ⊎ T2))
  unfolding choose
  preflight_or (init l r) cx =
      let (left_output, l', cx1) = a1.preflight l cx in
      let (right_output, r', cx2) = a2.preflight r cx in
      choose left_output l' cx1 right_output r' cx2
  preflight_or _ cx = (panicked, done, cx)

  unfoldable pub poll_or : State L R → ActionContext k Bd → Polled k Bd (State L R) (One (T1 ⊎ T2))
  poll_or (left t) cx =
      let (r, t', cx') = a1.poll_action t cx in (map_ok (map_async (tag inl)) r, left t', cx')
  poll_or (right t) cx =
      let (r, t', cx') = a2.poll_action t cx in (map_ok (map_async (tag inr)) r, right t', cx')
  poll_or s cx = (panicked, s, cx)

  unfoldable pub or_action : EndpointAction k Bd (State L R) (One (T1 ⊎ T2))
  unfolding preflight_or poll_or
  or_action = record { preflight = preflight_or; poll_action = poll_or }

-- `EndpointExt::or`, and `Endpoint for Or`
unfoldable pub or :
    {k : Crates} {Bd L R T1 T2 : Type 0}
    → Endpoint k Bd L (One T1)
    → Endpoint k Bd R (One T2)
    → Endpoint k Bd (State L R) (One (T1 ⊎ T2))
unfolding or_action
or e1 e2 = record {
  action = init e1.action e2.action;
  behaviour = or_action e1.behaviour e2.behaviour;
}
