-- ===== src/Ext/And.antt =====
-- src/endpoint/ext/and.rs: `And` runs two actions, the first to its end before the second is
-- polled, and combines their outputs. `MaybeDone` keeps the output of a finished one.
pub mod Polling
use mathlib.Core.Option
use finch_router.Prelude.{
  List, ◌++◌, Option, none, some, Outcome, ok, err, panicked, ◌&&◌, if◌then◌else◌,
}
use finch_router.Common.{HList, combine}
use finch_router.Crates.{Crates}
use finch_router.Error.{Error}
use finch_router.Context.{PreflightContext, ActionContext}
use finch_router.Action.{
  ready, not_ready, completed, incomplete, is_completed, Checked, Polled, EndpointAction, Endpoint,
}

pub data MaybeDone (F O : Type 0) : Type 0 where
  init : Option F → MaybeDone F O
  in_flight : F → MaybeDone F O
  ready_with : O → MaybeDone F O
  gone : MaybeDone F O

-- `MaybeDone::take_item`; `mem::replace` leaves `Gone` in every case
unfoldable pub take_item : {F O : Type 0} → MaybeDone F O → Option O × MaybeDone F O
take_item (ready_with output) = (some output, gone)
take_item _ = (none, gone)

module _ {k : Crates} {Bd F O : Type 0} (a : EndpointAction k Bd F O) where
  -- `EndpointAction for MaybeDone`; the output is `()`. The action is taken out of `Init` before
  -- its own `preflight`, so an error leaves `Init(None)`.
  unfoldable pub preflight_done :
      MaybeDone F O → PreflightContext k → Checked k (MaybeDone F O) (Unit {0})
  preflight_done (init (some action)) cx =
      let (r, action', cx') = a.preflight action cx in
      elim r [
        | ok (completed output) ↦ (ok incomplete, ready_with output, cx')
        | ok incomplete ↦ (ok incomplete, in_flight action', cx')
        | err e ↦ (err e, init none, cx')
        | panicked ↦ (panicked, init none, cx')
      ]
  preflight_done s cx = (panicked, s, cx)

  -- The loop of `poll_action`: after `InFlight` becomes `Ready`, its second round returns.
  unfoldable pub poll_done :
      MaybeDone F O → ActionContext k Bd → Polled k Bd (MaybeDone F O) (Unit {0})
  poll_done (init s) cx = (panicked, init s, cx)
  poll_done (ready_with output) cx = (ok (ready tt), ready_with output, cx)
  poll_done (in_flight future) cx =
      let (r, future', cx') = a.poll_action future cx in
      elim r [
        | ok (ready output) ↦ (ok (ready tt), ready_with output, cx')
        | ok not_ready ↦ (ok not_ready, in_flight future', cx')
        | err e ↦ (err e, in_flight future', cx')
        | panicked ↦ (panicked, in_flight future', cx')
      ]
  poll_done gone cx = (panicked, gone, cx)

pub record AndAction (F1 O1 F2 O2 : Type 0) : Type 0 where
  pub f1 : MaybeDone F1 O1
  pub f2 : MaybeDone F2 O2

-- `AndAction::take_item`; the `?` after the first item leaves the second alone. `join` stands for
-- `Combine::combine` at the two outputs.
unfoldable pub take_items :
    {F1 O1 F2 O2 O : Type 0}
    → (O1 → O2 → O)
    → AndAction F1 O1 F2 O2
    → Option O × AndAction F1 O1 F2 O2
unfolding take_item
take_items join s =
    let (v1, f1') = take_item s.f1 in
    let (v2, f2') = take_item s.f2 in
    elim v1 [
      | none ↦ (none, record s { f1 = f1' })
      | some x1 ↦ (Option.map (join x1) v2, record { f1 = f1'; f2 = f2' })
    ]

module _ {k : Crates} {Bd F1 F2 O1 O2 O : Type 0} (join : O1 → O2 → O)
    (a1 : EndpointAction k Bd F1 O1) (a2 : EndpointAction k Bd F2 O2) where
  abbrev State : Type 0
  State = AndAction F1 O1 F2 O2

  -- `self.take_item().expect(..)`
  abbrev expect_items : {P : Type 0} → (O → P) → State → Outcome Error P × State
  expect_items wrap s =
      let (out, s') = take_items join s in
      elim out [ none ↦ (panicked, s') | some x ↦ (ok (wrap x), s') ]

  unfoldable pub preflight_and : State → PreflightContext k → Checked k State O
  unfolding preflight_done take_items is_completed
  preflight_and s cx =
      let (r1, f1', cx1) = preflight_done a1 s.f1 cx in
      let s1 : State = record s { f1 = f1' } in
      elim r1 [
        | err e ↦ (err e, s1, cx1)
        | panicked ↦ (panicked, s1, cx1)
        | ok x1 ↦
            let (r2, f2', cx2) = preflight_done a2 s.f2 cx1 in
            let s2 : State = record { f1 = f1'; f2 = f2' } in
            let (out, s3) = expect_items completed s2 in
            elim r2 [
              | err e ↦ (err e, s2, cx2)
              | panicked ↦ (panicked, s2, cx2)
              | ok x2 ↦
                  if is_completed x1 && is_completed x2
                  then (out, s3, cx2)
                  else (ok incomplete, s2, cx2)
            ]
      ]

  unfoldable pub poll_and : State → ActionContext k Bd → Polled k Bd State O
  unfolding poll_done take_items
  poll_and s cx =
      let (r1, f1', cx1) = poll_done a1 s.f1 cx in
      let s1 : State = record s { f1 = f1' } in
      elim r1 [
        | err e ↦ (err e, s1, cx1)
        | panicked ↦ (panicked, s1, cx1)
        | ok not_ready ↦ (ok not_ready, s1, cx1)
        | ok (ready _) ↦
            let (r2, f2', cx2) = poll_done a2 s.f2 cx1 in
            let s2 : State = record { f1 = f1'; f2 = f2' } in
            let (out, s3) = expect_items ready s2 in
            elim r2 [
              | err e ↦ (err e, s2, cx2)
              | panicked ↦ (panicked, s2, cx2)
              | ok not_ready ↦ (ok not_ready, s2, cx2)
              | ok (ready _) ↦ (out, s3, cx2)
            ]
      ]

  unfoldable pub and_action : EndpointAction k Bd State O
  unfolding preflight_and poll_and
  and_action = record { preflight = preflight_and; poll_action = poll_and }

-- `EndpointExt::and`, and `Endpoint for And`
unfoldable pub and :
    {k : Crates} {Bd F1 F2 : Type 0} (ts us : List (Type 0))
    → Endpoint k Bd F1 (HList ts)
    → Endpoint k Bd F2 (HList us)
    → Endpoint k Bd (AndAction F1 (HList ts) F2 (HList us)) (HList (ts ++ us))
unfolding and_action
and ts us e1 e2 = record {
  action = record { f1 = init (some e1.action); f2 = init (some e2.action) };
  behaviour = and_action (combine ts us) e1.behaviour e2.behaviour;
}
