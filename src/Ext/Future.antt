-- ===== src/Ext/Future.antt =====
-- src/endpoint/ext/and_then.rs and src/endpoint/ext/recover.rs: an action, and then a future that a
-- function of the user makes from its output or from its error. The future is a parameter: a state
-- `Fut` and its `poll`. Both loops of `poll_action` end in at most two rounds, since the second
-- finds `in_flight` set.
pub mod Settling
pub mod Performing
use finch_router.Prelude.{Option, none, some, Outcome, ok, err, panicked}
use finch_router.Common.{One, one}
use finch_router.Crates.{Crates}
use finch_router.Error.{Error}
use finch_router.Context.{PreflightContext, ActionContext}
use finch_router.Action.{
  Async, ready, not_ready, completed, incomplete, map_async, map_ok, Checked, Polled,
  EndpointAction, Endpoint,
}

-- `AndThenAction` and `RecoverAction`, without the function, which is a constant
pub record WithFuture (S Fut : Type 0) : Type 0 where
  pub action : S
  pub in_flight : Option Fut

module _ {k : Crates} {Bd S T Fut R : Type 0} (poll : Fut → Outcome Error (Async R) × Fut)
    (a : EndpointAction k Bd S T) where
  -- the round of either loop that finds `in_flight` set
  unfoldable pub poll_in_flight :
      S → Fut → ActionContext k Bd → Polled k Bd (WithFuture S Fut) (One R)
  poll_in_flight s fut cx =
      let (r, fut') = poll fut in
      (map_ok (map_async one) r, record { action = s; in_flight = some fut' }, cx)

  module _ (f : T → Fut) where
    -- `debug_assert!(self.in_flight.is_none())` panics where it fails
    unfoldable pub preflight_and_then :
        WithFuture S Fut → PreflightContext k → Checked k (WithFuture S Fut) (One R)
    preflight_and_then s cx =
        let (r, s', cx') = a.preflight s.action cx in
        elim s.in_flight [
          | some _ ↦ (panicked, s, cx)
          | none ↦ elim r [
            | ok (completed output) ↦
                (ok incomplete, record { action = s'; in_flight = some (f output) }, cx')
            | ok incomplete ↦ (ok incomplete, record { action = s'; in_flight = none }, cx')
            | err e ↦ (err e, record { action = s'; in_flight = none }, cx')
            | panicked ↦ (panicked, record { action = s'; in_flight = none }, cx')
          ]
        ]

    unfoldable pub poll_and_then :
        WithFuture S Fut → ActionContext k Bd → Polled k Bd (WithFuture S Fut) (One R)
    unfolding poll_in_flight
    poll_and_then s cx =
        let (r, s', cx') = a.poll_action s.action cx in
        elim s.in_flight [
          | some fut ↦ poll_in_flight s.action fut cx
          | none ↦ elim r [
            | ok (ready args) ↦ poll_in_flight s' (f args) cx'
            | ok not_ready ↦ (ok not_ready, record { action = s'; in_flight = none }, cx')
            | err e ↦ (err e, record { action = s'; in_flight = none }, cx')
            | panicked ↦ (panicked, record { action = s'; in_flight = none }, cx')
          ]
        ]

    unfoldable pub and_then_action : EndpointAction k Bd (WithFuture S Fut) (One R)
    unfolding preflight_and_then poll_and_then
    and_then_action = record { preflight = preflight_and_then; poll_action = poll_and_then }

module _ {k : Crates} {Bd S Fut R : Type 0} (poll : Fut → Outcome Error (Async R) × Fut)
    (a : EndpointAction k Bd S (One R)) (f : Error → Fut) where
  unfoldable pub preflight_recover :
      WithFuture S Fut → PreflightContext k → Checked k (WithFuture S Fut) (One R)
  preflight_recover s cx =
      let (r, s', cx') = a.preflight s.action cx in
      elim s.in_flight [
        | some _ ↦ (panicked, s, cx)
        | none ↦ elim r [
          | ok x ↦ (ok x, record { action = s'; in_flight = none }, cx')
          | err e ↦ (ok incomplete, record { action = s'; in_flight = some (f e) }, cx')
          | panicked ↦ (panicked, record { action = s'; in_flight = none }, cx')
        ]
      ]

  unfoldable pub poll_recover :
      WithFuture S Fut → ActionContext k Bd → Polled k Bd (WithFuture S Fut) (One R)
  unfolding poll_in_flight
  poll_recover s cx =
      let (r, s', cx') = a.poll_action s.action cx in
      elim s.in_flight [
        | some fut ↦ poll_in_flight poll a s.action fut cx
        | none ↦ elim r [
          | ok x ↦ (ok x, record { action = s'; in_flight = none }, cx')
          | err e ↦ poll_in_flight poll a s' (f e) cx'
          | panicked ↦ (panicked, record { action = s'; in_flight = none }, cx')
        ]
      ]

  unfoldable pub recover_action : EndpointAction k Bd (WithFuture S Fut) (One R)
  unfolding preflight_recover poll_recover
  recover_action = record { preflight = preflight_recover; poll_action = poll_recover }

module _ {k : Crates} {Bd S Fut R : Type 0} (poll : Fut → Outcome Error (Async R) × Fut) where
  -- `EndpointExt::and_then`, and `Endpoint for AndThen`
  unfoldable pub and_then :
      {T : Type 0} → Endpoint k Bd S T → (T → Fut) → Endpoint k Bd (WithFuture S Fut) (One R)
  unfolding and_then_action
  and_then e f = record {
    action = record { action = e.action; in_flight = none };
    behaviour = and_then_action poll e.behaviour f;
  }

  -- `EndpointExt::recover`, and `Endpoint for Recover`
  unfoldable pub recover :
      Endpoint k Bd S (One R) → (Error → Fut) → Endpoint k Bd (WithFuture S Fut) (One R)
  unfolding recover_action
  recover e f = record {
    action = record { action = e.action; in_flight = none };
    behaviour = recover_action poll e.behaviour f;
  }
