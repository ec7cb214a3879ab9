-- ===== src/Boxed.antt =====
-- src/endpoint/boxed.rs: endpoints behind an erased type. A box is a value with its type beside it;
-- the local variants differ only in bounds on threads, which the model has no counterpart of.
pub mod Delegation
use finch_router.Crates.{Crates}
use finch_router.Context.{PreflightContext, ActionContext}
use finch_router.Action.{Checked, Polled, EndpointAction, Endpoint}

-- `EndpointActionObj` and `LocalEndpointActionObj`
pub record EndpointActionObj (k : Crates) (Bd T : Type 0) : Type 1 where
  pub State : Type 0
  pub inner : State
  pub behaviour : EndpointAction k Bd State T

-- `EndpointObj` and `LocalEndpointObj`
pub record EndpointObj (k : Crates) (Bd T : Type 0) : Type 1 where
  pub State : Type 0
  pub inner : Endpoint k Bd State T

module _ {k : Crates} {Bd T : Type 0} where
  -- `Box::new` of an action
  abbrev pub box_action : {S : Type 0} → EndpointAction k Bd S T → S → EndpointActionObj k Bd T
  box_action {S} behaviour s = record { State = S; inner = s; behaviour = behaviour }

  -- `preflight` of the object
  unfoldable pub preflight_obj :
      EndpointActionObj k Bd T → PreflightContext k → Checked k (EndpointActionObj k Bd T) T
  preflight_obj a cx =
      let (r, s, cx') = a.behaviour.preflight a.inner cx in (r, box_action a.behaviour s, cx')

  -- `poll_action` of the object
  unfoldable pub poll_obj :
      EndpointActionObj k Bd T → ActionContext k Bd → Polled k Bd (EndpointActionObj k Bd T) T
  poll_obj a cx =
      let (r, s, cx') = a.behaviour.poll_action a.inner cx in (r, box_action a.behaviour s, cx')

  -- `EndpointAction for EndpointActionObj`
  abbrev pub obj_behaviour : EndpointAction k Bd (EndpointActionObj k Bd T) T
  obj_behaviour = record { preflight = preflight_obj; poll_action = poll_obj }

  -- `EndpointObj::new`
  unfoldable pub new_obj : {S : Type 0} → Endpoint k Bd S T → EndpointObj k Bd T
  new_obj {S} endpoint = record { State = S; inner = endpoint }

  -- `BoxedEndpoint::action`, of the endpoint in the box
  unfoldable pub obj_action : EndpointObj k Bd T → EndpointActionObj k Bd T
  obj_action o = box_action o.inner.behaviour o.inner.action

  -- `Endpoint for EndpointObj`
  unfoldable pub obj_endpoint : EndpointObj k Bd T → Endpoint k Bd (EndpointActionObj k Bd T) T
  unfolding obj_action
  obj_endpoint o = record { action = obj_action o; behaviour = obj_behaviour }
