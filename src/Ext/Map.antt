-- ===== src/Ext/Map.antt =====
-- src/endpoint/ext/map.rs and src/endpoint/ext/map_err.rs: `Map` applies a function to the output
-- of an action, `MapErr` to its error. The function is a constant of the action, so the state of
-- the wrapper is that of the wrapped action. The function is one of the whole output, which
-- `call` of Common/Func makes of a function of several arguments.
pub mod Laws
use finch_router.Common.{One, one}
use finch_router.Crates.{Crates}
use finch_router.Error.{Error}
use finch_router.Context.{PreflightContext, ActionContext}
use finch_router.Action
use finch_router.Action.{
  map_preflight, map_async, map_ok, Checked, Polled, EndpointAction, Endpoint,
}

module _ {k : Crates} {Bd S T : Type 0} (a : EndpointAction k Bd S T) where
  module _ {U : Type 0} (f : T → U) where
    unfoldable pub preflight_map : S → PreflightContext k → Checked k S (One U)
    preflight_map s cx =
        let (r, s', cx') = a.preflight s cx in
        (map_ok (map_preflight (λ args. one (f args))) r, s', cx')

    unfoldable pub poll_map : S → ActionContext k Bd → Polled k Bd S (One U)
    poll_map s cx =
        let (r, s', cx') = a.poll_action s cx in
        (map_ok (map_async (λ args. one (f args))) r, s', cx')

    unfoldable pub map_action : EndpointAction k Bd S (One U)
    unfolding preflight_map poll_map
    map_action = record { preflight = preflight_map; poll_action = poll_map }

  -- `f(err).into()` is one function from errors to errors
  module _ (f : Error → Error) where
    unfoldable pub preflight_map_err : S → PreflightContext k → Checked k S T
    preflight_map_err s cx = let (r, s', cx') = a.preflight s cx in (Action.map_err f r, s', cx')

    unfoldable pub poll_map_err : S → ActionContext k Bd → Polled k Bd S T
    poll_map_err s cx = let (r, s', cx') = a.poll_action s cx in (Action.map_err f r, s', cx')

    unfoldable pub map_err_action : EndpointAction k Bd S T
    unfolding preflight_map_err poll_map_err
    map_err_action = record { preflight = preflight_map_err; poll_action = poll_map_err }

module _ {k : Crates} {Bd S T : Type 0} (e : Endpoint k Bd S T) where
  -- `EndpointExt::map`, and `Endpoint for Map`
  unfoldable pub map : {U : Type 0} → (T → U) → Endpoint k Bd S (One U)
  unfolding map_action
  map f = record { action = e.action; behaviour = map_action e.behaviour f }

  -- `EndpointExt::map_err`, and `Endpoint for MapErr`
  unfoldable pub map_err : (Error → Error) → Endpoint k Bd S T
  unfolding map_err_action
  map_err f = record { action = e.action; behaviour = map_err_action e.behaviour f }
