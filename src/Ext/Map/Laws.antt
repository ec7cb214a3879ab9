-- ===== src/Ext/Map/Laws.antt =====
-- src/endpoint/ext/map.rs, src/endpoint/ext/map_err.rs: two wrappers in a row.
use finch_router.Prelude.{◌≡◌, arith}
use finch_router.Common.{One, one}
use finch_router.Crates.{Crates}
use finch_router.Error.{Error}
use finch_router.Context.{PreflightContext, ActionContext}
use finch_router.Action.{EndpointAction}
use finch_router.Ext.Map.{
  map_action, preflight_map, poll_map, map_err_action, preflight_map_err, poll_map_err,
}

module _ {k : Crates} {Bd S T : Type 0} (a : EndpointAction k Bd S T) where
  -- Mapping by `f` and then by `g` is mapping by their composite, in both methods of the action:
  -- the results, the states and the contexts are equal.
  map_compose :
      {U V : Type 0} (f : T → U) (g : One U → V) (s : S) (cx : PreflightContext k)
      (ax : ActionContext k Bd)
      → (preflight_map (map_action a f) g s cx ≡ preflight_map a (λ x. g (one (f x))) s cx)
        × (poll_map (map_action a f) g s ax ≡ poll_map a (λ x. g (one (f x))) s ax)
  unfolding preflight_map poll_map map_action
  map_compose f g s cx ax = (ground arith, ground arith)

  -- `map` and `map_err` act on different results, so their order is immaterial.
  map-map_err :
      {U : Type 0} (f : T → U) (g : Error → Error) (s : S) (cx : PreflightContext k)
      (ax : ActionContext k Bd)
      → (preflight_map (map_err_action a g) f s cx ≡ preflight_map_err (map_action a f) g s cx)
        × (poll_map (map_err_action a g) f s ax ≡ poll_map_err (map_action a f) g s ax)
  unfolding preflight_map poll_map map_action preflight_map_err poll_map_err map_err_action
  map-map_err f g s cx ax = (ground arith, ground arith)
