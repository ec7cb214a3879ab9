-- ===== src/Routing/Pathless.antt =====
-- src/action.rs, src/service.rs: a request whose path is empty, such as a CONNECT with an authority: the
-- cursor starts behind a slash that is not there.
use finch_router.Prelude.{◌≡◌, List, [], ◌∷◌, ◌⊎◌, inl, inr, panicked, arith}
use finch_router.Crates.{Crates}
use finch_router.Context.{PreflightContext, new_context, new_preflight}
use finch_router.Cursor.{next_segment}
use finch_router.Action.{oneshot_preflight}
use finch_router.Ext.And.{and_action, preflight_done}
use finch_router.Ext.Or.{or_action, choose}
use finch_router.Ext.OrStrict.{or_strict_action}
use finch_router.Ext.Map.{map_action, map_err_action}
use finch_router.Syntax.{next, segment_preflight, eos_preflight, param_preflight}
use finch_router.Syntax.PathLiteral.{static, single_param, catch_all_param, path_preflight, extract}
use finch_router.Routing.{
  Route, nothing, constant, method_is, method_among, literal, ending, parameter, components, both,
  better, first, mapped, renamed, compile,
}
use finch_router.Service.{dispatch, poll_apply}

-- Whether an endpoint looks at the path before it looks at anything else: at the leaves, in the first
-- endpoint of `and` and of `or_strict`, and in either endpoint of `or`.
abbrev pub LooksAtPath : {ts : List (Type 0)} → Route ts → Type 0
LooksAtPath nothing = ⊥
LooksAtPath (constant x) = ⊥
LooksAtPath (literal text) = Unit
LooksAtPath ending = Unit
LooksAtPath (parameter f) = Unit
LooksAtPath (method_is m) = ⊥
LooksAtPath (method_among v) = ⊥
LooksAtPath (components f [] n) = ⊥
LooksAtPath (components f (c ∷ cs) n) = Unit
LooksAtPath (both r q) = LooksAtPath r
LooksAtPath (better r q) = LooksAtPath r ⊎ LooksAtPath q
LooksAtPath (first r q) = LooksAtPath r
LooksAtPath (mapped f r) = LooksAtPath r
LooksAtPath (renamed f r) = LooksAtPath r

module _ (k : Crates) (Bd : Type 0) (request : k.Request) (pathless : k.path request ≡ []) where
  abbrev at_start : PreflightContext k
  at_start = new_preflight (new_context request)

  next_panics : next at_start ≡ (panicked, at_start)
  unfolding next next_segment new_preflight new_context
  next_panics = ground (arith, pathless)

  compile_panics :
      {ts : List (Type 0)} (r : Route ts)
      → LooksAtPath r
      → let e = compile k Bd r in (e.behaviour.preflight e.action at_start).0 ≡ panicked
  unfolding compile oneshot_preflight segment_preflight eos_preflight param_preflight path_preflight
      extract and_action preflight_done or_action choose or_strict_action map_action map_err_action
  compile_panics nothing h = absurd h
  compile_panics (constant x) h = absurd h
  compile_panics (method_is m) h = absurd h
  compile_panics (method_among v) h = absurd h
  compile_panics (components f [] n) h = absurd h
  compile_panics (components f (catch_all_param ty ∷ cs) n) h = absurd n
  compile_panics (literal text) h = ground (arith, next_panics)
  compile_panics ending h = ground (arith, next_panics)
  compile_panics (parameter f) h = ground (arith, next_panics)
  compile_panics (components f (static s ∷ cs) n) h = ground (arith, next_panics)
  compile_panics (components f (single_param ty ∷ cs) n) h = ground (arith, next_panics)
  compile_panics (both r q) h = ground (arith, compile_panics r h)
  compile_panics (better r q) (inl h) = ground (arith, compile_panics r h)
  compile_panics (better r q) (inr h) = ground (arith, compile_panics q h)
  compile_panics (first r q) h = ground (arith, compile_panics r h)
  compile_panics (mapped f r) h = ground (arith, compile_panics r h)
  compile_panics (renamed f r) h = ground (arith, compile_panics r h)

-- On a request whose path is empty, the first poll of the service of an endpoint that looks at the path
-- before it looks at anything else panics.
pub poll_apply_panics :
    (k : Crates) {Bd : Type 0} {ts : List (Type 0)} (r : Route ts) (request : k.Request) (body : Bd)
    → k.path request ≡ []
    → LooksAtPath r
    → let e = compile k Bd r in (poll_apply e.behaviour (dispatch e request body)).0 ≡ panicked
unfolding dispatch poll_apply
poll_apply_panics k {Bd} r request body pathless looks =
    ground (arith, compile_panics k Bd request pathless r looks)
