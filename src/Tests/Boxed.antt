-- ===== src/Tests/Boxed.antt =====
-- An endpoint in a box, which is ready after one round.
use finch_router.Prelude.{ℕ, ◌≡◌, ◌↔◌, [], ◌∷◌, ok}
use finch_router.Crates.{get}
use finch_router.Action.{Endpoint}
use finch_router.Boxed.{EndpointActionObj, obj_behaviour, new_obj, obj_endpoint}
use finch_router.Boxed.Delegation.{boxed_future, dispatch-new_obj}
use finch_router.Ext.Future.Settling.{Resolves}
use finch_router.Service.{AppFuture, dispatch, poll_apply}
use finch_router.Service.Driving.{first_context, flying}
use finch_router.Tests.{plain, a_bc}
use finch_router.Tests.Polls.{Bytes, seven}

abbrev in_box : Endpoint plain Bytes ℕ ℕ
in_box = record { action = 1; behaviour = seven }

abbrev left : AppFuture plain Bytes (EndpointActionObj plain Bytes ℕ)
left = boxed_future seven (flying 0 (first_context (get, a_bc) (1 ∷ [])))

dispatch-new_obj_example :
    Resolves
      (poll_apply obj_behaviour)
      (ok 7)
      left
      (dispatch (obj_endpoint (new_obj in_box)) (get, a_bc) (1 ∷ []))
    ↔ ((fut' : AppFuture plain Bytes ℕ) × (boxed_future seven fut' ≡ left)
        × Resolves (poll_apply seven) (ok 7) fut' (dispatch in_box (get, a_bc) (1 ∷ [])))
dispatch-new_obj_example = dispatch-new_obj in_box (get, a_bc) (1 ∷ []) (ok 7) left
