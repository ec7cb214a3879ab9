-- ===== src/Boxed/Delegation.antt =====
-- src/endpoint/boxed.rs: a boxed endpoint does what the endpoint in the box does.
use finch_router.Prelude.{◌≡◌, refl, sym, ◌∙◌, ap, ◌↔◌, none, some, Outcome, arith}
use finch_router.Crates.{Crates}
use finch_router.Error.{Error}
use finch_router.Action.{Async, EndpointAction, Endpoint}
use finch_router.Action.Runs.{as_poll}
use finch_router.Boxed.{
  EndpointActionObj, box_action, preflight_obj, poll_obj, obj_behaviour, new_obj, obj_endpoint,
}
use finch_router.Ext.Future.Settling.{Resolves, resolved, pending}
use finch_router.Service.{AppFuture, AppFutureState, start, in_flight, dispatch, poll_apply}

-- Two futures of which the second does what the first does, from the image of each of its states.
module _ {ℓ κ} {E R : Type 0} {Fut : Type ℓ} {Gut : Type κ} (poll : Fut → Outcome E (Async R) × Fut)
    (poll2 : Gut → Outcome E (Async R) × Gut) (f : Fut → Gut)
    (follows : (x : Fut) → poll2 (f x) ≡ ((poll x).0, f (poll x).1)) {r : Outcome E R} where
  image-Resolves : {z : Gut} {y x : Fut} → f y ≡ z → Resolves poll r y x → Resolves poll2 r z (f x)
  image-Resolves {x} same (resolved e) =
      resolved (follows x ∙ ap (λ p. (p.0, f p.1)) e ∙ (λ i. (as_poll r, same i)))
  image-Resolves {x} same (pending e st) =
      pending (follows x ∙ ap (λ p. (p.0, f p.1)) e) (image-Resolves same st)

  preimage-Resolves :
      {z g : Gut} (x : Fut)
      → f x ≡ g
      → Resolves poll2 r z g
      → (y : Fut) × (f y ≡ z) × Resolves poll r y x
  preimage-Resolves x same (resolved e) =
      let whole = sym (follows x) ∙ ap poll2 same ∙ e in
      ((poll x).1, ap (λ p. p.1) whole, resolved (λ i. ((whole i).0, (poll x).1)))
  preimage-Resolves x same (pending e st) =
      let whole = sym (follows x) ∙ ap poll2 same ∙ e in
      let (y, image, found) = preimage-Resolves (poll x).1 (ap (λ p. p.1) whole) st in
      (y, image, pending (λ i. ((whole i).0, (poll x).1)) found)

module _ {k : Crates} {Bd S T : Type 0} (a : EndpointAction k Bd S T) where
  abbrev pub boxed_state : AppFutureState S → AppFutureState (EndpointActionObj k Bd T)
  boxed_state (start none) = start none
  boxed_state (start (some s)) = start (some (box_action a s))
  boxed_state (in_flight s) = in_flight (box_action a s)

  -- the future with its action boxed
  abbrev pub boxed_future : AppFuture k Bd S → AppFuture k Bd (EndpointActionObj k Bd T)
  boxed_future fut = record {
    state = boxed_state fut.state;
    context = fut.context;
    body = fut.body;
  }

  poll_apply-boxed_future :
      (fut : AppFuture k Bd S)
      → poll_apply obj_behaviour (boxed_future fut)
        ≡ ((poll_apply a fut).0, boxed_future (poll_apply a fut).1)
  unfolding poll_apply preflight_obj poll_obj
  poll_apply-boxed_future fut = ground arith

-- The future of a boxed endpoint comes to a result exactly where the future of the endpoint in the box
-- comes to it on the same request, and is left as that one with its action boxed.
pub dispatch-new_obj :
    {k : Crates} {Bd S T : Type 0} (e : Endpoint k Bd S T) (request : k.Request) (body : Bd)
    (r : Outcome Error T) (after : AppFuture k Bd (EndpointActionObj k Bd T))
    → Resolves (poll_apply obj_behaviour) r after (dispatch (obj_endpoint (new_obj e)) request body)
      ↔ ((fut' : AppFuture k Bd S) × (boxed_future e.behaviour fut' ≡ after)
          × Resolves (poll_apply e.behaviour) r fut' (dispatch e request body))
unfolding dispatch obj_endpoint new_obj
dispatch-new_obj {k} e request body r after =
    let a = e.behaviour in
    let follows = poll_apply-boxed_future a in
    let future = boxed_future a in
    (
      preimage-Resolves (poll_apply a) (poll_apply obj_behaviour) future follows
          (dispatch e request body) refl,
      λ found.
          image-Resolves (poll_apply a) (poll_apply obj_behaviour) future follows found.1 found.2,
    )
