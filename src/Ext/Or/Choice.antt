-- ===== src/Ext/Or/Choice.antt =====
-- src/endpoint/ext/or.rs: which endpoint `Or` takes.
use finch_router.Prelude.{◌≡◌, ◌≢◌, ◌≤◌, ◌⊎◌, inl, inr, ◌↔◌, ok, err, arith}
use finch_router.Common.{One}
use finch_router.Crates.{Crates}
use finch_router.Error.{Error, not_matched}
use finch_router.Context.{PreflightContext}
use finch_router.Action.{Preflight, EndpointAction, map_ok, map_preflight}
use finch_router.Ext.Or.{State, init, left, right, done, preflight_or, tag}

abbrev pub swap_sides : {A B : Type 0} → A ⊎ B → B ⊎ A
swap_sides (inl x) = inr x
swap_sides (inr y) = inl y

abbrev pub swap_state : {L R : Type 0} → State L R → State R L
swap_state (init l r) = init r l
swap_state (left l) = right l
swap_state (right r) = left r
swap_state done = done

module _ {k : Crates} {Bd L R T1 T2 : Type 0} (a1 : EndpointAction k Bd L (One T1))
    (a2 : EndpointAction k Bd R (One T2)) where
  -- Where both endpoints match and pop different numbers of segments, their order is immaterial:
  -- the same endpoint is taken, with its output and its context.
  pub or_comm :
      (l l' : L) (r r' : R) (cx cx1 cx2 : PreflightContext k) (p : Preflight (One T1))
      (q : Preflight (One T2))
      → a1.preflight l cx ≡ (ok p, l', cx1)
      → a2.preflight r cx ≡ (ok q, r', cx2)
      → cx1.cursor.popped ≢ cx2.cursor.popped
      → let x = preflight_or a1 a2 (init l r) cx in
        let y = preflight_or a2 a1 (init r l) cx in
        (map_ok (map_preflight (tag swap_sides)) x.0 ≡ y.0) × (swap_state x.1 ≡ y.1) × (x.2 ≡ y.2)
  unfolding preflight_or
  or_comm l l' r r' cx cx1 cx2 p q e f n = ground arith

  -- Where both match, the context that is left popped as many segments as the better of the two.
  or_takes_longest :
      (l l' : L) (r r' : R) (cx cx1 cx2 : PreflightContext k) (p : Preflight (One T1))
      (q : Preflight (One T2))
      → a1.preflight l cx ≡ (ok p, l', cx1)
      → a2.preflight r cx ≡ (ok q, r', cx2)
      → let x = preflight_or a1 a2 (init l r) cx in
        (cx1.cursor.popped ≤ x.2.cursor.popped)
        × (cx2.cursor.popped ≤ x.2.cursor.popped)
        × ((x.2 ≡ cx1) ⊎ (x.2 ≡ cx2))
  unfolding preflight_or
  or_takes_longest l l' r r' cx cx1 cx2 p q e f = ground arith

  -- `Or` fails exactly where both endpoints fail, and reports both errors.
  or_fails_iff :
      (l : L) (r : R) (cx : PreflightContext k) (e : Error)
      → ((preflight_or a1 a2 (init l r) cx).0 ≡ err e) ↔ (
          (x : Error) × (y : Error) × ((a1.preflight l cx).0 ≡ err x)
          × ((a2.preflight r cx).0 ≡ err y)
          × (e ≡ not_matched x y))
  unfolding preflight_or
  or_fails_iff l r cx e = (λ h. ground arith, λ h. ground arith)
