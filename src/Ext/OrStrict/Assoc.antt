-- ===== src/Ext/OrStrict/Assoc.antt =====
-- src/endpoint/ext/or_strict.rs: the two bracketings of a chain of `or_strict`.
use finch_router.Prelude.{◌≡◌, Outcome, ok, err, panicked, arith}
use finch_router.Crates.{Crates}
use finch_router.Error.{Error}
use finch_router.Context.{PreflightContext, ActionContext}
use finch_router.Action.{EndpointAction}
use finch_router.Ext.OrStrict.{
  State, init, left, right, done, or_strict_action, preflight_or_strict, poll_or_strict,
}

-- An outcome with its error values merged into one.
abbrev forget_error {ℓ} : {T : Type ℓ} → Outcome Error T → Outcome (Unit {0}) T
forget_error (ok x) = ok x
forget_error (err e) = err tt
forget_error panicked = panicked

-- The state of the chain bracketed to the left that a state of the chain to the right stands for.
abbrev regroup : {A B C : Type 0} → State A (State B C) → State (State A B) C
regroup (init a (init b c)) = init (init a b) c
regroup (left a) = left (left a)
regroup (right (left b)) = left (right b)
regroup (right (right c)) = right c
regroup _ = done

module _ {k : Crates} {Bd A B C T : Type 0} (a : EndpointAction k Bd A T)
    (b : EndpointAction k Bd B T) (c : EndpointAction k Bd C T) where
  -- The check of `a.or_strict(b.or_strict(c))` and of `a.or_strict(b).or_strict(c)` ends alike but
  -- for the error value, leaves the same context, and leaves states that correspond.
  or_strict_assoc :
      (x : A) (y : B) (z : C) (cx : PreflightContext k)
      → let r = preflight_or_strict a (or_strict_action b c) (init x (init y z)) cx in
        let l = preflight_or_strict (or_strict_action a b) c (init (init x y) z) cx in
        (forget_error r.0 ≡ forget_error l.0) × (regroup r.1 ≡ l.1) × (r.2 ≡ l.2)
  unfolding preflight_or_strict or_strict_action
  or_strict_assoc x y z cx = ground arith

  -- Corresponding states poll alike, and stay corresponding.
  or_strict_assoc_poll :
      (s : State A (State B C)) (cx : ActionContext k Bd)
      → let r = poll_or_strict a (or_strict_action b c) s cx in
        let l = poll_or_strict (or_strict_action a b) c (regroup s) cx in
        (r.0 ≡ l.0) × (regroup r.1 ≡ l.1) × (r.2 ≡ l.2)
  unfolding poll_or_strict or_strict_action
  or_strict_assoc_poll s cx = ground arith
