-- ===== src/Ext/OrStrict/Agreement.antt =====
-- src/endpoint/ext/or.rs, src/endpoint/ext/or_strict.rs: where the two ways to choose agree.
use finch_router.Prelude.{◌≡◌, ◌≢◌, ◌≤◌, ◌⊎◌, inl, inr, ok, panicked, arith, Outcome-cases}
use finch_router.Common.{One}
use finch_router.Crates.{Crates}
use finch_router.Context.{PreflightContext}
use finch_router.Action.{Preflight, EndpointAction, map_ok, map_preflight}
use finch_router.Ext.Or as Or
use finch_router.Ext.Or.{preflight_or, tag}
use finch_router.Ext.OrStrict as OrStrict
use finch_router.Ext.OrStrict.{preflight_or_strict}

-- the side that was taken is forgotten
abbrev pub merge : {T : Type 0} → T ⊎ T → T
merge (inl x) = x
merge (inr y) = y

abbrev pub strict_state : {L R : Type 0} → Or.State L R → OrStrict.State L R
strict_state (Or.init l r) = OrStrict.init l r
strict_state (Or.left l) = OrStrict.left l
strict_state (Or.right r) = OrStrict.right r
strict_state Or.done = OrStrict.done

module _ {k : Crates} {Bd L R T : Type 0} (a1 : EndpointAction k Bd L (One T))
    (a2 : EndpointAction k Bd R (One T)) where
  -- Where neither check panics, and, if both match, the second does not leave more segments popped than
  -- the first, `or` and `or_strict` come to the same result, but for the side that `or` tells, and
  -- leave the same state and the same context.
  pub or-eq-or_strict :
      (l : L) (r : R) (cx : PreflightContext k)
      → (a1.preflight l cx).0 ≢ panicked
      → (a2.preflight r cx).0 ≢ panicked
      → ((p q : Preflight (One T))
          → (a1.preflight l cx).0 ≡ ok p
          → (a2.preflight r cx).0 ≡ ok q
          → (a2.preflight r cx).2.cursor.popped ≤ (a1.preflight l cx).2.cursor.popped)
      → let x = preflight_or a1 a2 (Or.init l r) cx in
        let y = preflight_or_strict a1 a2 (OrStrict.init l r) cx in
        (map_ok (map_preflight (tag merge)) x.0 ≡ y.0) × (strict_state x.1 ≡ y.1) × (x.2 ≡ y.2)
  unfolding preflight_or preflight_or_strict
  or-eq-or_strict l r cx n1 n2 h = elim (Outcome-cases (a1.preflight l cx).0) [
    | inl (p, e) ↦ elim (Outcome-cases (a2.preflight r cx).0) [
      | inl (q, f) ↦ ground (arith, e, f, h p q e f)
      | inr f ↦ ground (arith, n2, e, f)
    ]
    | inr e ↦ ground (arith, n1, n2, e)
  ]
