-- ===== src/Routing/Choosing.antt =====
-- src/endpoint/ext/or.rs, src/endpoint/ext/or_strict.rs: the choice between two actions that give what
-- is to be found.
use finch_router.Prelude.{ℕ, ◌≡◌, ◌⊎◌, inl, inr, List, ok, err, panicked, leb, Bool-cases, arith}
use finch_router.Common.{One}
use finch_router.Crates.{Crates}
use finch_router.Context.{PreflightContext}
use finch_router.Action.{EndpointAction}
use finch_router.Ext.Or as Or
use finch_router.Ext.Or.{or_action, tag}
use finch_router.Ext.OrStrict as OrStrict
use finch_router.Ext.OrStrict.{or_strict_action}
use finch_router.Routing.{Found, longest, otherwise}
use finch_router.Routing.Following.{goes_on-Delivers}
use finch_router.Routing.Meeting.{Delivers, Meets}

module _ {k : Crates} {Bd L R T1 T2 : Type 0} (a1 : EndpointAction k Bd L (One T1))
    (a2 : EndpointAction k Bd R (One T2)) (l : L) (r : R) (cx : PreflightContext k)
    (ss : List (List ℕ)) where
  abbrev either : EndpointAction k Bd (Or.State L R) (One (T1 ⊎ T2))
  either = or_action a1 a2

  took_left :
      (x : One T1) (n : ℕ) (d : Delivers a1 l cx ss x n)
      → either.preflight (Or.init l r) cx ≡ Or.take_left d.result d.left d.after
      → Delivers either (Or.init l r) cx ss (tag inl x) n
  unfolding or_action Or.take_left
  took_left x n d e =
      goes_on-Delivers a1 either (tag inl) Or.left (λ _. Or.done) (λ s s' x cx p. ground (arith, p))
        l (Or.init l r) cx ss x n d (ground (arith, e))

  took_right :
      (y : One T2) (m : ℕ) (d : Delivers a2 r cx ss y m)
      → either.preflight (Or.init l r) cx ≡ Or.take_right d.result d.left d.after
      → Delivers either (Or.init l r) cx ss (tag inr y) m
  unfolding or_action Or.take_right
  took_right y m d e =
      goes_on-Delivers a2 either (tag inr) Or.right (λ _. Or.done)
        (λ s s' x cx p. ground (arith, p)) r (Or.init l r) cx ss y m d (ground (arith, e))

  longer :
      (x : One T1) (n : ℕ) (y : One T2) (m : ℕ) (d : Delivers a1 l cx ss x n)
      (e : Delivers a2 r cx ss y m)
      → leb e.after.cursor.popped d.after.cursor.popped ≡ leb m n
  longer x n y m d e = ground (arith, d.counted, e.counted)

  pub better-Meets :
      (found : Found (One T1)) (found' : Found (One T2))
      → Meets a1 l cx ss found
      → Meets a2 r cx ss found'
      → Meets either (Or.init l r) cx ss (longest found found')
  unfolding or_action
  better-Meets (ok (x, n)) (ok (y, m)) d e = elim (Bool-cases (leb m n)) [
    | inl h ↦ rw h (took_left x n d (ground (arith, d.checked, e.checked, longer x n y m d e)))
    | inr h ↦ rw h (took_right y m e (ground (arith, d.checked, e.checked, longer x n y m d e)))
  ]
  better-Meets (ok (x, n)) (err e') d e = took_left x n d (ground (arith, d.checked, e))
  better-Meets (ok (x, n)) panicked d e = ground (arith, d.checked, e)
  better-Meets (err e') (ok (y, m)) d e = took_right y m e (ground (arith, e.checked, d))
  better-Meets (err e') (err e'') d e = ground (arith, d, e)
  better-Meets (err e') panicked d e = ground (arith, d, e)
  better-Meets panicked found' d e = ground (arith, d)

module _ {k : Crates} {Bd L R T : Type 0} (a1 : EndpointAction k Bd L T)
    (a2 : EndpointAction k Bd R T) (l : L) (r : R) (cx : PreflightContext k)
    (ss : List (List ℕ)) where
  abbrev strict : EndpointAction k Bd (OrStrict.State L R) T
  strict = or_strict_action a1 a2

  pub first-Meets :
      (found found' : Found T)
      → Meets a1 l cx ss found
      → Meets a2 r cx ss found'
      → Meets strict (OrStrict.init l r) cx ss (otherwise found found')
  unfolding or_strict_action
  first-Meets (ok (x, n)) found' d e =
      goes_on-Delivers a1 strict (λ x. x) OrStrict.left (λ _. OrStrict.done)
        (λ s s' x cx p. ground (arith, p)) l (OrStrict.init l r) cx ss x n d
        (ground (arith, d.checked))
  first-Meets (err e') (ok (y, m)) d e =
      goes_on-Delivers a2 strict (λ x. x) OrStrict.right (λ _. OrStrict.done)
        (λ s s' x cx p. ground (arith, p)) r (OrStrict.init l r) cx ss y m e
        (ground (arith, d, e.checked))
  first-Meets (err e') (err e'') d e = ground (arith, d, e)
  first-Meets (err e') panicked d e = ground (arith, d, e)
  first-Meets panicked found' d e = ground (arith, d)
