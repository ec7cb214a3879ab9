-- ===== src/Routing/Combining.antt =====
-- src/endpoint/ext/and.rs, src/endpoint/ext/map.rs, src/endpoint/ext/map_err.rs: combinators of actions
-- that give what is to be found.
use Prim.Native.Nat.add
use finch_router.Prelude.{
  sym, ℕ, zero, suc, ◌+◌, ◌≡◌, refl, ◌∙◌, List, [], ◌∷◌, some, Outcome, ok, err, panicked, drop,
  chain, arith,
}
use finch_router.Common.{one}
use finch_router.Crates.{Crates}
use finch_router.Error.{Error}
use finch_router.Context.{PreflightContext, ActionContext}
use finch_router.Action.{Preflight, completed, incomplete, ready, map_ok, EndpointAction}
use finch_router.Ext.And.{
  MaybeDone, init, in_flight, ready_with, gone, AndAction, and_action, preflight_done, poll_done,
}
use finch_router.Ext.Map.{map_action, map_err_action}
use finch_router.Routing.{Found, refusal}
use finch_router.Routing.Following.{goes_on-Delivers}
use finch_router.Routing.Meeting.{Promises, Delivers, Meets}

drop-nil {ℓ} : {A : Type ℓ} (n : ℕ) → drop {A = A} n [] ≡ []
drop-nil zero = refl
drop-nil (suc n) = refl

pub drop-add {ℓ} : {A : Type ℓ} (n m : ℕ) (xs : List A) → drop (n + m) xs ≡ drop m (drop n xs)
drop-add zero m xs = ground (arith, add.zero m)
drop-add (suc n) m [] = drop-nil (suc n + m) ∙ sym (drop-nil m)
drop-add (suc n) m (x ∷ xs) = rw add.suc (drop-add n m xs)

module _ {k : Crates} {Bd F O : Type 0} (a : EndpointAction k Bd F O) where
  abbrev pub settled : Preflight O → F → MaybeDone F O
  settled (completed x) s = ready_with x
  settled incomplete s = in_flight s

  pub preflight_done-settled :
      {s s' : F} {cx cx' : PreflightContext k} (p : Preflight O)
      → a.preflight s cx ≡ (ok p, s', cx')
      → preflight_done a (init (some s)) cx ≡ (ok incomplete, settled p s', cx')
  unfolding preflight_done
  preflight_done-settled (completed x) e = ground (arith, e)
  preflight_done-settled incomplete e = ground (arith, e)

  preflight_done_refused :
      {s : F} {cx : PreflightContext k} {e : Outcome Error (Preflight O)}
      → (a.preflight s cx).0 ≡ e
      → (preflight_done a (init (some s)) cx).0 ≡ map_ok (λ _. incomplete) e
  unfolding preflight_done
  preflight_done_refused h = ground (arith, h)

  pub poll_done-settled :
      (p : Preflight O) (s : F) (x : O) (cx : ActionContext k Bd)
      → Promises a x p s
      → poll_done a (settled p s) cx ≡ (ok (ready tt), ready_with x, cx)
  unfolding poll_done
  poll_done-settled (completed y) s x cx e = ground (arith, e)
  poll_done-settled incomplete s x cx e = let (s', polls) = e cx in ground (arith, polls)

module _ {k : Crates} {Bd F1 F2 O1 O2 O : Type 0} (join : O1 → O2 → O)
    (a1 : EndpointAction k Bd F1 O1) (a2 : EndpointAction k Bd F2 O2) where
  abbrev started : F1 → F2 → AndAction F1 O1 F2 O2
  started s1 s2 = record { f1 = init (some s1); f2 = init (some s2) }

  module _ (s1 : F1) (s2 : F2) (cx : PreflightContext k) (ss : List (List ℕ)) where
    both-Delivers :
        (x : O1) (n : ℕ) (y : O2) (m : ℕ) (d : Delivers a1 s1 cx ss x n)
        → Delivers a2 s2 d.after (drop n ss) y m
        → Delivers (and_action join a1 a2) (started s1 s2) cx ss (join x y) (n + m)
    unfolding and_action
    both-Delivers x n y m d e = record {
      result = incomplete;
      left = record { f1 = settled a1 d.result d.left; f2 = settled a2 e.result e.left };
      after = e.after;
      rest = e.rest;
      checked = ground (
        arith,
        preflight_done-settled a1 d.result d.checked,
        preflight_done-settled a2 e.result e.checked,
      );
      promised = λ cx'. (
        record { f1 = gone; f2 = gone },
        ground (
          arith,
          poll_done-settled a1 d.result d.left x cx' d.promised,
          poll_done-settled a2 e.result e.left y cx' e.promised,
        ),
      );
      at = e.at;
      segments = e.segments ∙ sym (drop-add n m ss);
      counted = omega (arith, d.counted, e.counted);
      kept = e.kept ∙ d.kept;
    }

    second-Meets :
        (x : O1) (n : ℕ) (d : Delivers a1 s1 cx ss x n) (found : Found O2)
        → Meets a2 s2 d.after (drop n ss) found
        → Meets
            (and_action join a1 a2)
            (started s1 s2)
            cx
            ss
            (map_ok (λ y. (join x y.0, n + y.1)) found)
    unfolding and_action
    second-Meets x n d (ok (y, m)) e = both-Delivers x n y m d e
    second-Meets x n d (err e) h =
        ground (arith, preflight_done-settled a1 d.result d.checked, preflight_done_refused a2 h)
    second-Meets x n d panicked h =
        ground (arith, preflight_done-settled a1 d.result d.checked, preflight_done_refused a2 h)

    pub both-Meets :
        (found : Found O1) (next : ℕ → Found O2)
        → Meets a1 s1 cx ss found
        → ((x : O1) (n : ℕ) (d : Delivers a1 s1 cx ss x n)
            → Meets a2 s2 d.after (drop n ss) (next n))
        → Meets
            (and_action join a1 a2)
            (started s1 s2)
            cx
            ss
            (chain found (λ x. map_ok (λ y. (join x.0 y.0, x.1 + y.1)) (next x.1)))
    unfolding and_action
    both-Meets (ok (x, n)) next d then = second-Meets x n d (next n) (then x n d)
    both-Meets (err e) next d then = ground (arith, preflight_done_refused a1 d)
    both-Meets panicked next d then = ground (arith, preflight_done_refused a1 d)

module _ {k : Crates} {Bd S T : Type 0} (a : EndpointAction k Bd S T) (s : S)
    (cx : PreflightContext k) (ss : List (List ℕ)) where
  pub mapped-Meets :
      {U : Type 0} (f : T → U) (found : Found T)
      → Meets a s cx ss found
      → Meets (map_action a f) s cx ss (map_ok (λ x. (one (f x.0), x.1)) found)
  unfolding map_action
  mapped-Meets f (ok (x, n)) d =
      goes_on-Delivers a (map_action a f) (λ args. one (f args)) (λ s. s) (λ s. s)
        (λ s s' x cx p. ground (arith, p)) s s cx ss x n d (ground (arith, d.checked))
  mapped-Meets f (err e) h = ground (arith, h)
  mapped-Meets f panicked h = ground (arith, h)

  pub renamed-Meets :
      (f : Error → Error) (found : Found T)
      → Meets a s cx ss found
      → Meets (map_err_action a f) s cx ss (refusal f found)
  unfolding map_err_action
  renamed-Meets f (ok (x, n)) d =
      goes_on-Delivers a (map_err_action a f) (λ x. x) (λ s. s) (λ s. s)
        (λ s s' x cx p. ground (arith, p)) s s cx ss x n d (ground (arith, d.checked))
  renamed-Meets f (err e) h = ground (arith, h)
  renamed-Meets f panicked h = ground (arith, h)
