-- ===== src/Routing/Arguments.antt =====
-- src/endpoint/ext/map.rs, src/common/func.rs, src/common/combine.rs: a function of several arguments
-- behind a chain of two routes.
use finch_router.Prelude.{
  ℕ, ◌≡◌, refl, ◌+◌, ap, ◌∙◌, List, ◌∷◌, ◌++◌, Outcome, ok, err, panicked, chain, drop,
}
use finch_router.Common.{HList, One, one, combine}
use finch_router.Common.Func.{Func, call, grouped, call-combine}
use finch_router.Crates.{Crates}
use finch_router.Cursor.{slash}
use finch_router.Cursor.Split.{split}
use finch_router.Error.{Error}
use finch_router.Action.{map_ok}
use finch_router.Action.Runs.{as_poll}
use finch_router.Routing.{Route, Found, both, mapped, compile, denote}
use finch_router.Routing.Serving.{poll_apply-compile}
use finch_router.Service.{dispatch, poll_apply}

module _ (ts us : List (Type 0)) {u : Type 0} (f : Func (ts ++ us) u) where
  -- the function on what is found first, and then on what is found behind it
  abbrev pub applied : Found (HList ts) → (ℕ → Found (HList us)) → Outcome Error (One u)
  applied (ok (x, n)) later =
      map_ok (λ (y : HList us × ℕ). one (call us (call ts (grouped ts us u f) x) y.0)) (later n)
  applied (err e) later = err e
  applied panicked later = panicked

  second_applied :
      (x : HList ts) (n : ℕ) (found : Found (HList us))
      → map_ok
          (λ (z : One u × ℕ). z.0)
          (map_ok
            (λ (z : HList (ts ++ us) × ℕ). (one (call (ts ++ us) f z.0), z.1))
            (map_ok (λ (y : HList us × ℕ). (combine ts us x y.0, n + y.1)) found))
        ≡ map_ok (λ (y : HList us × ℕ). one (call us (call ts (grouped ts us u f) x) y.0)) found
  second_applied x n (ok (y, m)) = ap (λ z. ok (one z)) (call-combine ts us f x y)
  second_applied x n (err e) = refl
  second_applied x n panicked = refl

  pair_applied :
      (first : Found (HList ts)) (later : ℕ → Found (HList us))
      → map_ok
          (λ (z : One u × ℕ). z.0)
          (map_ok
            (λ (z : HList (ts ++ us) × ℕ). (one (call (ts ++ us) f z.0), z.1))
            (chain first
              (λ x. map_ok (λ (y : HList us × ℕ). (combine ts us x.0 y.0, x.1 + y.1)) (later x.1))))
        ≡ applied first later
  pair_applied (ok (x, n)) later = second_applied x n (later n)
  pair_applied (err e) later = refl
  pair_applied panicked later = refl

-- On a request whose path is a slash and a rest, the first poll of the service of `a.and(b).map(f)`
-- gives what the function returns for the outputs of the first route followed by those of the second,
-- each as an argument, where the second is looked for behind the segments that the first takes; or the
-- error, or the panic, of the first of the two that has one.
pub poll_apply-map-and :
    (k : Crates) {Bd u : Type 0} {ts us : List (Type 0)} (r : Route ts) (q : Route us)
    (f : Func (ts ++ us) u) (request : k.Request) (body : Bd) (rest : List ℕ)
    → k.path request ≡ slash ∷ rest
    → let e = compile k Bd (mapped (call (ts ++ us) f) (both r q)) in
      (poll_apply e.behaviour (dispatch e request body)).0
      ≡ as_poll (
          applied ts us f
            (denote k request r (split rest))
            (λ n. denote k request q (drop n (split rest))))
unfolding denote
poll_apply-map-and k {ts = ts} {us = us} r q f request body rest whole =
    poll_apply-compile k (mapped (call (ts ++ us) f) (both r q)) request body rest whole
    ∙ ap as_poll (
        pair_applied ts us f (denote k request r (split rest))
          (λ n. denote k request q (drop n (split rest))))
