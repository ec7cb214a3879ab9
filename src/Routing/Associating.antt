-- ===== src/Routing/Associating.antt =====
-- src/endpoint/ext/and.rs, src/common/combine.rs: the two bracketings of a chain of `and`. Their outputs
-- have types that are equal, and not the same: an equation between them lies over one between the types.
use mathlib.Core.Path.{PathP}
use native.Mathlib.Nat.{add_assoc}
use finch_router.Prelude.{
  ℕ, ◌+◌, ◌≡◌, refl, ap, List, [], ◌∷◌, ◌++◌, ok, err, panicked, drop, chain,
}
use finch_router.Common.{HList, combine}
use finch_router.Crates.{Crates}
use finch_router.Action.{map_ok}
use finch_router.Routing.{Route, Found, both, denote}
use finch_router.Routing.Combining.{drop-add}

pub types_assoc : (ts us vs : List (Type 0)) → (ts ++ us) ++ vs ≡ ts ++ (us ++ vs)
types_assoc [] us vs = refl
types_assoc (t ∷ ts) us vs = ap (λ l. t ∷ l) (types_assoc ts us vs)

combine_assoc :
    (ts us vs : List (Type 0)) (x : HList ts) (y : HList us) (z : HList vs)
    → PathP
        (λ i. HList (types_assoc ts us vs i))
        (combine (ts ++ us) vs (combine ts us x y) z)
        (combine ts (us ++ vs) x (combine us vs y z))
unfolding combine types_assoc
combine_assoc [] us vs x y z = refl
combine_assoc (t ∷ ts) us vs (head, tail) y z = λ i. (head, combine_assoc ts us vs tail y z i)

-- two in a row, of which the second is looked for behind what the first takes
abbrev pair :
    (ts us : List (Type 0)) → Found (HList ts) → (ℕ → Found (HList us)) → Found (HList (ts ++ us))
pair ts us a b = chain a (λ x. map_ok (λ y. (combine ts us x.0 y.0, x.1 + y.1)) (b x.1))

module _ (ts us vs : List (Type 0)) where
  abbrev Line : Found (HList ((ts ++ us) ++ vs)) → Found (HList (ts ++ (us ++ vs))) → Type 0
  Line found found' = PathP (λ i. Found (HList (types_assoc ts us vs i))) found found'

  third_assoc :
      (x : HList ts) (n : ℕ) (y : HList us) (m : ℕ) (c : Found (HList vs))
      → Line
          (map_ok
            (λ (z : HList vs × ℕ). (combine (ts ++ us) vs (combine ts us x y) z.0, n + m + z.1))
            c)
          (map_ok
            (λ (w : HList (us ++ vs) × ℕ). (combine ts (us ++ vs) x w.0, n + w.1))
            (map_ok (λ (z : HList vs × ℕ). (combine us vs y z.0, m + z.1)) c))
  third_assoc x n y m (ok (z, p)) = λ i. ok (combine_assoc ts us vs x y z i, add_assoc n m p i)
  third_assoc x n y m (err e) = λ i. err e
  third_assoc x n y m panicked = λ i. panicked

  module _ (ss : List (List ℕ)) (c : List (List ℕ) → Found (HList vs)) where
    second_assoc :
        (x : HList ts) (n : ℕ) (b : Found (HList us))
        → Line
            (pair
              (ts ++ us)
              vs
              (map_ok (λ (y : HList us × ℕ). (combine ts us x y.0, n + y.1)) b)
              (λ j. c (drop j ss)))
            (map_ok
              (λ (w : HList (us ++ vs) × ℕ). (combine ts (us ++ vs) x w.0, n + w.1))
              (pair us vs b (λ m. c (drop m (drop n ss)))))
    second_assoc x n (ok (y, m)) =
        rw (drop-add n m ss) (third_assoc x n y m (c (drop m (drop n ss))))
    second_assoc x n (err e) = λ i. err e
    second_assoc x n panicked = λ i. panicked

    pair_assoc :
        (a : Found (HList ts)) (b : List (List ℕ) → Found (HList us))
        → Line
            (pair (ts ++ us) vs (pair ts us a (λ n. b (drop n ss))) (λ j. c (drop j ss)))
            (pair ts (us ++ vs) a (λ n. pair us vs (b (drop n ss)) (λ m. c (drop m (drop n ss)))))
    pair_assoc (ok (x, n)) b = second_assoc x n (b (drop n ss))
    pair_assoc (err e) b = λ i. err e
    pair_assoc panicked b = λ i. panicked

-- The two bracketings of a chain of three endpoints denote the same, over the equation between the
-- types of their outputs: the same outputs in the same order, the same error, the same segments taken.
pub denote_assoc :
    (k : Crates) (request : k.Request) {ts us vs : List (Type 0)} (r : Route ts) (q : Route us)
    (p : Route vs) (ss : List (List ℕ))
    → PathP
        (λ i. Found (HList (types_assoc ts us vs i)))
        (denote k request (both (both r q) p) ss)
        (denote k request (both r (both q p)) ss)
unfolding denote
denote_assoc k request {ts} {us} {vs} r q p ss =
    pair_assoc ts us vs ss (denote k request p) (denote k request r ss) (denote k request q)
