-- ===== src/Common/Func.antt =====
-- src/common/func.rs: the functions that `map`, `and_then` and `recover` take, which get the items of a
-- tuple as arguments of their own. A function of no argument is its result.
use finch_router.Prelude.{◌≡◌, refl, List, [], ◌∷◌, ◌++◌}
use finch_router.Common.{HList, combine}

-- the functions of these arguments
abbrev pub Func : List (Type 0) → Type 0 → Type 0
Func [] r = r
Func (t ∷ ts) r = t → Func ts r

-- `Func::call`
unfoldable pub call : (ts : List (Type 0)) {r : Type 0} → Func ts r → HList ts → r
call [] f args = f
call (t ∷ ts) f (head, tail) = call ts (f head) tail

-- a function of the items of two tuples, as one that returns a function
abbrev pub grouped : (ts us : List (Type 0)) (r : Type 0) → Func (ts ++ us) r → Func ts (Func us r)
grouped [] us r f = f
grouped (t ∷ ts) us r f = λ x. grouped ts us r (f x)

-- A call on two tuples joined passes the items of the first, and then those of the second.
pub call-combine :
    (ts us : List (Type 0)) {r : Type 0} (f : Func (ts ++ us) r) (x : HList ts) (y : HList us)
    → call (ts ++ us) f (combine ts us x y) ≡ call us (call ts (grouped ts us r f) x) y
unfolding call combine
call-combine [] us f x y = refl
call-combine (t ∷ ts) us f (head, tail) y = call-combine ts us (f head) tail y
