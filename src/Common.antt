-- ===== src/Common.antt =====
-- src/common/hlist.rs and src/common/combine.rs: the heterogeneous lists behind the outputs of
-- endpoints. A Rust tuple and its `HList` hold the same items, and `hlist` and `tuple` convert
-- between them item by item; here both are the nested pairs of the `HList`.
pub mod Func
use finch_router.Prelude.{List, [], ◌∷◌, ◌++◌}

-- `HNil` and `HCons`, by the list of the item types
abbrev pub HList : List (Type 0) → Type 0
HList [] = Unit
HList (t ∷ ts) = t × HList ts

-- the output `(T,)` of an endpoint
abbrev pub One : Type 0 → Type 0
One t = HList (t ∷ [])

abbrev pub one : {t : Type 0} → t → One t
one x = (x, tt)

-- `CombineList::combine`, and `Combine::combine` on the tuples
unfoldable pub combine : (ts us : List (Type 0)) → HList ts → HList us → HList (ts ++ us)
combine [] us _ other = other
combine (t ∷ ts) us (head, tail) other = (head, combine ts us tail other)
