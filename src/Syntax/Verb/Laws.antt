-- ===== src/Syntax/Verb/Laws.antt =====
-- src/endpoint/syntax/verb.rs: what the sets of methods hold, and what iterating over one yields.
use mathlib.Core.Option
use finch_router.Prelude.{
  ℕ, zero, suc, ◌<◌, ◌≡◌, refl, Bool, true, false, ◌&&◌, Option, none, some, List, [], ◌∷◌,
  if◌then◌else◌, arith, map, bytes_eq, bytes_eq_iff, Option-cases, Bool-cases, inl, inr,
}
use finch_router.Crates.{
  Crates, Method, get, post, put, delete, head, options, connect, patch, extension,
}
use finch_router.Context.{PreflightContext}
use finch_router.Syntax.Verb.{
  Verbs, single, contains, method_eq, bit, into_iter, collect_verbs, verbs_preflight,
  verb_preflight,
}

-- The set that `single` makes of a method, where it makes one, contains that method and no other.
contains-single : (m n : Method) (v : Verbs) → single m ≡ some v → contains v n ≡ method_eq n m
unfolding single contains method_eq
contains-single (extension _) n v h = cc
contains-single get (extension _) v h = ground arith
contains-single get get v h = ground arith
contains-single get _ v h = ground arith
contains-single m (extension _) v h = ground arith
contains-single m get v h = ground arith
contains-single m n v h = ground arith

-- Where `single` makes a set of a method, the endpoint of that verb checks as the endpoint of the set of that verb alone.
verb-eq-verbs_single :
    {k : Crates} (m : Method) (v : Verbs) (cx : PreflightContext k)
    → single m ≡ some v
    → verb_preflight m tt cx ≡ verbs_preflight v cx
unfolding verb_preflight verbs_preflight
verb-eq-verbs_single {k} m v cx h =
    ground (arith, contains-single m (k.method cx.context.request) v h)

-- The methods of a list that a set contains, in the order of the list.
abbrev pub listed : Verbs → List Method → List Method
listed v [] = []
listed v (m ∷ ms) = let rest = listed v ms in if contains v m then m ∷ rest else rest

abbrev pub all_but_trace : List Method
all_but_trace = get ∷ post ∷ put ∷ delete ∷ head ∷ options ∷ connect ∷ patch ∷ []

abbrev set_of : ℕ → Verbs
set_of bits = record { bits = bits }

-- The methods that an iteration over a set yields, by their bits.
abbrev pub yielded : Verbs → Option (List ℕ)
yielded v = Option.map (map bit) (collect_verbs 10 (into_iter v))

yields_all_but_trace : ℕ → Bool
yields_all_but_trace bits = elim (yielded (set_of bits)) [
  | none ↦ false
  | some ms ↦ bytes_eq ms (map bit (listed (set_of bits) all_but_trace))
]

-- every set whose bits are below a bound
yields_below : ℕ → Bool
yields_below zero = true
yields_below (suc bound) = yields_below bound && yields_all_but_trace bound

yields_below_use :
    (bits bound : ℕ) → bits < bound → yields_below bound ≡ true → yields_all_but_trace bits ≡ true
unfolding yields_below
yields_below_use bits zero lt h = absurd (omega arith)
yields_below_use bits (suc bound) lt h =
    ground (arith, yields_below_use bits bound, Bool-cases (yields_below bound))

yields_table : yields_below 512 ≡ true
unfolding yields_below yields_all_but_trace collect_verbs into_iter contains
yields_table = refl

yields_sound :
    (bits : ℕ)
    → yields_all_but_trace bits ≡ true
    → yielded (set_of bits) ≡ some (map bit (listed (set_of bits) all_but_trace))
unfolding yields_all_but_trace
yields_sound bits h = elim (Option-cases (yielded (set_of bits))) [
  | inl e ↦ ground (arith, e)
  | inr (ms, e) ↦ ground (arith, e, bytes_eq_iff ms (map bit (listed (set_of bits) all_but_trace)))
]

-- An iteration over a set of the nine methods ends, and yields the methods of the set in the order
-- of their bits, with one exception: TRACE is never yielded, whether the set contains it or not.
pub iteration_skips_trace :
    (bits : ℕ)
    → bits < 512
    → yielded (set_of bits) ≡ some (map bit (listed (set_of bits) all_but_trace))
iteration_skips_trace bits h = yields_sound bits (yields_below_use bits 512 h yields_table)
