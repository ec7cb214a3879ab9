-- ===== src/Tests/Inside.antt =====
-- The cursor at the start of `/a/bc`, under the path endpoints.
use finch_router.Prelude.{ℕ, ◌<◌, ◌≡◌, ◌⊎◌, List, [], ◌∷◌, none, some, ok, arith}
use finch_router.Context.{CursorInner}
use finch_router.Cursor.{next_segment}
use finch_router.Cursor.Bounds.{IsInside, next_segment-IsInside}
use finch_router.Syntax.{
  segment_preflight, eos_preflight, param_preflight, remains_preflight, FromEncodedStr,
}
use finch_router.Syntax.Inside.{StaysInside, leaves-Inside}
use finch_router.Tests.{a_bc, get_a_bc}

abbrev first_segment : CursorInner
first_segment = record { pos = 1; popped = 0 }

next_segment-IsInside_example :
    let (r, c') = next_segment a_bc first_segment in
    IsInside a_bc c'
    × (((r ≡ ok none) × (c' ≡ first_segment))
        ⊎ ((s : List ℕ) × (r ≡ ok (some s)) × (1 < c'.pos) × (c'.popped ≡ 1)))
next_segment-IsInside_example = next_segment-IsInside a_bc first_segment (omega arith)

abbrev as_it_is : FromEncodedStr (List ℕ)
as_it_is s = ok s

leaves-Inside_example :
    StaysInside get_a_bc (segment_preflight (97 ∷ []) get_a_bc)
    × StaysInside get_a_bc (eos_preflight tt get_a_bc)
    × StaysInside get_a_bc (param_preflight as_it_is tt get_a_bc)
    × StaysInside get_a_bc (remains_preflight as_it_is tt get_a_bc)
leaves-Inside_example = leaves-Inside get_a_bc (omega arith) (97 ∷ []) as_it_is (λ s. cc)
