-- ===== src/Cursor.antt =====
-- src/action.rs: `Cursor`, which walks over the segments of the request's path.
-- The path is its bytes; 47 is the slash. A slice `path[pos..]` past the end of the path panics.
pub mod Walk
pub mod Split
pub mod Bounds
use finch_router.Prelude.{
  ℕ, zero, suc, ◌+◌, List, [], ◌∷◌, Option, none, some, Outcome, ok, err, panicked, Bool, length,
  take, suffix?, ◌==◌, if◌then◌else◌,
}
use finch_router.Error.{Error}
use finch_router.Context.{CursorInner}

abbrev pub slash : ℕ
slash = 47

-- `find('/')`
unfoldable pub find_slash : List ℕ → Option ℕ
find_slash [] = none
find_slash (c ∷ s) =
    if c == slash
    then some 0
    else elim (find_slash s) [ none ↦ none | some offset ↦ some (suc offset) ]

-- The two branches of `next_segment` behind its first test, on the slice `path[pos..]`.
cut_segment : List ℕ → List ℕ → CursorInner → List ℕ × CursorInner
cut_segment path rest c = elim (find_slash rest) [
  | some offset ↦ (take offset rest, record { pos = c.pos + offset + 1; popped = c.popped + 1 })
  | none ↦ (rest, record { pos = length path; popped = c.popped + 1 })
]

-- `Cursor::next_segment`, which is also `Iterator::next`
unfoldable pub next_segment : List ℕ → CursorInner → Outcome Error (Option (List ℕ)) × CursorInner
unfolding cut_segment
next_segment path c = if c.pos == length path then (ok none, c) else elim (suffix? c.pos path) [
  | none ↦ (panicked, c)
  | some rest ↦ let (s, c') = cut_segment path rest c in (ok (some s), c')
]

-- `Cursor::remaining_path`
unfoldable pub remaining_path : List ℕ → CursorInner → Outcome Error (List ℕ)
remaining_path path c = elim (suffix? c.pos path) [ none ↦ panicked | some rest ↦ ok rest ]

-- `Iterator::collect` on the cursor: `next` until it returns `None`. `Iterator::count` makes the
-- same calls. The fuel bounds the calls of `next`; where it runs out the result is `none`.
abbrev Collected : Type 0
Collected = Option (Outcome Error (List (List ℕ)) × CursorInner)

prepend : List ℕ → Collected → Collected
prepend s none = none
prepend s (some (ok ss, c)) = some (ok (s ∷ ss), c)
prepend s (some (err e, c)) = some (err e, c)
prepend s (some (panicked, c)) = some (panicked, c)

unfoldable pub collect : ℕ → List ℕ → CursorInner → Collected
unfolding prepend
collect zero path c = none
collect (suc fuel) path c =
    let (r, c') = next_segment path c in
    elim r [
      | ok none ↦ some (ok [], c')
      | ok (some s) ↦ prepend s (collect fuel path c')
      | err e ↦ some (err e, c')
      | panicked ↦ some (panicked, c')
    ]
