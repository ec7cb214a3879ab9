-- ===== src/Cursor/Bounds.antt =====
-- src/action.rs: where the cursor stands, and the slices that it takes of the path.
use finch_router.Prelude.{
  ℕ, zero, suc, ◌+◌, ◌≤◌, ◌<◌, ◌≡◌, refl, ◌⊎◌, inl, inr, List, [], ◌∷◌, none, some, ok, length,
  suffix?, length-suffix?, arith,
}
use finch_router.Context.{CursorInner}
use finch_router.Cursor.{next_segment}
use finch_router.Cursor.Walk.{next_segment-cases}

-- the position is inside the path, or at its end
abbrev pub IsInside : List ℕ → CursorInner → Type 0
IsInside path c = c.pos ≤ length path

pub suffix?-some :
    (n : ℕ) (path : List ℕ) → n ≤ length path → (rest : List ℕ) × (suffix? n path ≡ some rest)
suffix?-some zero path h = (path, refl)
suffix?-some (suc n) [] h = absurd (omega arith)
suffix?-some (suc n) (x ∷ path) h = suffix?-some n path (omega arith)

module _ (path : List ℕ) (c : CursorInner) where
  -- From a position inside the path, a call of `next` does not panic and leaves the position inside.
  -- It yields nothing and does not move, or it yields a segment, moves on and counts one more.
  pub next_segment-IsInside :
      IsInside path c
      → let (r, c') = next_segment path c in
        IsInside path c'
        × (((r ≡ ok none) × (c' ≡ c))
            ⊎ ((s : List ℕ) × (r ≡ ok (some s)) × (c.pos < c'.pos) × (c'.popped ≡ c.popped + 1)))
  next_segment-IsInside h =
      let (rest, at) = suffix?-some c.pos path h in
      elim (next_segment-cases path c rest at) [
        | inl (e, f) ↦ ground (arith, f)
        | inr p ↦ ground (arith, p.step, p.counted, p.moved, length-suffix? p.cursor.pos path p.at)
      ]
