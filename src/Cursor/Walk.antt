-- ===== src/Cursor/Walk.antt =====
-- src/action.rs: what walking with the cursor yields, in terms of the segments of the path.
-- A cursor that stands at `pos` is described by the rest of its path, `suffix? c.pos path`.
use native.Mathlib.Nat.{add_assoc}
use finch_router.Prelude.{
  ℕ, zero, suc, ◌+◌, ◌<◌, ◌≡◌, refl, ◌∙◌, ◌⊎◌, inl, inr, false, List, [], ◌∷◌, none, some, ok,
  length, suffix?, suffix?-add, suffix?-length, length-suffix?, ◌==◌, Option-cases, arith,
}
use finch_router.Context.{CursorInner}
use finch_router.Cursor.{find_slash, next_segment, collect, prepend}
use finch_router.Cursor.Split.{
  split, split_one, find_slash-none, find_slash-some, Division, take-Division, suffix?-Division,
  split-Division, length-Division,
}

-- At the end of the path the cursor yields nothing and stays.
pub next_segment_end :
    (path : List ℕ) (c : CursorInner) → c.pos ≡ length path → next_segment path c ≡ (ok none, c)
unfolding next_segment
next_segment_end path c h = ground arith

module _ (path : List ℕ) (c : CursorInner) (x : ℕ) (rest : List ℕ)
    (at : suffix? c.pos path ≡ some (x ∷ rest)) where
  pos-ne-length : (c.pos == length path) ≡ false
  pos-ne-length = ground (arith, length-suffix? c.pos path at)

  next_segment_last :
      find_slash (x ∷ rest) ≡ none
      → next_segment path c
        ≡ (ok (some (x ∷ rest)), record { pos = length path; popped = c.popped + 1 })
  unfolding next_segment
  next_segment_last f = ground (arith, pos-ne-length, at)

  next_segment_cut :
      (offset : ℕ) (d : Division (x ∷ rest) offset)
      → find_slash (x ∷ rest) ≡ some offset
      → next_segment path c
        ≡ (ok (some d.segment), record { pos = c.pos + offset + 1; popped = c.popped + 1 })
  unfolding next_segment
  next_segment_cut offset d f = ground (arith, pos-ne-length, at, take-Division d)

  suffix?_cut :
      (offset : ℕ) (d : Division (x ∷ rest) offset)
      → suffix? (c.pos + offset + 1) path ≡ some d.rest
  suffix?_cut offset d =
      rw (add_assoc c.pos offset 1) (suffix?-add c.pos path (offset + 1) at ∙ suffix?-Division d)

-- How the collected segments begin, from what the first call of `next` and the rest give.
collect-next :
    (fuel : ℕ) (path : List ℕ) (c c' : CursorInner) (s : List ℕ) (ss : List (List ℕ))
    (last : CursorInner)
    → next_segment path c ≡ (ok (some s), c')
    → collect fuel path c' ≡ some (ok ss, last)
    → collect (suc fuel) path c ≡ some (ok (s ∷ ss), last)
unfolding collect prepend
collect-next fuel path c c' s ss last e f = ground (arith, e, f)

module _ (path : List ℕ) where
  abbrev pub at_end : CursorInner → List ℕ → CursorInner
  at_end c rest = record { pos = length path; popped = c.popped + length (split rest) }

  collect_end :
      (fuel : ℕ) (c : CursorInner)
      → 0 < fuel
      → c.pos ≡ length path
      → collect fuel path c ≡ some (ok [], c)
  unfolding collect
  collect_end zero c h e = elim h [ ]
  collect_end (suc fuel) c h e = ground (arith, next_segment_end path c e)

  at_end-cons :
      (c : CursorInner) (offset : ℕ) (s : List ℕ) (rest whole : List ℕ)
      → split whole ≡ s ∷ split rest
      → at_end (record { pos = c.pos + offset + 1; popped = c.popped + 1 }) rest ≡ at_end c whole
  at_end-cons c offset s rest whole e = rw e (ground arith)

  -- Where a cursor stands inside the path, and there is more fuel than there are bytes in the rest,
  -- collecting its segments ends with the segments of that rest in order, at the end of the path,
  -- and counts every one of them as popped.
  pub collect-eq-split :
      (fuel : ℕ) (c : CursorInner) (rest : List ℕ)
      → suffix? c.pos path ≡ some rest
      → length rest < fuel
      → collect fuel path c ≡ some (ok (split rest), at_end c rest)
  collect-eq-split zero c rest at h = elim h [ ]
  collect-eq-split (suc fuel) c [] at h =
      let e : c.pos ≡ length path = omega (arith, length-suffix? c.pos path at) in
      collect_end (suc fuel) c (omega arith) e ∙ unfold split in ground arith
  collect-eq-split (suc fuel) c (x ∷ rest) at h = elim (Option-cases (find_slash (x ∷ rest))) [
    | inl f ↦ rw (split_one x rest (find_slash-none _ f)) (
        collect-next fuel path c _ _ _ _ (next_segment_last path c x rest at f)
          (collect_end fuel _ (omega arith) refl))
    | inr (offset, f) ↦
        let d = find_slash-some (x ∷ rest) offset f in
        let moved : CursorInner = record { pos = c.pos + offset + 1; popped = c.popped + 1 } in
        let shorter : length d.rest < fuel = omega (arith, length-Division d) in
        let later =
          collect-eq-split fuel moved d.rest (suffix?_cut path c x rest at offset d) shorter in
        collect-next fuel path c _ _ _ _ (next_segment_cut path c x rest at offset d f) later
        ∙ cc (split-Division d, at_end-cons c offset d.segment d.rest _ (split-Division d))
  ]

-- One call of `next` that yields a segment, and where the cursor stands after it.
pub record Popped (path : List ℕ) (c : CursorInner) (rest : List ℕ) : Type 0 where
  pub segment : List ℕ
  pub cursor : CursorInner
  pub later : List ℕ
  pub step : next_segment path c ≡ (ok (some segment), cursor)
  pub at : suffix? cursor.pos path ≡ some later
  pub segments : split rest ≡ segment ∷ split later
  pub counted : cursor.popped ≡ c.popped + 1
  pub moved : c.pos < cursor.pos

module _ (path : List ℕ) (c : CursorInner) where
  Popped-cons : (x : ℕ) (r : List ℕ) → suffix? c.pos path ≡ some (x ∷ r) → Popped path c (x ∷ r)
  Popped-cons x r at = elim (Option-cases (find_slash (x ∷ r))) [
    | inl f ↦ record {
      segment = x ∷ r;
      cursor = record { pos = length path; popped = c.popped + 1 };
      later = [];
      step = next_segment_last path c x r at f;
      at = suffix?-length path;
      segments = split_one x r (find_slash-none _ f) ∙ unfold split in refl;
      counted = refl;
      moved = omega (arith, length-suffix? c.pos path at);
    }
    | inr (offset, f) ↦
        let d = find_slash-some (x ∷ r) offset f in
        record {
          segment = d.segment;
          cursor = record { pos = c.pos + offset + 1; popped = c.popped + 1 };
          later = d.rest;
          step = next_segment_cut path c x r at offset d f;
          at = suffix?_cut path c x r at offset d;
          segments = split-Division d;
          counted = refl;
          moved = omega arith;
        }
  ]

  -- A cursor inside the path either is at its end or pops the first segment of the rest.
  pub next_segment-cases :
      (rest : List ℕ)
      → suffix? c.pos path ≡ some rest
      → ((split rest ≡ []) × (next_segment path c ≡ (ok none, c))) ⊎ Popped path c rest
  next_segment-cases [] at =
      inl (
        unfold split in refl,
        next_segment_end path c (omega (arith, length-suffix? c.pos path at)),
      )
  next_segment-cases (x ∷ r) at = inr (Popped-cons x r at)
