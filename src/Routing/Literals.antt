-- ===== src/Routing/Literals.antt =====
-- finchers-macros/src/lib.rs: where the generated `extract` leaves the cursor.
use finch_router.Prelude.{
  ℕ, suc, ◌+◌, ◌≡◌, refl, List, [], ◌∷◌, Outcome, Outcome-cases, ok, drop, length, inl, inr, arith,
}
use finch_router.Common.{HList}
use finch_router.Crates.{Crates}
use finch_router.Error.{Error}
use finch_router.Context.{PreflightContext, path_of}
use finch_router.Cursor.Split.{split}
use finch_router.Cursor.Walk.{next_segment-cases, Popped}
use finch_router.Syntax.{next}
use finch_router.Syntax.Matching.{StandsAt}
use finch_router.Syntax.PathLiteral.{
  Component, static, single_param, catch_all_param, output_types, extract,
}
use finch_router.Syntax.PathLiteral.Extraction.{NoCatchAll, match_segments}

module _ {k : Crates} where
  -- Where a call leaves the context: behind so many of the segments of the rest.
  pub record Behind (cx : PreflightContext k) (rest : List ℕ) (n : ℕ) (after : PreflightContext k)
      : Type 0 where
    pub later : List ℕ
    pub at : StandsAt after later
    pub segments : split later ≡ drop n (split rest)
    pub counted : after.cursor.popped ≡ cx.cursor.popped + n
    pub kept : after.context ≡ cx.context

  Behind-Popped :
      (cx : PreflightContext k) (rest : List ℕ) (n : ℕ) (after : PreflightContext k)
      (p : Popped (path_of cx) cx.cursor rest)
      → Behind (record cx { cursor = p.cursor }) p.later n after
      → Behind cx rest (suc n) after
  Behind-Popped cx rest n after p b = record {
    later = b.later;
    at = b.at;
    segments = ground (arith, b.segments, p.segments);
    counted = omega (arith, b.counted, p.counted);
    kept = b.kept;
  }

  module _ {Ty : Type 0} {El : Ty → Type 0}
      (from_encoded_str : (ty : Ty) → List ℕ → Outcome Error (El ty)) where
    -- Where matching the segments gives values, extracting them gives these, and leaves the context
    -- behind a segment for each component.
    pub extract-Behind :
        (cs : List (Component Ty)) (cx : PreflightContext k) (rest : List ℕ)
        (x : HList (output_types El cs))
        → NoCatchAll cs
        → StandsAt cx rest
        → match_segments from_encoded_str cs (split rest) ≡ ok x
        → (after : PreflightContext k) × (extract from_encoded_str cs cx ≡ (ok x, after))
          × Behind cx rest (length cs) after
    unfolding extract match_segments next
    extract-Behind [] cx rest x n at e = (
      cx,
      ground (arith, e),
      record { later = rest; at = at; segments = refl; counted = omega arith; kept = refl },
    )
    extract-Behind (static s ∷ cs) cx rest x n at e =
        elim (next_segment-cases (path_of cx) cx.cursor rest at) [
          | inl (f, _) ↦ absurd (ground (arith, e, f))
          | inr p ↦
              let moved : PreflightContext k = record cx { cursor = p.cursor } in
              let (after, extracted, behind) =
                extract-Behind cs moved p.later x n p.at (ground (arith, e, p.segments)) in
              (
                after,
                ground (arith, e, p.step, p.segments, extracted),
                Behind-Popped cx rest (length cs) after p behind,
              )
        ]
    extract-Behind (single_param ty ∷ cs) cx rest x n at e =
        elim (next_segment-cases (path_of cx) cx.cursor rest at) [
          | inl (f, _) ↦ absurd (ground (arith, e, f))
          | inr p ↦ elim (Outcome-cases (from_encoded_str ty p.segment)) [
            | inl (y, read) ↦
                elim (Outcome-cases (match_segments from_encoded_str cs (split p.later))) [
                  | inl (ys, matched) ↦
                      let moved : PreflightContext k = record cx { cursor = p.cursor } in
                      let (after, extracted, behind) =
                        extract-Behind cs moved p.later ys n p.at matched in
                      (
                        after,
                        ground (arith, e, p.step, p.segments, extracted, read, matched),
                        Behind-Popped cx rest (length cs) after p behind,
                      )
                  | inr (inl (_, f)) ↦ absurd (ground (arith, e, p.segments, read, f))
                  | inr (inr f) ↦ absurd (ground (arith, e, p.segments, read, f))
                ]
            | inr (inl (_, f)) ↦ absurd (ground (arith, e, p.segments, f))
            | inr (inr f) ↦ absurd (ground (arith, e, p.segments, f))
          ]
        ]
    extract-Behind (catch_all_param ty ∷ cs) cx rest x n at e = absurd n
