-- ===== src/Syntax/Matching.antt =====
-- src/endpoint/syntax.rs: what the path endpoints match, in terms of the segments of the rest of
-- the path. A context stands at a rest if its cursor is inside the path, with that rest behind it.
use finch_router.Prelude.{
  ℕ, suc, ◌≡◌, ◌↔◌, inl, inr, List, [], ◌∷◌, some, ok, length, suffix?, length-suffix?,
  bytes_eq_iff, arith,
}
use finch_router.Common.{one}
use finch_router.Crates.{Crates}
use finch_router.Context.{PreflightContext, path_of}
use finch_router.Cursor.{remaining_path}
use finch_router.Cursor.Split.{split}
use finch_router.Cursor.Walk.{next_segment-cases, collect-eq-split, at_end}
use finch_router.Action.{map_ok}
use finch_router.Syntax.{
  FromEncodedStr, next, count, segment_preflight, eos_preflight, remains_preflight,
}

module _ {k : Crates} where
  abbrev pub StandsAt : PreflightContext k → List ℕ → Type 0
  StandsAt cx rest = suffix? cx.cursor.pos (path_of cx) ≡ some rest

  module _ (cx : PreflightContext k) (rest : List ℕ) (at : StandsAt cx rest) where
    segment_matches_iff :
        (encoded : List ℕ)
        → ((segment_preflight encoded cx).0 ≡ ok tt)
          ↔ ((later : List (List ℕ)) × (split rest ≡ encoded ∷ later))
    unfolding segment_preflight next
    segment_matches_iff encoded = elim (next_segment-cases (path_of cx) cx.cursor rest at) [
      | inl (e, f) ↦ (λ h. ground (arith, f), λ (ss, q). ground (arith, e, q))
      | inr p ↦ (
        λ h. (split p.later, ground (arith, p.step, p.segments, h, bytes_eq_iff p.segment encoded)),
        λ (ss, q). ground (arith, p.step, p.segments, q, bytes_eq_iff p.segment encoded),
      )
    ]

    eos_matches_iff : ((eos_preflight tt cx).0 ≡ ok tt) ↔ (split rest ≡ [])
    unfolding eos_preflight next
    eos_matches_iff = elim (next_segment-cases (path_of cx) cx.cursor rest at) [
      | inl (e, f) ↦ (λ h. e, λ h. ground (arith, f))
      | inr p ↦ (λ h. ground (arith, p.step), λ h. ground (arith, p.segments))
    ]

    pub count_lem : count cx ≡ (ok tt, record cx { cursor = at_end (path_of cx) cx.cursor rest })
    unfolding count
    count_lem = ground (
      arith,
      collect-eq-split (path_of cx) (suc (length (path_of cx))) cx.cursor rest at
          (omega (arith, length-suffix? cx.cursor.pos (path_of cx) at)),
    )

    pub remains_lem :
        {T : Type 0} (from_encoded_str : FromEncodedStr T)
        → remains_preflight from_encoded_str tt cx ≡ (
          map_ok one (from_encoded_str rest),
          record cx { cursor = at_end (path_of cx) cx.cursor rest },
        )
    unfolding remains_preflight remaining_path
    remains_lem from_encoded_str = ground (arith, at, count_lem)

    -- In a context that stands at a rest, `segment` matches exactly where the first segment of the
    -- rest is its encoded text, `eos` matches exactly where no segment is left, and `remains`
    -- converts the whole rest and leaves the cursor at the end of the path with every segment popped,
    -- whatever the conversion returns.
    leaves_lem :
        {T : Type 0} (encoded : List ℕ) (from_encoded_str : FromEncodedStr T)
        → (((segment_preflight encoded cx).0 ≡ ok tt)
            ↔ ((later : List (List ℕ)) × (split rest ≡ encoded ∷ later)))
          × (((eos_preflight tt cx).0 ≡ ok tt) ↔ (split rest ≡ []))
          × (remains_preflight from_encoded_str tt cx ≡ (
            map_ok one (from_encoded_str rest),
            record cx { cursor = at_end (path_of cx) cx.cursor rest },
          ))
    leaves_lem encoded from_encoded_str =
        (segment_matches_iff encoded, eos_matches_iff, remains_lem from_encoded_str)
