-- ===== src/Syntax/PathLiteral/Extraction.antt =====
-- finchers-macros/src/lib.rs: the generated `extract` against a matching of the list of segments.
use finch_router.Prelude.{
  ℕ, ◌≡◌, refl, inl, inr, List, [], ◌∷◌, Outcome, ok, err, panicked, bytes_eq, if◌then◌else◌, arith,
}
use finch_router.Common.{HList}
use finch_router.Crates.{Crates}
use finch_router.Error.{Error}
use finch_router.Context.{PreflightContext, path_of}
use finch_router.Cursor.Split.{split}
use finch_router.Cursor.Walk.{next_segment-cases}
use finch_router.Action.{map_ok}
use finch_router.Syntax.{next, not_matched_error}
use finch_router.Syntax.Matching.{StandsAt}
use finch_router.Syntax.PathLiteral.{
  Component, static, single_param, catch_all_param, output_types, utf8, extract,
}

abbrev pub NoCatchAll : {Ty : Type 0} → List (Component Ty) → Type 0
NoCatchAll [] = Unit
NoCatchAll (static _ ∷ cs) = NoCatchAll cs
NoCatchAll (single_param _ ∷ cs) = NoCatchAll cs
NoCatchAll (catch_all_param _ ∷ cs) = ⊥

module _ {Ty : Type 0} {El : Ty → Type 0}
    (from_encoded_str : (ty : Ty) → List ℕ → Outcome Error (El ty)) where
  -- Matching of components against the segments of a path, one by one.
  unfoldable pub match_segments :
      (cs : List (Component Ty)) → List (List ℕ) → Outcome Error (HList (output_types El cs))
  match_segments [] ss = ok tt
  match_segments (static s ∷ cs) (t ∷ ss) =
      if bytes_eq t (utf8 s) then match_segments cs ss else err not_matched_error
  match_segments (single_param ty ∷ cs) (t ∷ ss) = elim (from_encoded_str ty t) [
    | ok x ↦ map_ok (λ xs. (x, xs)) (match_segments cs ss)
    | err e ↦ err e
    | panicked ↦ panicked
  ]
  match_segments (catch_all_param ty ∷ cs) ss = panicked
  match_segments (_ ∷ cs) [] = err not_matched_error

  module _ {k : Crates} where
    -- Without a catch-all component, in a context that stands at a rest of the path, the generated
    -- function extracts what matching the segments of that rest gives, with the same error where
    -- that fails.
    pub extract-eq-match_segments :
        (cs : List (Component Ty)) (cx : PreflightContext k) (rest : List ℕ)
        → NoCatchAll cs
        → StandsAt cx rest
        → (extract from_encoded_str cs cx).0 ≡ match_segments cs (split rest)
    unfolding extract match_segments next
    extract-eq-match_segments [] cx rest n at = refl
    extract-eq-match_segments (static s ∷ cs) cx rest n at =
        elim (next_segment-cases (path_of cx) cx.cursor rest at) [
          | inl (e, f) ↦ ground (arith, e, f)
          | inr p ↦ ground (
            arith,
            p.step,
            p.segments,
            extract-eq-match_segments cs (record cx { cursor = p.cursor }) p.later n p.at,
          )
        ]
    extract-eq-match_segments (single_param ty ∷ cs) cx rest n at =
        elim (next_segment-cases (path_of cx) cx.cursor rest at) [
          | inl (e, f) ↦ ground (arith, e, f)
          | inr p ↦ ground (
            arith,
            p.step,
            p.segments,
            extract-eq-match_segments cs (record cx { cursor = p.cursor }) p.later n p.at,
          )
        ]
    extract-eq-match_segments (catch_all_param ty ∷ cs) cx rest n at = absurd n
