-- ===== src/Routing/Refinement.antt =====
-- src/endpoint, src/service.rs: an endpoint gives what it denotes.
use mathlib.Core.Path.{transport}
use finch_router.Prelude.{
  ℕ, ◌≡◌, refl, List, none, Outcome, ok, err, drop, arith, length, Outcome-cases, Bool-cases, inl,
  inr,
}
use finch_router.Common.{HList, one, combine}
use finch_router.Crates.{Crates, Method}
use finch_router.Error.{Error, method_not_allowed}
use finch_router.Context.{PreflightContext, path_of}
use finch_router.Action as Action
use finch_router.Action.{completed, oneshot_preflight, map_ok, Endpoint}
use finch_router.Cursor.Split.{split}
use finch_router.Cursor.Walk.{next_segment-cases}
use finch_router.Syntax.{FromEncodedStr, next, segment_preflight, eos_preflight, param_preflight}
use finch_router.Syntax.Matching.{StandsAt}
use finch_router.Syntax.Verb.{Verbs, method_eq, contains, verb_preflight, verbs_preflight}
use finch_router.Syntax.PathLiteral.{Component, output_types, path_preflight}
use finch_router.Syntax.PathLiteral.Extraction.{
  NoCatchAll, match_segments, extract-eq-match_segments,
}
use finch_router.Routing.Literals.{extract-Behind}
use finch_router.Routing.{
  Route, nothing, constant, literal, ending, parameter, method_is, method_among, components, both,
  better, first, mapped, renamed, compile, denote,
}
use finch_router.Routing.Meeting.{Delivers, Meets, still-Meets, segment-Meets}
use finch_router.Routing.Combining.{both-Meets, mapped-Meets, renamed-Meets}
use finch_router.Routing.Choosing.{better-Meets, first-Meets}

module _ (k : Crates) (Bd : Type 0) where
  abbrev Refines : {ts : List (Type 0)} → Route ts → PreflightContext k → List ℕ → Type 0
  Refines r cx rest =
      let e = compile k Bd r in
      Meets e.behaviour e.action cx (split rest) (denote k cx.context.request r (split rest))

  literal-Refines :
      (text : List ℕ) (cx : PreflightContext k) (rest : List ℕ)
      → StandsAt cx rest
      → Refines (literal text) cx rest
  unfolding compile denote segment_preflight
  literal-Refines text cx rest at =
      segment-Meets Bd segment_preflight (k.percent_encode text) cx rest _ (λ e. ground (arith, e))
        (λ s after e. ground (arith, e)) at

  ending-Refines :
      (cx : PreflightContext k) (rest : List ℕ) → StandsAt cx rest → Refines ending cx rest
  unfolding compile denote eos_preflight next
  ending-Refines cx rest at = elim (next_segment-cases (path_of cx) cx.cursor rest at) [
    | inl (e, stays) ↦
        let still : Meets _ _ cx (split rest) (map_ok (λ x. (x, 0)) (ok tt)) =
          still-Meets Bd eos_preflight tt cx {rest = rest} (ok tt) at (ground (arith, stays)) in
        rw e (rw e at still)
    | inr p ↦ rw p.segments (ground (arith, p.step))
  ]

  parameter-Refines :
      {t : Type 0} (f : FromEncodedStr t) (cx : PreflightContext k) (rest : List ℕ)
      → StandsAt cx rest
      → Refines (parameter f) cx rest
  unfolding compile denote param_preflight
  parameter-Refines f cx rest at =
      segment-Meets Bd (param_preflight f) tt cx rest _ (λ e. ground (arith, e))
        (λ s after e. ground (arith, e)) at

  method_is-Refines :
      (m : Method) (cx : PreflightContext k) (rest : List ℕ)
      → StandsAt cx rest
      → Refines (method_is m) cx rest
  unfolding compile denote verb_preflight
  method_is-Refines m cx rest at =
      let leaf = still-Meets Bd (verb_preflight m) tt cx {rest = rest} in
      elim (Bool-cases (method_eq (k.method cx.context.request) m)) [
        | inl e ↦ rw e (leaf (ok tt) at (ground (arith, e)))
        | inr e ↦ rw e (leaf (err (method_not_allowed "invalid method")) at (ground (arith, e)))
      ]

  method_among-Refines :
      (v : Verbs) (cx : PreflightContext k) (rest : List ℕ)
      → StandsAt cx rest
      → Refines (method_among v) cx rest
  unfolding compile denote verbs_preflight
  method_among-Refines v cx rest at =
      let leaf = still-Meets Bd verbs_preflight v cx {rest = rest} in
      elim (Bool-cases (contains v (k.method cx.context.request))) [
        | inl e ↦ rw e (leaf (ok tt) at (ground (arith, e)))
        | inr e ↦ rw e (leaf (err (method_not_allowed "invalid method")) at (ground (arith, e)))
      ]

  module _ {Ty : Type 0} {El : Ty → Type 0} (f : (ty : Ty) → List ℕ → Outcome Error (El ty))
      (cs : List (Component Ty)) (n : NoCatchAll cs) (cx : PreflightContext k) (rest : List ℕ)
      (at : StandsAt cx rest) where
    components-Delivers :
        (x : HList (output_types El cs))
        → match_segments f cs (split rest) ≡ ok x
        → let e = compile k Bd (components f cs n) in
          Delivers e.behaviour e.action cx (split rest) x (length cs)
    unfolding compile path_preflight oneshot_preflight
    components-Delivers x e =
        let (after, extracted, behind) = extract-Behind f cs cx rest x n at e in
        record {
          result = completed x;
          left = none;
          after = after;
          rest = behind.later;
          checked = ground (arith, extracted);
          promised = refl;
          at = behind.at;
          segments = behind.segments;
          counted = behind.counted;
          kept = behind.kept;
        }

    components-Refines : Refines (components f cs n) cx rest
    unfolding compile denote path_preflight oneshot_preflight
    components-Refines = elim (Outcome-cases (match_segments f cs (split rest))) [
      | inl (x, e) ↦ rw e (components-Delivers x e)
      | inr (inl (y, e)) ↦ rw e (ground (arith, e, extract-eq-match_segments f cs cx rest n at))
      | inr (inr e) ↦ rw e (ground (arith, e, extract-eq-match_segments f cs cx rest n at))
    ]

  -- In a context that stands at a rest of the path, an endpoint gives what it denotes on the segments
  -- of that rest.
  pub compile-Refines :
      {ts : List (Type 0)} (r : Route ts) (cx : PreflightContext k) (rest : List ℕ)
      → StandsAt cx rest
      → Refines r cx rest
  unfolding compile denote Action.unit Action.value
  compile-Refines nothing cx rest at = still-Meets Bd (λ _ cx. (ok tt, cx)) tt cx (ok tt) at refl
  compile-Refines (constant x) cx rest at =
      still-Meets Bd (λ x cx. (ok (one x), cx)) x cx (ok (one x)) at refl
  compile-Refines (literal text) cx rest at = literal-Refines text cx rest at
  compile-Refines ending cx rest at = ending-Refines cx rest at
  compile-Refines (parameter f) cx rest at = parameter-Refines f cx rest at
  compile-Refines (method_is m) cx rest at = method_is-Refines m cx rest at
  compile-Refines (method_among v) cx rest at = method_among-Refines v cx rest at
  compile-Refines (components f cs n) cx rest at = components-Refines f cs n cx rest at
  compile-Refines (both {ts} {us} r q) cx rest at =
      both-Meets (combine ts us) (compile k Bd r).behaviour (compile k Bd q).behaviour
        (compile k Bd r).action (compile k Bd q).action cx (split rest)
        (denote k cx.context.request r (split rest))
        (λ n. denote k cx.context.request q (drop n (split rest))) (compile-Refines r cx rest at)
        (λ x n d.
          transport
            (λ i.
              Meets (compile k Bd q).behaviour (compile k Bd q).action d.after (d.segments i)
                (denote k (d.kept i).request q (d.segments i)))
            (compile-Refines q d.after d.rest d.at))
  compile-Refines (better r q) cx rest at =
      better-Meets (compile k Bd r).behaviour (compile k Bd q).behaviour (compile k Bd r).action
        (compile k Bd q).action cx (split rest) _ _ (compile-Refines r cx rest at)
        (compile-Refines q cx rest at)
  compile-Refines (first r q) cx rest at =
      first-Meets (compile k Bd r).behaviour (compile k Bd q).behaviour (compile k Bd r).action
        (compile k Bd q).action cx (split rest) _ _ (compile-Refines r cx rest at)
        (compile-Refines q cx rest at)
  compile-Refines (mapped f r) cx rest at =
      mapped-Meets (compile k Bd r).behaviour (compile k Bd r).action cx (split rest) f _
        (compile-Refines r cx rest at)
  compile-Refines (renamed f r) cx rest at =
      renamed-Meets (compile k Bd r).behaviour (compile k Bd r).action cx (split rest) f _
        (compile-Refines r cx rest at)
