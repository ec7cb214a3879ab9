-- ===== src/Syntax.antt =====
-- src/endpoint/syntax.rs: the endpoints that match a part of the request's path.
pub mod Encoded
pub mod Verb
pub mod PathLiteral
pub mod Matching
pub mod Inside
use finch_router.Prelude.{
  ℕ, suc, List, Option, none, some, Outcome, ok, err, panicked, length, bytes_eq, if◌then◌else◌,
}
use finch_router.Common.{One, one}
use finch_router.Crates.{Crates}
use finch_router.Error.{Error, not_found}
use finch_router.Context.{PreflightContext, path_of}
use finch_router.Cursor.{next_segment, remaining_path, collect}
use finch_router.Action.{OneshotAction, Endpoint, oneshot_endpoint, map_ok}

abbrev pub not_matched_error : Error
not_matched_error = not_found "not matched"

-- `FromEncodedStr::from_encoded_str` of a type, with its error as an `Error`
abbrev pub FromEncodedStr : Type 0 → Type 0
FromEncodedStr T = List ℕ → Outcome Error T

module _ {k : Crates} where
  -- `cx.cursor().next()`
  unfoldable pub next : PreflightContext k → Outcome Error (Option (List ℕ)) × PreflightContext k
  next cx = let (r, c) = next_segment (path_of cx) cx.cursor in (r, record cx { cursor = c })

  -- `let _ = cx.cursor().count()`; the path has at most as many segments as bytes, so the fuel
  -- is not used up
  unfoldable pub count : PreflightContext k → Outcome Error (Unit {0}) × PreflightContext k
  count cx = elim (collect (suc (length (path_of cx))) (path_of cx) cx.cursor) [
    | none ↦ (panicked, cx)
    | some (r, c) ↦ (map_ok (λ _. tt) r, record cx { cursor = c })
  ]

  -- `MatchSegmentAction::preflight`, of the encoded text
  unfoldable pub segment_preflight : OneshotAction k (List ℕ) (Unit {0})
  segment_preflight encoded cx =
      let (r, cx') = next cx in
      elim r [
        | ok none ↦ (err not_matched_error, cx')
        | ok (some s) ↦ if bytes_eq s encoded then (ok tt, cx') else (err not_matched_error, cx')
        | err e ↦ (err e, cx')
        | panicked ↦ (panicked, cx')
      ]

  -- `MatchEosAction::preflight`
  unfoldable pub eos_preflight : OneshotAction k (Unit {0}) (Unit {0})
  eos_preflight _ cx =
      let (r, cx') = next cx in
      elim r [
        | ok none ↦ (ok tt, cx')
        | ok (some _) ↦ (err not_matched_error, cx')
        | err e ↦ (err e, cx')
        | panicked ↦ (panicked, cx')
      ]

  module _ {T : Type 0} (from_encoded_str : FromEncodedStr T) where
    -- `ParamAction::preflight`
    unfoldable pub param_preflight : OneshotAction k (Unit {0}) (One T)
    param_preflight _ cx =
        let (r, cx') = next cx in
        elim r [
          | ok none ↦ (err not_matched_error, cx')
          | ok (some s) ↦ (map_ok one (from_encoded_str s), cx')
          | err e ↦ (err e, cx')
          | panicked ↦ (panicked, cx')
        ]

    -- `RemainsAction::preflight`; the cursor moves to the end also where the conversion fails
    unfoldable pub remains_preflight : OneshotAction k (Unit {0}) (One T)
    remains_preflight _ cx = elim (remaining_path (path_of cx) cx.cursor) [
      | ok s ↦
          let (r, cx') = count cx in
          elim r [
            | ok _ ↦ (map_ok one (from_encoded_str s), cx')
            | err e ↦ (err e, cx')
            | panicked ↦ (panicked, cx')
          ]
      | err e ↦ (err e, cx)
      | panicked ↦ (panicked, cx)
    ]

module _ {k : Crates} {Bd : Type 0} where
  -- `segment`: the text is percent-encoded once, when the endpoint is made. Its `debug_assert!` that
  -- the text is not empty is of builds with assertions, in which an empty one makes no endpoint.
  unfoldable pub segment : List ℕ → Endpoint k Bd (Option (List ℕ)) (Unit {0})
  unfolding segment_preflight oneshot_endpoint
  segment s = oneshot_endpoint segment_preflight (k.percent_encode s)

  unfoldable pub eos : Endpoint k Bd (Option (Unit {0})) (Unit {0})
  unfolding eos_preflight oneshot_endpoint
  eos = oneshot_endpoint eos_preflight tt

  unfoldable pub param : {T : Type 0} → FromEncodedStr T → Endpoint k Bd (Option (Unit {0})) (One T)
  unfolding param_preflight oneshot_endpoint
  param from_encoded_str = oneshot_endpoint (param_preflight from_encoded_str) tt

  unfoldable pub remains :
      {T : Type 0} → FromEncodedStr T → Endpoint k Bd (Option (Unit {0})) (One T)
  unfolding remains_preflight oneshot_endpoint
  remains from_encoded_str = oneshot_endpoint (remains_preflight from_encoded_str) tt
