-- ===== src/Lookup.antt =====
-- src/endpoints/header.rs and src/endpoints/query.rs: endpoints that read a header or the query.
-- `FromHeaderValue::from_header_value` and `serde_qs::from_str` are parameters, with their error as
-- the text that it displays.
pub mod Laws
use Prim.Native.String.{◌++◌ as str_append}
use finch_router.Prelude.{
  ℕ, String, List, Bool, Option, none, some, Outcome, ok, err, panicked, if◌then◌else◌,
}
use finch_router.Common.{One, one}
use finch_router.Crates.{Crates}
use finch_router.Error.{Error, bad_request, not_found}
use finch_router.Action.{OneshotAction}

-- `map_err(error::bad_request)`
abbrev pub or_bad_request : {T : Type 0} → Outcome String T → Outcome Error T
or_bad_request (ok x) = ok x
or_bad_request (err cause) = err (bad_request cause)
or_bad_request panicked = panicked

-- the output `(x,)` or `(Some(x),)` of a result
abbrev pub map_one : {T U : Type 0} → (T → U) → Outcome Error T → Outcome Error (One U)
map_one f (ok x) = ok (one (f x))
map_one f (err e) = err e
map_one f panicked = panicked

module _ {k : Crates} where
  -- `header::RawAction::preflight`; the action is the name of the header
  unfoldable pub raw_header : OneshotAction k String (One (Option k.HeaderValue))
  raw_header name cx = (ok (one (k.header cx.context.request name)), cx)

  module _ {T : Type 0} (from_header_value : k.HeaderValue → Outcome String T) where
    -- `ParseAction::preflight`
    unfoldable pub parse_header : OneshotAction k String (One T)
    parse_header name cx = elim (k.header cx.context.request name) [
      | none ↦ (err (bad_request (str_append "missing header: `" (str_append name "'"))), cx)
      | some h ↦ (map_one (λ x. x) (or_bad_request (from_header_value h)), cx)
    ]

    -- `header::OptionalAction::preflight`
    unfoldable pub optional_header : OneshotAction k String (One (Option T))
    optional_header name cx = elim (k.header cx.context.request name) [
      | none ↦ (ok (one none), cx)
      | some h ↦ (map_one some (or_bad_request (from_header_value h)), cx)
    ]

  -- `MatchesAction::preflight`; `is_value` is the comparison with the expected value
  unfoldable pub matches_header : (k.HeaderValue → Bool) → OneshotAction k String (Unit {0})
  matches_header is_value name cx = elim (k.header cx.context.request name) [
    | none ↦ (err (not_found "invalid header"), cx)
    | some v ↦ if is_value v then (ok tt, cx) else (err (not_found "invalid header"), cx)
  ]

  -- `query::RawAction::preflight`
  unfoldable pub raw_query : OneshotAction k (Unit {0}) (One (Option (List ℕ)))
  raw_query _ cx = (ok (one (k.query cx.context.request)), cx)

  module _ {T : Type 0} (from_str : List ℕ → Outcome String T) where
    -- `RequiredAction::preflight`
    unfoldable pub required_query : OneshotAction k (Unit {0}) (One T)
    required_query _ cx = elim (k.query cx.context.request) [
      | none ↦ (err (bad_request "missing query"), cx)
      | some query ↦ (map_one (λ x. x) (or_bad_request (from_str query)), cx)
    ]

    -- `query::OptionalAction::preflight`
    unfoldable pub optional_query : OneshotAction k (Unit {0}) (One (Option T))
    optional_query _ cx = elim (k.query cx.context.request) [
      | some query ↦ (map_one some (or_bad_request (from_str query)), cx)
      | none ↦ (ok (one none), cx)
    ]
