-- ===== src/Lookup/Laws.antt =====
-- src/endpoints/header.rs and src/endpoints/query.rs: the optional endpoints in terms of the
-- required and the raw ones.
use finch_router.Prelude.{ℕ, String, ◌≡◌, List, Option, none, some, Outcome, ok, arith}
use finch_router.Common.{One, one}
use finch_router.Crates.{Crates}
use finch_router.Error.{Error}
use finch_router.Context.{PreflightContext}
use finch_router.Action.{map_ok}
use finch_router.Lookup.{
  raw_header, parse_header, optional_header, raw_query, required_query, optional_query,
}

-- What an optional endpoint returns, from the results of the raw and of the required one.
abbrev pub optional_of :
    {V T : Type 0}
    → Outcome Error (One (Option V))
    → Outcome Error (One T)
    → Outcome Error (One (Option T))
optional_of (ok (some _, _)) required = map_ok (λ x. one (some x.0)) required
optional_of _ required = ok (one none)

module _ {k : Crates} {T U : Type 0} (from_header_value : k.HeaderValue → Outcome String T)
    (from_str : List ℕ → Outcome String U) where
  -- An optional header or query gives what the required one gives, as a value that is there, where
  -- the raw one finds it, errors included; and where that finds none, it matches with no value. It
  -- leaves the context as it is.
  optional-eq-optional_of :
      (name : String) (cx : PreflightContext k)
      → (optional_header from_header_value name cx
          ≡ (optional_of (raw_header name cx).0 (parse_header from_header_value name cx).0, cx))
        × (optional_query from_str tt cx
            ≡ (optional_of (raw_query tt cx).0 (required_query from_str tt cx).0, cx))
  unfolding raw_header parse_header optional_header raw_query required_query optional_query
  optional-eq-optional_of name cx = (ground arith, ground arith)
