-- ===== src/Syntax/Encoded.antt =====
-- src/endpoint/syntax/encoded.rs: conversions from a percent-encoded segment.
use finch_router.Prelude.{ℕ, String, List, none, some, Outcome, ok, err, panicked}
use finch_router.Crates.{Crates}
use finch_router.Error.{Error, decode_encoded_str, parse_encoded_str}

module _ (k : Crates) where
  -- `FromEncodedStr for String`, and for `PathBuf`, which wraps the same text
  unfoldable pub string_from_encoded_str : List ℕ → Outcome Error (List ℕ)
  string_from_encoded_str s = elim (k.percent_decode s) [
    | none ↦ err decode_encoded_str
    | some decoded ↦ ok decoded
  ]

  -- The types of `impl_from_segment_from_str!`, by their `FromStr::from_str`, whose error is the
  -- text that it displays.
  unfoldable pub parsed_from_encoded_str :
      {T : Type 0} → (List ℕ → Outcome String T) → List ℕ → Outcome Error T
  parsed_from_encoded_str from_str s = elim (k.percent_decode s) [
    | none ↦ err decode_encoded_str
    | some decoded ↦ elim (from_str decoded) [
      | ok x ↦ ok x
      | err cause ↦ err (parse_encoded_str cause)
      | panicked ↦ panicked
    ]
  ]
