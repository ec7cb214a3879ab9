-- ===== src/Syntax/Inside.antt =====
-- src/endpoint/syntax.rs, src/action.rs: the place of the cursor in the path under the path
-- endpoints.
use finch_router.Prelude.{ℕ, ◌≡◌, ◌≢◌, inl, inr, List, Outcome, panicked, arith}
use finch_router.Crates.{Crates}
use finch_router.Error.{Error}
use finch_router.Context.{PreflightContext, path_of}
use finch_router.Cursor.Bounds.{IsInside, suffix?-some, next_segment-IsInside}
use finch_router.Syntax.{
  FromEncodedStr, next, segment_preflight, eos_preflight, param_preflight, remains_preflight,
}
use finch_router.Syntax.Matching.{remains_lem}

module _ {k : Crates} where
  -- The cursor of a context is inside the path of its request.
  abbrev pub Inside : PreflightContext k → Type 0
  Inside cx = IsInside (path_of cx) cx.cursor

  -- A result does not panic, and the cursor stays inside the path of a context that is kept.
  abbrev pub StaysInside :
      PreflightContext k → {T : Type 0} → Outcome Error T × PreflightContext k → Type 0
  StaysInside cx (r, cx') = Inside cx' × (cx'.context ≡ cx.context) × (r ≢ panicked)

  module _ (cx : PreflightContext k) (h : Inside cx) where
    segments-Inside :
        (encoded : List ℕ)
        → let (r, cx') = segment_preflight encoded cx in
          let (q, cx'') = eos_preflight tt cx in
          (Inside cx' × (cx'.context ≡ cx.context) × (r ≢ panicked))
          × (Inside cx'' × (cx''.context ≡ cx.context) × (q ≢ panicked))
    unfolding segment_preflight eos_preflight next
    segments-Inside encoded = ground (arith, next_segment-IsInside (path_of cx) cx.cursor h)

    params-Inside :
        {T : Type 0} (from_encoded_str : FromEncodedStr T)
        → ((s : List ℕ) → from_encoded_str s ≢ panicked)
        → let (r, cx') = param_preflight from_encoded_str tt cx in
          let (q, cx'') = remains_preflight from_encoded_str tt cx in
          (Inside cx' × (cx'.context ≡ cx.context) × (r ≢ panicked))
          × (Inside cx'' × (cx''.context ≡ cx.context) × (q ≢ panicked))
    unfolding param_preflight next
    params-Inside from_encoded_str n =
        let (rest, at) = suffix?-some cx.cursor.pos (path_of cx) h in
        let (inside, moved) = next_segment-IsInside (path_of cx) cx.cursor h in
        (
          elim moved [
            | inl (e, f) ↦ ground (arith, inside, e, f)
            | inr (s, e, f, g) ↦ ground (arith, inside, e, n s)
          ],
          ground (arith, n rest, remains_lem cx rest at from_encoded_str),
        )

    -- Where the cursor is inside the path, and the conversion does not panic, the checks of `segment`,
    -- `eos`, `param` and `remains` keep it there, keep the rest of the context, and do not panic.
    pub leaves-Inside :
        {T : Type 0} (encoded : List ℕ) (from_encoded_str : FromEncodedStr T)
        → ((s : List ℕ) → from_encoded_str s ≢ panicked)
        → StaysInside cx (segment_preflight encoded cx)
          × StaysInside cx (eos_preflight tt cx)
          × StaysInside cx (param_preflight from_encoded_str tt cx)
          × StaysInside cx (remains_preflight from_encoded_str tt cx)
    leaves-Inside encoded from_encoded_str n =
        let (first, second) = segments-Inside encoded in
        let (third, fourth) = params-Inside from_encoded_str n in (first, second, third, fourth)
