-- ===== src/Syntax/PathLiteral.antt =====
-- finchers-macros/src/lib.rs: the literal of `path!("..")` is parsed into components, and the
-- generated `extract` matches them one by one against the cursor.
-- `syn`'s types are codes `Ty`, with `parse_str` as a parameter and the Rust type of a code as
-- `El`. Only the parser and the generated function are modelled, not the token streams around them.
pub mod Roundtrip
pub mod Extraction
use finch_router.Prelude.{
  ℕ, ◌+◌, ◌/◌, ◌%◌, Bool, true, false, ◌&&◌, ◌||◌, not, List, [], ◌∷◌, ◌++◌, Option, none, some,
  Outcome, ok, err, panicked, leb, ltb, ◌==◌, drop, bytes_eq, if◌then◌else◌,
}
use finch_router.Common.{HList}
use finch_router.Crates.{Crates}
use finch_router.Error.{Error}
use finch_router.Context.{PreflightContext, path_of}
use finch_router.Cursor.{slash, remaining_path}
use finch_router.Action.{map_ok, OneshotAction, Endpoint, oneshot_endpoint}
use finch_router.Syntax.{next, count, not_matched_error}

-- `enum Component`; a text is its characters' code points
pub data Component (Ty : Type 0) : Type 0 where
  static : List ℕ → Component Ty
  single_param : Ty → Component Ty
  catch_all_param : Ty → Component Ty

-- the errors of `parse_path`, by their messages; `bad_type` is an error of `syn::parse_str`
pub data PathError : Type 0 where
  empty_path no_leading_slash empty_segment unclosed_param non_ascii_param bad_type : PathError
  catch_all_not_last : PathError

-- `char::is_whitespace`
abbrev pub is_whitespace : ℕ → Bool
is_whitespace c =
    (leb 9 c && leb c 13)
    || (c == 32)
    || (c == 0x85)
    || (c == 0xA0)
    || (c == 0x1680)
    || (leb 0x2000 c && leb c 0x200A)
    || (c == 0x2028)
    || (c == 0x2029)
    || (c == 0x202F)
    || (c == 0x205F)
    || (c == 0x3000)

-- `str::trim`
unfoldable pub trim_start : List ℕ → List ℕ
trim_start [] = []
trim_start (c ∷ s) = if is_whitespace c then trim_start s else c ∷ s

trim_char : ℕ → List ℕ → List ℕ
trim_char c [] = if is_whitespace c then [] else c ∷ []
trim_char c (d ∷ s) = c ∷ d ∷ s

unfoldable pub trim_end : List ℕ → List ℕ
unfolding trim_char
trim_end [] = []
trim_end (c ∷ s) = trim_char c (trim_end s)

-- `str::split('/')`, which always yields at least one piece
abbrev pub extend : ℕ → List (List ℕ) → List (List ℕ)
extend c [] = (c ∷ []) ∷ []
extend c (p ∷ ps) = (c ∷ p) ∷ ps

unfoldable pub pieces : List ℕ → List (List ℕ)
pieces [] = [] ∷ []
pieces (c ∷ s) = let rest = pieces s in if c == slash then [] ∷ rest else extend c rest

-- `ends_with('>')`, and the segment without its last character
abbrev pub ends_with : ℕ → List ℕ → Bool
ends_with x [] = false
ends_with x (c ∷ []) = c == x
ends_with x (c ∷ d ∷ s) = ends_with x (d ∷ s)

abbrev pub drop_last : List ℕ → List ℕ
drop_last [] = []
drop_last (c ∷ []) = []
drop_last (c ∷ d ∷ s) = c ∷ drop_last (d ∷ s)

abbrev pub is_ascii : List ℕ → Bool
is_ascii [] = true
is_ascii (c ∷ s) = ltb c 128 && is_ascii s

abbrev pub starts_with_dots : List ℕ → Bool
starts_with_dots (a ∷ b ∷ _) = (a == 46) && (b == 46)
starts_with_dots _ = false

abbrev pub is_nil : List (List ℕ) → Bool
is_nil [] = true
is_nil (_ ∷ _) = false

abbrev pub Parsed : Type 0 → Type 0
Parsed Ty = Outcome PathError (List (Component Ty))

abbrev pub then_more : {Ty : Type 0} → Component Ty → Parsed Ty → Parsed Ty
then_more c (ok cs) = ok (c ∷ cs)
then_more c (err e) = err e
then_more c panicked = panicked

module _ {Ty : Type 0} (parse_str : List ℕ → Option Ty) where
  -- a segment `<..>`, from what `parse_path` makes of the segments behind it
  parse_param : List ℕ → Bool → Parsed Ty → Parsed Ty
  parse_param segment last rest =
      let ty_str = drop_last (drop 1 segment) in
      if not (ends_with 62 segment)
      then err unclosed_param
      else if not (is_ascii segment)
      then err non_ascii_param
      else if starts_with_dots ty_str
      then elim (parse_str (drop 2 ty_str)) [
        | none ↦ err bad_type
        | some ty ↦ if last then ok (catch_all_param ty ∷ []) else err catch_all_not_last
      ]
      else elim (parse_str ty_str) [
        | none ↦ err bad_type
        | some ty ↦ then_more (single_param ty) rest
      ]

  -- the `while let` loop of `parse_path`, over the pieces that the iterator still holds
  unfoldable pub parse_pieces : List (List ℕ) → Parsed Ty
  unfolding parse_param
  parse_pieces [] = ok []
  parse_pieces ([] ∷ ps) = if is_nil ps then ok [] else err empty_segment
  parse_pieces ((c ∷ s) ∷ ps) =
      let rest = parse_pieces ps in
      if c == 60 then parse_param (c ∷ s) (is_nil ps) rest else then_more (static (c ∷ s)) rest

  -- `parse_path`; `skip(1)` leaves out the piece before the first slash
  parse_trimmed : List ℕ → Parsed Ty
  unfolding parse_pieces pieces
  parse_trimmed [] = err empty_path
  parse_trimmed (c ∷ s) =
      if not (c == slash)
      then err no_leading_slash
      else if bytes_eq s []
      then ok []
      else parse_pieces (pieces s)

  unfoldable pub parse_path : List ℕ → Parsed Ty
  unfolding parse_trimmed trim_start trim_end
  parse_path s = parse_trimmed (trim_start (trim_end s))

-- the types of the extracted values: `output_types`
module _ {Ty : Type 0} (El : Ty → Type 0) where
  abbrev pub output_types : List (Component Ty) → List (Type 0)
  output_types [] = []
  output_types (static _ ∷ cs) = output_types cs
  output_types (single_param ty ∷ cs) = El ty ∷ output_types cs
  output_types (catch_all_param ty ∷ cs) = El ty ∷ output_types cs

-- the UTF-8 bytes of a text
abbrev pub utf8_char : ℕ → List ℕ
utf8_char c =
    if ltb c 0x80
    then c ∷ []
    else if ltb c 0x800
    then (0xC0 + c / 64) ∷ (0x80 + c % 64) ∷ []
    else if ltb c 0x10000
    then (0xE0 + c / 4096) ∷ (0x80 + c / 64 % 64) ∷ (0x80 + c % 64) ∷ []
    else (0xF0 + c / 262144) ∷ (0x80 + c / 4096 % 64) ∷ (0x80 + c / 64 % 64) ∷ (0x80 + c % 64) ∷ []

unfoldable pub utf8 : List ℕ → List ℕ
utf8 [] = []
utf8 (c ∷ s) = utf8_char c ++ utf8 s

module _ {k : Crates} {Ty : Type 0} {El : Ty → Type 0}
    (from_encoded_str : (ty : Ty) → List ℕ → Outcome Error (El ty)) where
  -- The `extract` that the macro generates. A static segment is compared with the literal's own
  -- bytes, which are not percent-encoded.
  unfoldable pub extract :
      (cs : List (Component Ty))
      → PreflightContext k
      → Outcome Error (HList (output_types El cs)) × PreflightContext k
  extract [] cx = (ok tt, cx)
  extract (static s ∷ cs) cx =
      let (r, cx') = next cx in
      let rest = extract cs cx' in
      elim r [
        | ok none ↦ (err not_matched_error, cx')
        | ok (some segment) ↦
            if bytes_eq segment (utf8 s) then rest else (err not_matched_error, cx')
        | err e ↦ (err e, cx')
        | panicked ↦ (panicked, cx')
      ]
  extract (single_param ty ∷ cs) cx =
      let (r, cx') = next cx in
      let (values, cx'') = extract cs cx' in
      elim r [
        | ok none ↦ (err not_matched_error, cx')
        | ok (some segment) ↦ elim (from_encoded_str ty segment) [
          | ok x ↦ (map_ok (λ xs. (x, xs)) values, cx'')
          | err e ↦ (err e, cx')
          | panicked ↦ (panicked, cx')
        ]
        | err e ↦ (err e, cx')
        | panicked ↦ (panicked, cx')
      ]
  extract (catch_all_param ty ∷ cs) cx =
      let (counted, cx') = count cx in
      let (values, cx'') = extract cs cx' in
      elim (remaining_path (path_of cx) cx.cursor) [
        | ok s ↦ elim counted [
          | ok _ ↦ elim (from_encoded_str ty s) [
            | ok x ↦ (map_ok (λ xs. (x, xs)) values, cx'')
            | err e ↦ (err e, cx')
            | panicked ↦ (panicked, cx')
          ]
          | err e ↦ (err e, cx')
          | panicked ↦ (panicked, cx')
        ]
        | err e ↦ (err e, cx)
        | panicked ↦ (panicked, cx)
      ]

  -- `PathAction::preflight`, of the type that the macro makes for a literal
  unfoldable pub path_preflight :
      (cs : List (Component Ty)) → OneshotAction k (Unit {0}) (HList (output_types El cs))
  unfolding extract
  path_preflight cs _ cx = extract cs cx

  -- `path`
  unfoldable pub path_endpoint :
      {Bd : Type 0} (cs : List (Component Ty))
      → Endpoint k Bd (Option (Unit {0})) (HList (output_types El cs))
  unfolding path_preflight oneshot_endpoint
  path_endpoint cs = oneshot_endpoint (path_preflight cs) tt
