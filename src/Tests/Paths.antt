-- ===== src/Tests/Paths.antt =====
-- The cursor, the path endpoints and path literals on the path `/a/bc`.
use finch_router.Prelude.{
  ℕ, ◌≡◌, refl, List, [], ◌∷◌, Option, none, some, Outcome, ok, bytes_eq, if◌then◌else◌, arith,
}
use finch_router.Error.{Error}
use finch_router.Context.{CursorInner}
use finch_router.Cursor.{collect}
use finch_router.Cursor.Split.{split}
use finch_router.Cursor.Walk.{collect-eq-split, at_end}
use finch_router.Syntax.{FromEncodedStr}
use finch_router.Syntax.PathLiteral.{
  Component, static, single_param, catch_all_param, extract, parse_path, trim_end,
}
use finch_router.Syntax.PathLiteral.Extraction.{match_segments, extract-eq-match_segments}
use finch_router.Syntax.PathLiteral.Roundtrip.{print, parse_path-print}
use finch_router.Tests.{a_bc, get_a_bc}

abbrev first_segment : CursorInner
first_segment = record { pos = 1; popped = 0 }

abbrev pub behind_slash : List ℕ
behind_slash = 97 ∷ 47 ∷ 98 ∷ 99 ∷ []

collect-eq-split_example :
    collect 5 a_bc first_segment
    ≡ some (ok (split behind_slash), at_end a_bc first_segment behind_slash)
collect-eq-split_example = collect-eq-split a_bc 5 first_segment behind_slash refl (omega arith)

abbrev pub as_it_is : FromEncodedStr (List ℕ)
as_it_is s = ok s

-- one type of parameters, by the name `s`
abbrev text_type : List ℕ → Option (Unit {0})
text_type s = if bytes_eq s (115 ∷ []) then some tt else none

abbrev show_type : Unit {0} → List ℕ
show_type _ = 115 ∷ []

abbrev pub text_of : (ty : Unit {0}) → List ℕ → Outcome Error (List ℕ)
text_of _ s = ok s

-- `/a/<s>`
abbrev pub a_param : List (Component (Unit {0}))
a_param = static (97 ∷ []) ∷ single_param tt ∷ []

extract-eq-match_segments_example :
    (extract text_of a_param get_a_bc).0 ≡ match_segments text_of a_param (split behind_slash)
extract-eq-match_segments_example =
    extract-eq-match_segments text_of a_param get_a_bc behind_slash tt refl

-- `/a/<..s>`
abbrev a_rest : List (Component (Unit {0}))
a_rest = catch_all_param tt ∷ []

parse_path-print_example :
    parse_path text_type (print show_type (static (97 ∷ []) ∷ a_rest))
    ≡ ok (static (97 ∷ []) ∷ a_rest)
unfolding trim_end
parse_path-print_example =
    parse_path-print text_type show_type (static (97 ∷ [])) a_rest
      (
        ((omega arith), (omega arith, tt)),
        (record { no_slash = (omega arith, tt); ascii = (omega arith, tt); reads = refl }, refl),
      )
      refl
