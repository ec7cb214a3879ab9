-- ===== src/Tests/Routing.antt =====
-- Endpoints on the request of `/a/bc`.
use mathlib.Core.Path.{PathP}
use finch_router.Prelude.{ℕ, ◌≡◌, refl, List, [], ◌∷◌, Outcome, ok, err, panicked, String, ◌⊎◌, inr}
use finch_router.Common.{HList, one, combine}
use finch_router.Common.Func.{call}
use finch_router.Routing.Arguments.{poll_apply-map-and}
use finch_router.Crates.{get, post, connect}
use finch_router.Error.{Error, bad_request}
use finch_router.Cursor.Split.{split}
use finch_router.Action.{Async, ready, map_ok}
use finch_router.Action.Runs.{as_poll}
use finch_router.Routing.{
  Route, StateOf, mapped, components, method_is, parameter, ending, constant, literal, both, first,
  compile, denote,
}
use finch_router.Syntax.Verb.{method_eq}
use finch_router.Syntax.PathLiteral.{utf8}
use finch_router.Syntax.PathLiteral.Extraction.{match_segments}
use finch_router.Routing.Associating.{types_assoc}
use finch_router.Routing.Bracketing.{poll_apply-both-both}
use finch_router.Routing.Responding.{poll_response-answers}
use finch_router.Output.{HttpResponse, map_body, one_response, binary_response}
use finch_router.Service.Response.{poll_response}
use finch_router.Tests.Responses.{headed, headers, changes}
use finch_router.Routing.Answering.{poll_response-compile}
use finch_router.Routing.Recovering.{recover-and_then-Resolves}
use finch_router.Ext.Future.{WithFuture, and_then, recover}
use finch_router.Ext.Future.Settling.{Resolves}
use finch_router.Tests.Polls.{Waiting, waits}
use finch_router.Routing.Pathless.{poll_apply_panics}
use finch_router.Routing.Serving.{poll_apply-compile}
use finch_router.Service.{AppFuture, dispatch, poll_apply}
use finch_router.Tests.{plain, a_bc}
use finch_router.Tests.Paths.{behind_slash, text_of, a_param, as_it_is}

abbrev Bytes : Type 0
Bytes = List ℕ

-- `verb::get().and(path!("/a/<s>")).or_strict(verb::post().and(value(..)))`
abbrev posts : Route (Bytes ∷ [])
posts =
    first (both (method_is get) (components text_of a_param tt))
      (both (method_is post) (constant (1 ∷ [])))

poll_apply-compile_example :
    (poll_apply
      (compile plain Bytes posts).behaviour
      (dispatch (compile plain Bytes posts) (get, a_bc) [])).0
    ≡ as_poll (map_ok (λ x. x.0) (denote plain (get, a_bc) posts (split behind_slash)))
poll_apply-compile_example = poll_apply-compile plain posts (get, a_bc) [] behind_slash refl

poll_response-compile_example :
    let e = compile headed Bytes posts in
    let into_response = one_response (binary_response headers) in
    (poll_response headers changes e.behaviour into_response (dispatch e (get, a_bc) [])).0
    ≡ ok (ready (map_body inr (into_response (one (98 ∷ 99 ∷ [])) (get, a_bc))))
unfolding denote split method_eq match_segments utf8 combine
poll_response-compile_example =
    poll_response-compile headers changes (one_response (binary_response headers)) posts (get, a_bc)
      [] behind_slash refl

abbrev refuse : HList (Bytes ∷ []) → Waiting
refuse _ = (1, err (bad_request "late"))

abbrev seven : Error → Waiting
seven _ = (2, ok 7)

recover-and_then-Resolves_example :
    let e = recover waits.poll (and_then waits.poll (compile plain Bytes posts) refuse) seven in
    (fut' : AppFuture plain Bytes (WithFuture (WithFuture (StateOf posts) Waiting) Waiting))
    × Resolves (poll_apply e.behaviour) (ok (one 7)) fut' (dispatch e (get, a_bc) [])
unfolding denote split method_eq match_segments utf8 combine
recover-and_then-Resolves_example =
    recover-and_then-Resolves plain waits waits posts refuse seven (get, a_bc) [] behind_slash refl

-- `segment("a").and(param())` and `value(3).and(eos())`
abbrev leading : Route (Bytes ∷ [])
leading = both (literal (97 ∷ [])) (parameter as_it_is)

abbrev closing : Route (ℕ ∷ [])
closing = both (constant 3) ending

abbrev swap : Bytes → ℕ → ℕ × Bytes
swap bytes n = (n, bytes)

poll_apply-map-and_example :
    let e = compile plain Bytes (mapped (call (Bytes ∷ ℕ ∷ []) swap) (both leading closing)) in
    (poll_apply e.behaviour (dispatch e (get, a_bc) [])).0 ≡ ok (ready (one (3, 98 ∷ 99 ∷ [])))
unfolding denote split call utf8 combine
poll_apply-map-and_example =
    poll_apply-map-and plain leading closing swap (get, a_bc) [] behind_slash refl

poll_response-answers_example :
    let e = compile headed Bytes posts in
    let into_response = one_response (binary_response headers) in
    (response : HttpResponse headed (String ⊎ Bytes)) × ((poll_response headers changes e.behaviour
        into_response
        (dispatch e (get, a_bc) [])).0
      ≡ ok (ready response))
poll_response-answers_example =
    poll_response-answers headers changes (one_response (binary_response headers)) posts (get, a_bc)
      [] behind_slash refl ((tt, λ _ _. tt), (tt, tt))

poll_apply_panics_example :
    let e = compile plain Bytes leading in
    (poll_apply e.behaviour (dispatch e (connect, []) [])).0 ≡ panicked
poll_apply_panics_example = poll_apply_panics plain leading (connect, []) [] refl tt

-- `segment("a").and(param()).and(eos())`
poll_apply-both-both_example :
    let left = compile plain Bytes (both (both (literal (97 ∷ [])) (parameter as_it_is)) ending) in
    let right = compile plain Bytes (both (literal (97 ∷ [])) (both (parameter as_it_is) ending)) in
    PathP
      (λ i. Outcome Error (Async (HList (types_assoc [] (Bytes ∷ []) [] i))))
      (poll_apply left.behaviour (dispatch left (get, a_bc) [])).0
      (poll_apply right.behaviour (dispatch right (get, a_bc) [])).0
poll_apply-both-both_example =
    poll_apply-both-both plain (literal (97 ∷ [])) (parameter as_it_is) ending (get, a_bc) []
      behind_slash refl

posts_found : denote plain (get, a_bc) posts (split behind_slash) ≡ ok (one (98 ∷ 99 ∷ []), 2)
unfolding denote split method_eq match_segments utf8 combine
posts_found = refl
