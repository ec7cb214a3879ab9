-- ===== src/Tests/Futures.antt =====
-- A future that adds a header to the response through the thread-local cell.
use text.Mathlib.Text.{◌==◌ as str_eq}
use finch_router.Prelude.{ℕ, ◌≡◌, refl, List, [], ◌∷◌, some, ok, inr, if◌then◌else◌}
use finch_router.Crates.{get}
use finch_router.Context.{Context, new_context}
use finch_router.Context.Local.{with_cx}
use finch_router.Action.{ready}
use finch_router.Action.Futures.{FuturePoll, future_endpoint}
use finch_router.Output.{map_body}
use finch_router.Service.{dispatch}
use finch_router.Service.Futures.{poll_response-with_cx}
use finch_router.Service.Response.{assemble, poll_response}
use finch_router.Tests.{a_bc}
use finch_router.Tests.Responses.{headed, headers, changes, no_body}

abbrev numbered : Context headed
numbered = record (new_context (get, a_bc)) {
  response_headers = some (λ n. if str_eq n "x-id" then "7" ∷ [] else []);
}

-- the closure leaves the cell empty, and counts its calls in the future
abbrev numbering : ℕ → FuturePoll headed ℕ ℕ (Unit {0})
numbering _ st = (ok (ready tt), record st { rest = record { future = 1; context = numbered } })

poll_response-with_cx_example :
    let e = future_endpoint {Bd = List ℕ} 3 (some 5) (with_cx numbering) 0 in
    (poll_response headers changes e.behaviour no_body (dispatch e (get, a_bc) [])).0
    ≡ ok (ready (assemble headers changes (map_body inr (no_body tt (get, a_bc))) numbered).0)
poll_response-with_cx_example =
    poll_response-with_cx headers changes 3 (some 5) numbering no_body 0 (get, a_bc) [] tt refl
