-- ===== src/Tests.antt =====
-- Concrete requests, endpoints and runs, on which the theorems of the library are instantiated.
pub mod Paths
pub mod Checks
pub mod Polls
pub mod Serving
pub mod Files
pub mod Inside
pub mod Cookies
pub mod Sessions
pub mod Redis
pub mod Responses
pub mod Local
pub mod Graphql
pub mod Runner
pub mod Websocket
pub mod Boxed
pub mod Bodies
pub mod Routing
pub mod Futures
pub mod Errors
pub mod Templates
use finch_router.Prelude.{ℕ, zero, suc, List, [], ◌∷◌, Option, none, some, String, Outcome, ok}
use finch_router.Crates.{Crates, Method, get}
use finch_router.Error.{Error}
use finch_router.Context.{PreflightContext, ActionContext, Context}
use finch_router.Action.{not_ready, incomplete, EndpointAction}
use finch_router.Action.Runs.{as_poll}

-- A request is its method and its path; nothing is encoded.
abbrev pub plain : Crates
plain = record {
  Request = Method × List ℕ;
  method = λ r. r.0;
  path = λ r. r.1;
  query = λ _. none;
  HeaderValue = String;
  header = λ _ _. none;
  CookieJar = Unit {0};
  HeaderMap = Unit {0};
  percent_encode = λ s. s;
  percent_decode = λ s. some s;
}

-- `/a/bc`
abbrev pub a_bc : List ℕ
a_bc = 47 ∷ 97 ∷ 47 ∷ 98 ∷ 99 ∷ []

abbrev pub request_context : Context plain
request_context = record { request = (get, a_bc); cookies = none; response_headers = none }

abbrev pub get_a_bc : PreflightContext plain
get_a_bc = record { context = request_context; cursor = record { pos = 1; popped = 0 } }

abbrev pub posted : ActionContext plain (List ℕ)
posted = record { context = request_context; body = some (1 ∷ 2 ∷ []) }

-- an action that is not ready a number of times, and then has a result
abbrev pub after : {Bd T : Type 0} → Outcome Error T → EndpointAction plain Bd ℕ T
after r = record {
  preflight = λ n cx. (ok incomplete, n, cx);
  poll_action = λ n cx. elim n [ zero ↦ (as_poll r, 0, cx) | suc n' ↦ (ok not_ready, n', cx) ];
}
