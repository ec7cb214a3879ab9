-- ===== src/Tests/Graphql.antt =====
-- Requests whose text is their query, with a body that is not ready at first.
use text.Mathlib.Text.{◌==◌ as str_eq}
use finch_router.Prelude.{
  ℕ, zero, suc, String, ◌≡◌, refl, List, [], ◌∷◌, Option, none, some, Outcome, ok, err, arith,
}
use finch_router.Crates.{Method, put}
use finch_router.Action.{ready, not_ready}
use finch_router.Ext.Future.Settling.{Resolves, resolved, pending}
use finch_router.Finchers.{Finchers}
use finch_router.Graphql.{
  Juniper, GraphQlRequest, single_request, post_kind, apply_request, poll_request,
}
use finch_router.Graphql.Requests.{apply_request-Resolves_body, as_graphql}

-- an input is its method, its query, and its content type
abbrev carried : Finchers
carried = record {
  Error = String;
  bad_request = λ s. s;
  fail = λ s. s;
  from_failure = λ s. s;
  Input = Method × (Option String × Option String);
  CookieJar = Unit {0};
  cookies = λ i. (ok tt, i);
  put_jar = λ _ i. i;
  Cookie = Unit {0};
  get = λ _ _. none;
  add = λ _ _. tt;
  remove = λ _ _. tt;
  new_cookie = λ _ _. tt;
  named = λ _. tt;
  cookie_value = λ _. "";
}

-- a request is its query, and only the query `good` succeeds
abbrev queries : Juniper carried
queries = record {
  method = λ i. i.0;
  uri_query = λ i. i.1.0;
  Mime = String;
  content_type = λ i. ok i.1.1;
  mime_eq = str_eq;
  ApplyError = String;
  ReceiveAll = ℕ;
  apply_receive_all = λ i. (ok 1, i);
  poll_body = λ n. elim n [ zero ↦ (ok (ready (1 ∷ [])), 0) | suc n' ↦ (ok not_ready, n') ];
  percent_decode = λ s. ok s;
  from_utf8 = λ _. ok "good";
  qs_from_str = λ s. ok (record { query = s; operation_name = none; variables = none });
  InputValue = String;
  value_from_str = λ s. ok s;
  Request = String;
  new_request = λ q _ _. q;
  RootNode = Unit {0};
  Ctx = Unit {0};
  Response = String;
  execute_one = λ q _ _. q;
  response_is_ok = λ s. str_eq s "good";
  one_to_vec = λ _. ok (7 ∷ []);
  all_to_vec = λ _. ok (8 ∷ []);
}

abbrev no_json : List ℕ → Outcome String (GraphQlRequest carried queries)
no_json _ = err "no JSON"

-- by PUT
abbrev put_query : carried.Input
put_query = (put, (none, some "application/graphql"))

apply_request-Resolves_body_example :
    (apply_request carried queries put_query ≡ (ok (post_kind 1), put_query))
    × Resolves
        (poll_request carried queries no_json put_query)
        (ok (single_request "good"))
        (post_kind 0)
        (post_kind 1)
apply_request-Resolves_body_example =
    apply_request-Resolves_body carried queries no_json put_query put_query
      (ok (single_request "good")) (λ e. ground (arith, e)) refl (pending refl (resolved refl))
      (as_graphql refl refl refl refl refl)
