-- ===== src/Graphql.antt =====
-- finchers-juniper/src/request.rs: reading a GraphQL request from a query or a body, executing it,
-- and the response. `juniper`, `serde` and the input of `finchers` are parameters.
pub mod Requests
pub mod Responses
pub mod Executing
use finch_router.Prelude.{
  ℕ, String, List, [], ◌∷◌, Bool, true, ◌&&◌, Option, none, some, Outcome, ok, err, panicked,
  with_error, chain, if◌then◌else◌, map,
}
use finch_router.Crates.{Method, get}
use finch_router.Finchers.{Finchers}
use finch_router.Action.{Async, ready, not_ready}

-- `ParsedQuery`
pub record ParsedQuery : Type 0 where
  pub query : String
  pub operation_name : Option String
  pub variables : Option String

pub record Juniper (f : Finchers) : Type 1 where
  -- the request of the input, and `Input::content_type` with its test against a name
  pub method : f.Input → Method
  pub uri_query : f.Input → Option String
  pub Mime : Type 0
  pub content_type : f.Input → Outcome String (Option Mime)
  pub mime_eq : Mime → String → Bool
  -- `body::receive_all()`, its `apply`, and its future, which gives the bytes
  pub ApplyError : Type 0
  pub ReceiveAll : Type 0
  pub apply_receive_all : f.Input → Outcome ApplyError ReceiveAll × f.Input
  pub poll_body : ReceiveAll → Outcome f.Error (Async (List ℕ)) × ReceiveAll
  -- `percent_decode(s).decode_utf8()`, and `String::from_utf8`
  pub percent_decode : String → Outcome String String
  pub from_utf8 : List ℕ → Outcome String String
  -- `serde_qs::from_str`, and `serde_json::from_str` of the variables
  pub qs_from_str : String → Outcome String ParsedQuery
  pub InputValue : Type 0
  pub value_from_str : String → Outcome String InputValue
  -- `juniper::http::GraphQLRequest`, `new` and `execute`
  pub Request : Type 0
  pub new_request : String → Option String → Option InputValue → Request
  pub RootNode : Type 0
  pub Ctx : Type 0
  pub Response : Type 0
  pub execute_one : Request → RootNode → Ctx → Response
  pub response_is_ok : Response → Bool
  -- `serde_json::to_vec` of a response and of several
  pub one_to_vec : Response → Outcome String (List ℕ)
  pub all_to_vec : List Response → Outcome String (List ℕ)

-- `GraphQLRequest`, with its kind
pub data GraphQlRequest (f : Finchers) (j : Juniper f) : Type 0 where
  single_request : j.Request → GraphQlRequest f j
  batch : List j.Request → GraphQlRequest f j

-- `RequestKind`, the state of `RequestFuture`
pub data RequestKind (f : Finchers) (j : Juniper f) : Type 0 where
  get_kind : RequestKind f j
  post_kind : j.ReceiveAll → RequestKind f j

-- `GraphQLResponse`
pub record GraphQlResponse : Type 0 where
  pub is_ok : Bool
  pub body : Outcome String (List ℕ)

-- the response of `respond`: its status, its content type, and its body
pub record Answer : Type 0 where
  pub status : ℕ
  pub content_type : String
  pub body : List ℕ

-- `m == Method::GET`
abbrev pub is_get : Method → Bool
is_get get = true
is_get _ = Bool.false

module _ (f : Finchers) (j : Juniper f) where
  -- `GraphQLRequest::single`
  unfoldable pub single_query : String → Option String → Option j.InputValue → GraphQlRequest f j
  single_query query operation_name variables =
      single_request (j.new_request query operation_name variables)

  -- `apply` of `GraphQLRequestEndpoint`
  unfoldable pub apply_request : f.Input → Outcome j.ApplyError (RequestKind f j) × f.Input
  apply_request input =
      let (applied, input') = j.apply_receive_all input in
      if is_get (j.method input) then (ok get_kind, input) else elim applied [
        | ok future ↦ (ok (post_kind future), input')
        | err e ↦ (err e, input')
        | panicked ↦ (panicked, input')
      ]

  -- `percent_decode(..).decode_utf8().map_err(bad_request)`
  abbrev pub decode : String → Outcome f.Error String
  decode s = with_error f.bad_request (j.percent_decode s)

  -- the operation name of a parsed query
  unfoldable pub decode_name : Option String → Outcome f.Error (Option String)
  decode_name none = ok none
  decode_name (some s) = chain (decode s) (λ name. ok (some name))

  -- the variables of a parsed query
  unfoldable pub decode_variables : Option String → Outcome f.Error (Option j.InputValue)
  decode_variables none = ok none
  decode_variables (some s) =
      chain (decode s)
        (λ decoded. chain (with_error f.bad_request (j.value_from_str decoded)) (λ v. ok (some v)))

  -- `parse_query_str`
  unfoldable pub parse_query_str : String → Outcome f.Error (GraphQlRequest f j)
  unfolding decode_name decode_variables single_query
  parse_query_str s = chain (with_error f.fail (j.qs_from_str s)) (λ parsed.
      chain (decode parsed.query) (λ query.
        chain (decode_name parsed.operation_name) (λ operation_name.
          chain (decode_variables parsed.variables)
            (λ variables. ok (single_query query operation_name variables)))))

  -- the `Get` arm of `poll`
  unfoldable pub from_query : f.Input → Outcome f.Error (GraphQlRequest f j)
  unfolding parse_query_str
  from_query input = elim (j.uri_query input) [
    | none ↦ err (f.bad_request "missing query string")
    | some s ↦ parse_query_str s
  ]

  -- the `Post` arm of `poll`, once the body is received; `from_slice` is `serde_json::from_slice`
  unfoldable pub from_body :
      (List ℕ → Outcome String (GraphQlRequest f j))
      → List ℕ
      → f.Input
      → Outcome f.Error (GraphQlRequest f j)
  unfolding single_query
  from_body from_slice bytes input =
      chain (with_error f.bad_request (j.content_type input)) (λ found. elim found [
        | none ↦ err (f.bad_request "missing content-type.")
        | some m ↦
            if j.mime_eq m "application/json"
            then with_error f.bad_request (from_slice bytes)
            else if j.mime_eq m "application/graphql"
            then chain (with_error f.bad_request (j.from_utf8 bytes))
                (λ query. ok (single_query query none none))
            else err (f.bad_request "unsupported content-type.")
      ])

  -- `RequestFuture::poll`, polled with the input of the task
  unfoldable pub poll_request :
      (List ℕ → Outcome String (GraphQlRequest f j))
      → f.Input
      → RequestKind f j
      → Outcome f.Error (Async (GraphQlRequest f j)) × RequestKind f j
  unfolding from_query from_body
  poll_request from_slice input get_kind = (chain (from_query input) (λ r. ok (ready r)), get_kind)
  poll_request from_slice input (post_kind future) =
      let (r, future') = j.poll_body future in
      elim r [
        | ok (ready bytes) ↦
            (chain (from_body from_slice bytes input) (λ q. ok (ready q)), post_kind future')
        | ok not_ready ↦ (ok not_ready, post_kind future')
        | err e ↦ (err e, post_kind future')
        | panicked ↦ (panicked, post_kind future')
      ]

  -- `responses.iter().all(|response| response.is_ok())`
  unfoldable pub all_ok : List j.Response → Bool
  all_ok [] = true
  all_ok (r ∷ rs) = j.response_is_ok r && all_ok rs

  -- `GraphQLRequest::execute`
  unfoldable pub execute : GraphQlRequest f j → j.RootNode → j.Ctx → GraphQlResponse
  unfolding all_ok
  execute (single_request request) root context =
      let response = j.execute_one request root context in
      record { is_ok = j.response_is_ok response; body = j.one_to_vec response }
  execute (batch requests) root context =
      let responses = map (λ request. j.execute_one request root context) requests in
      record { is_ok = all_ok responses; body = j.all_to_vec responses }

  -- `Output for GraphQLResponse`
  unfoldable pub respond : GraphQlResponse → Outcome f.Error Answer
  respond r = chain (with_error f.fail r.body) (λ body. ok (record {
    status = if r.is_ok then 200 else 400;
    content_type = "application/json";
    body = body;
  }))
