-- ===== src/Runner/Requests.antt =====
-- src/test.rs: the conversions into a request that the runner takes. The parsing of a URI, the builder
-- of a request, and the parsing of a header value are parameters.
use Prim.Native.String.{◌++◌ as str_append}
use finch_router.Prelude.{ℕ, String, List, [], ◌∷◌, Option, none, some, Outcome, ok, err, panicked}
use finch_router.Prelude.{unwrap_or, chain}
use finch_router.Crates.{Crates}
use finch_router.Output.{HeaderCrate}
use finch_router.Runner.{ReqBody, RequestHeaders}

-- What the code calls of `http::Uri`, of `Request::get`, and of a string's `parse` as a header value;
-- an error is its text.
pub record UriCrate (k : Crates) : Type 1 where
  pub Uri : Type 0
  pub parse_uri : String → Outcome String Uri
  pub path_and_query : Uri → Option String
  -- the host of the authority, and its port
  pub authority_part : Uri → Option (String × Option String)
  -- `Request::get(path).body(..)`, without the body
  pub get : String → Outcome String k.Request
  pub parse_value : String → Outcome String k.HeaderValue
  -- `Bytes::from` of a text
  pub text_bytes : String → List ℕ

-- The trait `IntoReqBody`; a media type is its text
pub record IntoReqBody (T : Type 0) : Type 0 where
  pub content_type : T → Option String
  pub into_req_body : T → ReqBody

-- `IntoReqBodyImpl for ()`
unfoldable pub unit_body : IntoReqBody (Unit {0})
unit_body = record { content_type = λ _. none; into_req_body = λ _. record { bytes = some [] } }

-- `IntoReqBodyImpl` for slices and vectors of bytes
unfoldable pub bytes_body : IntoReqBody (List ℕ)
bytes_body = record {
  content_type = λ _. none;
  into_req_body = λ bytes. record { bytes = some bytes };
}

module _ {k : Crates} (h : HeaderCrate k) (q : RequestHeaders k) (u : UriCrate k) where
  -- `IntoReqBodyImpl` for texts
  unfoldable pub text_body : IntoReqBody String
  text_body = record {
    content_type = λ _. some "text/plain; charset=utf-8";
    into_req_body = λ text. record { bytes = some (u.text_bytes text) };
  }

  -- `headers_mut().entry(name).unwrap().or_insert(value)`
  unfoldable pub insert_absent : String → k.HeaderValue → k.Request → k.Request
  insert_absent name value request = elim (h.get_all name (q.headers request)) [
    | [] ↦ q.set_headers (h.insert name value (q.headers request)) request
    | _ ∷ _ ↦ request
  ]

  -- the text of the header Host for an authority
  unfoldable pub host_text : String × Option String → String
  host_text (host, some port) = str_append host (str_append ":" port)
  host_text (host, none) = host

  -- `TestRequestImpl for &Uri`
  unfoldable pub uri_request : u.Uri → Outcome String (k.Request × ReqBody)
  unfolding insert_absent host_text
  uri_request uri = chain (u.get (unwrap_or "/" (u.path_and_query uri))) (λ request.
      elim (u.authority_part uri) [
        | some authority ↦
            chain (u.parse_value (host_text authority))
              (λ value. ok (insert_absent "host" value request, record { bytes = some [] }))
        | none ↦ ok (request, record { bytes = some [] })
      ])

  -- `TestRequestImpl` for a text
  unfoldable pub text_request : String → Outcome String (k.Request × ReqBody)
  unfolding uri_request
  text_request text = chain (u.parse_uri text) uri_request

  -- `TestRequestImpl for Request<T>`, of the request without its body and the body
  unfoldable pub body_request :
      {T : Type 0} → IntoReqBody T → k.Request × T → Outcome String (k.Request × ReqBody)
  unfolding insert_absent
  body_request into (request, body) = elim (into.content_type body) [
    | some mime ↦ elim (u.parse_value mime) [
      | ok value ↦ ok (insert_absent "content-type" value request, into.into_req_body body)
      | err _ ↦ panicked
      | panicked ↦ panicked
    ]
    | none ↦ ok (request, into.into_req_body body)
  ]

  -- `TestRequestImpl` for builders, of what building the request without its body gives
  unfoldable pub built_request : Outcome String k.Request → Outcome String (k.Request × ReqBody)
  built_request built = chain built (λ request. ok (request, record { bytes = some [] }))

  -- `TestRequestImpl for Result<T, E>`
  unfoldable pub result_request :
      {T : Type 0}
      → (T → Outcome String (k.Request × ReqBody))
      → Outcome String T
      → Outcome String (k.Request × ReqBody)
  result_request into r = chain r into
