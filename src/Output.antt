-- ===== src/Output.antt =====
-- src/output.rs and src/output: the trait `IntoResponse` and its implementors. The header map of
-- `http` and the printing of `serde_json` are parameters.
pub mod Shapes
use Prim.Native.String.{◌++◌ as str_append}
use finch_router.Prelude.{ℕ, String, List, Option, none, some, ◌⊎◌, inl, inr}
use finch_router.Common.{One}
use finch_router.Crates.{Crates}
use finch_router.Error.{Error, into_response}
use finch_router.Files.{Tokio, NamedFile, FileStream, new_stream}

-- What the code calls of `http::HeaderMap` and of `http::HeaderValue`.
pub record HeaderCrate (k : Crates) : Type 0 where
  pub new_headers : k.HeaderMap
  pub insert : String → k.HeaderValue → k.HeaderMap → k.HeaderMap
  pub append : String → k.HeaderValue → k.HeaderMap → k.HeaderMap
  -- `extend` with the values of one name
  pub extend : String → List k.HeaderValue → k.HeaderMap → k.HeaderMap
  -- `drain`: the names with their values
  pub drain : k.HeaderMap → List (String × List k.HeaderValue)
  pub get_all : String → k.HeaderMap → List k.HeaderValue
  -- `HeaderValue::from_static`, and the conversion of a number
  pub from_static : String → k.HeaderValue
  pub from_number : ℕ → k.HeaderValue

-- `http::Response<T>` with its headers, and the error among its extensions
pub record HttpResponse (k : Crates) (T : Type 0) : Type 0 where
  pub status : ℕ
  pub headers : k.HeaderMap
  pub extension : Option Error
  pub body : T

-- `Response::map`
abbrev pub map_body : {k : Crates} {T U : Type 0} → (T → U) → HttpResponse k T → HttpResponse k U
map_body op r = record {
  status = r.status;
  headers = r.headers;
  extension = r.extension;
  body = op r.body;
}

-- The trait `IntoResponse`, of a type with its `Body`
abbrev pub IntoResponse : Crates → Type 0 → Type 0 → Type 0
IntoResponse k T B = T → k.Request → HttpResponse k B

module _ {k : Crates} {T B : Type 0} where
  -- `IntoResponse for (T,)`
  unfoldable pub one_response : IntoResponse k T B → IntoResponse k (One T) B
  one_response into x request = into x.0 request

  -- `IntoResponse for Either<L, R>`
  unfoldable pub either_response :
      {U C : Type 0} → IntoResponse k T B → IntoResponse k U C → IntoResponse k (T ⊎ U) (B ⊎ C)
  either_response into into' (inl l) request = map_body inl (into l request)
  either_response into into' (inr r) request = map_body inr (into' r request)

  -- `IntoResponse for Created<T>`
  unfoldable pub created_response : IntoResponse k T B → IntoResponse k T B
  created_response into x request = record (into x request) { status = 201 }

  -- `IntoResponse for Status<T>`; the value has its status beside it
  unfoldable pub status_response : IntoResponse k T B → IntoResponse k (T × ℕ) B
  status_response into x request = record (into x.0 request) { status = x.1 }

-- `IntoResponse for Response<T>`
unfoldable pub itself_response : {k : Crates} {T : Type 0} → IntoResponse k (HttpResponse k T) T
itself_response r request = r

-- `Redirect`
pub record Redirect (k : Crates) : Type 0 where
  pub status : ℕ
  pub location : Option k.HeaderValue

module _ {k : Crates} (h : HeaderCrate k) where
  -- `Response::new`
  abbrev pub new_response : {T : Type 0} → T → HttpResponse k T
  new_response body = record {
    status = 200;
    headers = h.new_headers;
    extension = none;
    body = body;
  }

  -- `IntoResponse for ()`; the body has no bytes
  unfoldable pub unit_response : IntoResponse k (Unit {0}) (List ℕ)
  unit_response x request = record (new_response List.[]) { status = 204 }

  -- `IntoResponse for StatusCode`
  unfoldable pub status_code_response : IntoResponse k ℕ (List ℕ)
  status_code_response status request = record (new_response List.[]) { status = status }

  -- `IntoResponse for NoContent`
  unfoldable pub no_content_response : IntoResponse k (Unit {0}) (Unit {0})
  no_content_response x request = record (new_response tt) { status = 204 }

  -- `Redirect::new` and `Redirect::location`
  unfoldable pub new_redirect : ℕ → Redirect k
  new_redirect status = record { status = status; location = none }

  unfoldable pub set_location : String → Redirect k → Redirect k
  set_location location r = record r { location = some (h.from_static location) }

  -- `impl_constructors!`, for a status, and the constructors that it declares
  unfoldable pub redirect_with : ℕ → String → Redirect k
  redirect_with status location = record {
    status = status;
    location = some (h.from_static location);
  }

  abbrev pub moved_permanently : String → Redirect k
  moved_permanently location = redirect_with 301 location

  abbrev pub found : String → Redirect k
  found location = redirect_with 302 location

  abbrev pub see_other : String → Redirect k
  see_other location = redirect_with 303 location

  abbrev pub temporary_redirect : String → Redirect k
  temporary_redirect location = redirect_with 307 location

  abbrev pub permanent_redirect : String → Redirect k
  permanent_redirect location = redirect_with 308 location

  -- `Redirect::not_modified`
  abbrev pub not_modified : Redirect k
  not_modified = new_redirect 304

  -- `IntoResponse for Redirect`
  unfoldable pub redirect_response : IntoResponse k (Redirect k) (Unit {0})
  redirect_response r request =
      let response : HttpResponse k (Unit {0}) = record (new_response tt) { status = r.status } in
      elim r.location [
        | some location ↦ record response {
          headers = h.insert "location" location response.headers;
        }
        | none ↦ response
      ]

  -- a response to a body with a content type
  abbrev pub typed_response : {T : Type 0} → String → T → HttpResponse k T
  typed_response content_type body = record (new_response body) {
    headers = h.insert "content-type" (h.from_static content_type) h.new_headers;
  }

  -- `make_text_response`, and `IntoResponse` for the types of text
  unfoldable pub text_response : {T : Type 0} → IntoResponse k T T
  text_response body request = typed_response "text/plain; charset=utf-8" body

  -- `make_binary_response`, and `IntoResponse` for the types of bytes
  unfoldable pub binary_response : {T : Type 0} → IntoResponse k T T
  binary_response body request = typed_response "application/octet-stream" body

  -- `IntoResponse for Debug<T>`; `format` is `format!("{:?}", _)`
  unfoldable pub debug_response : {T : Type 0} → (T → String) → IntoResponse k T String
  debug_response format x request = typed_response "text/plain; charset=utf-8" (format x)

  -- `IntoResponse for Json<T>`: `to_text` is `serde_json::to_string`, whose error is on the right,
  -- and `error_text` prints the object of the code 500 and a message
  unfoldable pub json_response :
      {T : Type 0} → (T → String ⊎ String) → (String → String) → IntoResponse k T String
  json_response to_text error_text x request = elim (to_text x) [
    | inl body ↦ typed_response "application/json" body
    | inr e ↦
        record (typed_response "application/json"
          (error_text (str_append "failed to construct JSON response: " e))) { status = 500 }
  ]

  -- `IntoResponse for Value`; `to_text` is its `to_string`
  unfoldable pub value_response : {V : Type 0} → (V → String) → IntoResponse k V String
  value_response to_text v request = typed_response "application/json" (to_text v)

  -- `IntoResponse for Error`, whose response has no headers
  unfoldable pub error_response : IntoResponse k Error String
  unfolding into_response
  error_response e request =
      let r = into_response e request in
      record { status = r.status; headers = h.new_headers; extension = r.extension; body = r.body }

  -- `IntoResponse for NamedFile`; `guess_mime_type` is of the crate `mime_guess`
  unfoldable pub file_response :
      (t : Tokio) → (t.FilePath → String) → IntoResponse k (NamedFile t) (FileStream t)
  unfolding new_stream
  file_response t guess_mime_type file request =
      let headers =
        h.append "content-length" (h.from_number (t.file_len file.meta)) h.new_headers in
      record (new_response (new_stream t file.file file.meta)) {
        headers = h.append "content-type" (h.from_static (guess_mime_type file.path)) headers;
      }
