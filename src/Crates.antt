-- ===== src/Crates.antt =====
-- The third-party crates that the code calls (`http`, `cookie`, `percent-encoding`), as one record
-- of types and functions. Nothing is assumed of them here: a lemma that relies on a documented
-- behaviour names it as a hypothesis.
use finch_router.Prelude.{ℕ, List, Option, String}

-- `http::Method`: the nine standard methods, and an extension method by its name.
pub data Method : Type 0 where
  get post put delete head options connect patch trace : Method
  extension : String → Method

-- `io::ErrorKind`, as far as the code tells its values apart.
pub data IoErrorKind : Type 0 where
  not_found permission_denied other_kind : IoErrorKind

pub record Crates : Type 1 where
  -- `http::Request<()>`, by the accessors that the code calls on it
  pub Request : Type 0
  pub method : Request → Method
  -- `request.uri().path()`, as bytes
  pub path : Request → List ℕ
  -- `request.uri().query()`
  pub query : Request → Option (List ℕ)
  -- `http::HeaderValue`, and `request.headers().get(name)`
  pub HeaderValue : Type 0
  pub header : Request → String → Option HeaderValue
  -- `cookie::CookieJar` and `http::HeaderMap`
  pub CookieJar : Type 0
  pub HeaderMap : Type 0
  -- `percent_encode(s, SEGMENT_ENCODE_SET)`, and `percent_decode(s).decode_utf8()`, where `none`
  -- is its `Utf8Error`
  pub percent_encode : List ℕ → List ℕ
  pub percent_decode : List ℕ → Option (List ℕ)
