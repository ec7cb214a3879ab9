-- ===== src/Error.antt =====
-- src/error.rs: the error values, their HTTP status, and the response built from them.
-- `Error` is a boxed `dyn HttpError`; each implementor in the repository is a constructor here, and
-- an implementor of a user is `user`, by the status and the text that it reports; it keeps the
-- `to_response` of the trait.
-- A `StatusCode` is its number. A `Display` value is the text that it prints.
pub mod Downcast
use finch_router.Prelude.{ℕ, String, Option, none, some}
use finch_router.Crates.{IoErrorKind}

pub data Error : Type 0 where
  -- io::Error
  io : IoErrorKind → String → Error
  -- failure::Error and failure::SyncFailure
  failure : String → Error
  -- `ErrorMessage` of `err_msg`, and `Failure` of `fail`: message and status
  error_message : String → ℕ → Error
  failed : String → ℕ → Error
  -- endpoint::ext::NotMatched: the errors of the two endpoints
  not_matched : Error → Error → Error
  -- endpoint::syntax::encoded
  decode_encoded_str : Error
  parse_encoded_str : String → Error
  -- any other implementor of `HttpError` that keeps `to_response`
  user : String → ℕ → Error

-- `HttpError::status_code` of each implementor
unfoldable pub status_code : Error → ℕ
status_code (io IoErrorKind.not_found _) = 404
status_code (io IoErrorKind.permission_denied _) = 403
status_code (io IoErrorKind.other_kind _) = 500
status_code (failure _) = 500
status_code (error_message _ status) = status
status_code (failed _ status) = status
status_code (not_matched _ _) = 404
status_code decode_encoded_str = 400
status_code (parse_encoded_str _) = 400
status_code (user _ status) = status

-- `Display` of each implementor
unfoldable pub to_string : Error → String
to_string (io _ msg) = msg
to_string (failure msg) = msg
to_string (error_message msg _) = msg
to_string (failed msg _) = msg
to_string (not_matched _ _) = "not matched"
to_string decode_encoded_str = "failed to decode a percent encoded string to UTF-8"
to_string (parse_encoded_str cause) = cause
to_string (user msg _) = msg

abbrev pub err_msg : String → ℕ → Error
err_msg msg status = error_message msg status

abbrev pub fail : String → ℕ → Error
fail error status = failed error status

-- the functions that `define_error_fn!` declares
abbrev pub bad_request : String → Error
bad_request msg = err_msg msg 400

abbrev pub unauthorized : String → Error
unauthorized msg = err_msg msg 401

abbrev pub forbidden : String → Error
forbidden msg = err_msg msg 403

abbrev pub not_found : String → Error
not_found msg = err_msg msg 404

abbrev pub method_not_allowed : String → Error
method_not_allowed msg = err_msg msg 405

abbrev pub internal_server_error : String → Error
internal_server_error msg = err_msg msg 500

-- `http::Response<T>`: the status, the body, and the error that `into_response_with` puts among
-- the extensions. Its other headers are those of the service.
pub record Response (T : Type 0) : Type 0 where
  pub status : ℕ
  pub extension : Option Error
  pub body : T

-- `HttpError::to_response`: no implementor in the repository overrides it, and `user` is an
-- implementor that does not
unfoldable pub to_response : {Q : Type 0} → Error → Q → Response (Unit {0})
unfolding status_code
to_response e request = record { status = status_code e; extension = none; body = tt }

-- `Error::into_response_with`; the closure reads the error and the request, and may write to the
-- response
unfoldable pub into_response_with :
    {Q T : Type 0}
    → Error
    → Q
    → (Error → Q → Response (Unit {0}) → T × Response (Unit {0}))
    → Response T
unfolding to_response
into_response_with e request f =
    let (body, response) = f e request (to_response e request) in
    record { status = response.status; extension = some e; body = body }

-- `IntoResponse for Error`
unfoldable pub into_response : {Q : Type 0} → Error → Q → Response String
unfolding into_response_with to_string
into_response e request =
    into_response_with e request (λ err' _ response. (to_string err', response))
