-- ===== src/Tests/Responses.antt =====
-- Responses with their headers, for the request of `/a/bc`.
use text.Mathlib.Text.{◌==◌ as str_eq}
use finch_router.Prelude.{
  ℕ, String, ◌≡◌, ◌⊎◌, refl, List, [], ◌∷◌, ◌++◌, Option, none, some, ok, err, if◌then◌else◌, inl,
}
use finch_router.Common.{One, one}
use finch_router.Crates.{Crates, Method, get}
use finch_router.Context.{Context, take_body}
use finch_router.Action.{Endpoint}
use finch_router.Body.{poll_raw, default_preflight}
use finch_router.Cookies.{CookieCrate}
use finch_router.Ext.Future.Settling.{Resolves, resolved}
use finch_router.Output.{
  HeaderCrate, HttpResponse, IntoResponse, binary_response, one_response, typed_response,
}
use finch_router.Service.{AppFuture, poll_apply, in_flight}
use finch_router.Service.Response.{DeltaCrate, encode_cookie, assemble, poll_response}
use finch_router.Service.Assembly.{HeaderLaws, answer, get_all-assemble, poll_response-Resolves}
use finch_router.Tests.{plain, a_bc}

-- the headers of a request by GET are those of a handshake, and any other has none
abbrev handshake_header : Method → String → Option String
handshake_header get name =
    if str_eq name "connection"
    then some "Upgrade"
    else if str_eq name "upgrade"
    then some "websocket"
    else if str_eq name "sec-websocket-version"
    then some "13"
    else if str_eq name "sec-websocket-key"
    then some "key"
    else none
handshake_header _ name = none

-- a header map is a function, of which two names are drained
abbrev pub headed : Crates
headed = record plain {
  CookieJar = List String;
  HeaderMap = String → List String;
  header = λ r name. handshake_header r.0 name;
}

abbrev pub headers : HeaderCrate headed
headers = record {
  new_headers = λ _. [];
  insert = λ name v m n. if str_eq n name then v ∷ [] else m n;
  append = λ name v m n. m n ++ (if str_eq n name then v ∷ [] else []);
  extend = λ name vs m n. m n ++ (if str_eq n name then vs else []);
  drain = λ m. ("set-cookie", m "set-cookie") ∷ ("x-id", m "x-id") ∷ [];
  get_all = λ n m. m n;
  from_static = λ s. s;
  from_number = λ _. "a number";
}

abbrev pub headers_laws : HeaderLaws headers
headers_laws = record {
  get_all-append = λ name other value m. refl;
  get_all-extend = λ name other values m. refl;
}

abbrev pub jar_of_texts : CookieCrate headed
jar_of_texts = record {
  Cookie = String;
  new_jar = [];
  add_original = λ c jar. jar;
  parse_encoded = λ _. err "none";
  cookie_headers = λ _. [];
  to_str = λ _. err "none";
}

abbrev pub changes : DeltaCrate jar_of_texts
changes = record { delta = λ jar. jar; encoded = λ c. c; from_shared_unchecked = λ s. s }

abbrev typed : HttpResponse headed (List ℕ)
typed = typed_response headers "text/plain" (1 ∷ [])

abbrev changed : Context headed
changed = record {
  request = (get, a_bc);
  cookies = some ("sid=1" ∷ []);
  response_headers = some (λ n. if str_eq n "x-id" then "7" ∷ [] else []);
}

get_all-assemble_example :
    let sent = assemble headers changes typed changed in
    (sent.0.headers "set-cookie" ≡ "sid=1" ∷ [])
    × (sent.0 ≡ record typed { headers = sent.0.headers })
    × (sent.1 ≡ record changed { response_headers = none })
unfolding encode_cookie
get_all-assemble_example = get_all-assemble headers changes headers_laws "set-cookie" typed changed

abbrev flying : Option (List ℕ) → AppFuture headed (List ℕ) (Unit {0})
flying body = record { state = in_flight tt; context = changed; body = body }

abbrev raw_action : Endpoint headed (List ℕ) (Unit {0}) (One (List ℕ))
raw_action = record {
  action = tt;
  behaviour = record { preflight = default_preflight; poll_action = poll_raw };
}

abbrev served : HttpResponse headed (String ⊎ List ℕ) × AppFuture headed (List ℕ) (Unit {0})
served =
    answer headers changes raw_action.behaviour (one_response (binary_response headers))
      (inl (one (1 ∷ []))) (flying none)

poll_response-Resolves_example :
    Resolves
      (poll_response headers changes raw_action.behaviour (one_response (binary_response headers)))
      (ok served.0)
      served.1
      (flying (some (1 ∷ [])))
unfolding poll_raw take_body poll_apply
poll_response-Resolves_example =
    poll_response-Resolves headers changes raw_action.behaviour
      (one_response (binary_response headers)) (inl (one (1 ∷ []))) (resolved refl)

abbrev pub no_body : IntoResponse headed (Unit {0}) (Unit {0})
no_body _ _ = record { status = 204; headers = λ _. []; extension = none; body = tt }
