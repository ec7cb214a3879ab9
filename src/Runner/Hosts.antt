-- ===== src/Runner/Hosts.antt =====
-- src/test.rs: the header Host of a request that the runner makes of a URI.
use text.Mathlib.Text.{◌==◌ as str_eq}
use finch_router.Prelude.{
  ◌≡◌, ap, ◌∙◌, String, List, [], ◌∷◌, ◌++◌, Option, Option-cases, none, some, Outcome, ok,
  Outcome-cases, inl, inr, true, if◌then◌else◌, unwrap_or, chain, arith,
}
use finch_router.Crates.{Crates}
use finch_router.Output.{HeaderCrate}
use finch_router.Runner.{
  ReqBody, RequestHeaders, TestRunner, defaults, prepare_headers, prepare_request,
}
use finch_router.Runner.Headers.{paired, or_default, get_all-prepare_headers}
use finch_router.Runner.Requests.{UriCrate, insert_absent, host_text, uri_request}
use finch_router.Service.Assembly.{HeaderLaws}

module _ {k : Crates} (h : HeaderCrate k) (q : RequestHeaders k) (u : UriCrate k)
    (laws : HeaderLaws h)
    (get_all-insert : (name other : String) (value : k.HeaderValue) (headers : k.HeaderMap)
      → h.get_all name (h.insert other value headers)
        ≡ (if str_eq name other then value ∷ [] else h.get_all name headers))
    (headers-set_headers : (headers : k.HeaderMap) (request : k.Request)
      → q.headers (q.set_headers headers request) ≡ headers) where
  -- the Host of a URI: none, or the value of its authority
  abbrev pub hosts : Option (String × Option String) → Outcome String (List k.HeaderValue)
  hosts none = ok []
  hosts (some authority) =
      chain (u.parse_value (host_text h q u authority)) (λ value. ok (value ∷ []))

  get_all-insert_absent :
      (value : k.HeaderValue) (request : k.Request)
      → h.get_all "host" (q.headers request) ≡ []
      → h.get_all "host" (q.headers (insert_absent h q u "host" value request)) ≡ value ∷ []
  unfolding insert_absent
  get_all-insert_absent value request none_yet = ground (
    arith,
    none_yet,
    headers-set_headers (h.insert "host" value (q.headers request)) request,
    get_all-insert "host" "host" value (q.headers request),
  )

  abbrev pub no_bytes : ReqBody
  no_bytes = record { bytes = some [] }

  -- What the URI is converted to has the Host of its authority, where it has one.
  get_all-uri_request :
      (uri : u.Uri) {request : k.Request} {values : List k.HeaderValue}
      → u.get (unwrap_or "/" (u.path_and_query uri)) ≡ ok request
      → h.get_all "host" (q.headers request) ≡ []
      → hosts (u.authority_part uri) ≡ ok values
      → (made : k.Request) × (uri_request h q u uri ≡ ok (made, no_bytes))
        × (h.get_all "host" (q.headers made) ≡ values)
  unfolding uri_request
  get_all-uri_request uri {request} got none_yet e = elim (Option-cases (u.authority_part uri)) [
    | inl absent ↦ (request, ground (arith, got, e, absent), ground (arith, none_yet, e, absent))
    | inr (authority, there) ↦ elim (Outcome-cases (u.parse_value (host_text h q u authority))) [
      | inl (value, parsed) ↦ (
        insert_absent h q u "host" value request,
        ground (arith, got, there, parsed),
        ground (arith, e, there, parsed, get_all-insert_absent value request none_yet),
      )
      | inr (inl (_, failed)) ↦ absurd (ground (arith, e, there, failed))
      | inr (inr failed) ↦ absurd (ground (arith, e, there, failed))
    ]
  ]

  -- Where the header map keeps what it is given, a request can be built for the path of a URI, without
  -- a Host, and the authority of the URI makes a header value, the request that the runner dispatches
  -- has as its Hosts that of the authority, if any, then those of the default headers, and the local
  -- host where there are neither.
  pub prepare_request-uri_request :
      {A T : Type 0} (r : TestRunner k A T) (uri : u.Uri) {request : k.Request}
      {values : List k.HeaderValue}
      → u.get (unwrap_or "/" (u.path_and_query uri)) ≡ ok request
      → h.get_all "host" (q.headers request) ≡ []
      → hosts (u.authority_part uri) ≡ ok values
      → (sent : k.Request) × (prepare_request h q r (uri_request h q u uri) ≡ ok (sent, no_bytes))
        × (h.get_all "host" (q.headers sent)
            ≡ or_default true
                (h.from_static "localhost")
                (values ++ paired "host" (defaults h q r)))
  unfolding prepare_request
  prepare_request-uri_request r uri got none_yet e =
      let (made, converted, its_hosts) = get_all-uri_request uri got none_yet e in
      let headers = prepare_headers h q r (q.headers made) in
      (
        q.set_headers headers made,
        ap (prepare_request h q r) converted,
        ap (h.get_all "host") (headers-set_headers headers made)
            ∙ get_all-prepare_headers h q laws get_all-insert r "host" (q.headers made)
            ∙ ground (arith, its_hosts),
      )
