-- ===== src/Cookies.antt =====
-- src/service.rs: `Context::cookies`, which parses the Cookie headers of the request at its first
-- call. The crate `cookie` and the header map are parameters.
pub mod Parsing
pub mod Headers
use finch_router.Prelude.{
  ℕ, String, List, [], ◌∷◌, Option, none, some, Outcome, ok, err, panicked, map, ◌==◌,
  if◌then◌else◌,
}
use finch_router.Crates.{Crates}
use finch_router.Error.{Error, bad_request}
use finch_router.Context.{Context}
use finch_router.Syntax.PathLiteral.{trim_start, trim_end}

-- What the code calls of `cookie` and of `http::HeaderMap`, over the types of the other crates. An
-- error is the text that it displays.
pub record CookieCrate (k : Crates) : Type 1 where
  pub Cookie : Type 0
  -- `CookieJar::new` and `CookieJar::add_original`
  pub new_jar : k.CookieJar
  pub add_original : Cookie → k.CookieJar → k.CookieJar
  -- `Cookie::parse_encoded`
  pub parse_encoded : List ℕ → Outcome String Cookie
  -- `headers().get_all(COOKIE)`, and `HeaderValue::to_str`
  pub cookie_headers : k.Request → List k.HeaderValue
  pub to_str : k.HeaderValue → Outcome String (List ℕ)

-- `split(';')`
abbrev extend_first : ℕ → List (List ℕ) → List (List ℕ)
extend_first c [] = (c ∷ []) ∷ []
extend_first c (p ∷ ps) = (c ∷ p) ∷ ps

unfoldable pub split_semicolon : List ℕ → List (List ℕ)
split_semicolon [] = [] ∷ []
split_semicolon (c ∷ s) =
    let rest = split_semicolon s in if c == 59 then [] ∷ rest else extend_first c rest

module _ {k : Crates} (ck : CookieCrate k) where
  -- `split(';').map(|s| s.trim())`
  unfoldable pub cookie_pieces : List ℕ → List (List ℕ)
  unfolding split_semicolon trim_start trim_end
  cookie_pieces s = map (λ p. trim_start (trim_end p)) (split_semicolon s)

  -- the inner loop; the jar is changed in place, so an error leaves the cookies added before it
  unfoldable pub add_cookies : List (List ℕ) → k.CookieJar → Outcome Error (Unit {0}) × k.CookieJar
  add_cookies [] jar = (ok tt, jar)
  add_cookies (s ∷ ss) jar = elim (ck.parse_encoded s) [
    | ok cookie ↦ add_cookies ss (ck.add_original cookie jar)
    | err cause ↦ (err (bad_request cause), jar)
    | panicked ↦ (panicked, jar)
  ]

  -- the outer loop
  unfoldable pub add_headers :
      List k.HeaderValue → k.CookieJar → Outcome Error (Unit {0}) × k.CookieJar
  unfolding add_cookies cookie_pieces
  add_headers [] jar = (ok tt, jar)
  add_headers (h ∷ hs) jar = elim (ck.to_str h) [
    | ok s ↦
        let (r, jar') = add_cookies (cookie_pieces s) jar in
        elim r [ ok _ ↦ add_headers hs jar' | err e ↦ (err e, jar') | panicked ↦ (panicked, jar') ]
    | err cause ↦ (err (bad_request cause), jar)
    | panicked ↦ (panicked, jar)
  ]

  -- `Context::cookies`; the new jar is stored before the headers are parsed
  unfoldable pub cookies : Context k → Outcome Error k.CookieJar × Context k
  unfolding add_headers
  cookies cx = elim cx.cookies [
    | some jar ↦ (ok jar, cx)
    | none ↦
        let (r, jar) = add_headers (ck.cookie_headers cx.request) ck.new_jar in
        let cx' : Context k = record cx { cookies = some jar } in
        elim r [ ok _ ↦ (ok jar, cx') | err e ↦ (err e, cx') | panicked ↦ (panicked, cx') ]
  ]
