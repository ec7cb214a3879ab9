-- ===== src/Tests/Cookies.antt =====
-- The header `a;!`, whose second piece is not a cookie, and the headers `a; b` and `c`.
use finch_router.Prelude.{
  ℕ, String, ◌≡◌, refl, List, [], ◌∷◌, ◌++◌, none, some, Outcome, ok, err, ◌==◌, inr, if◌then◌else◌,
}
use finch_router.Crates.{Crates, get}
use finch_router.Context.{Context}
use finch_router.Cookies.{CookieCrate, cookies}
use finch_router.Cookies.Headers.{Padded, cookies-Reads}

-- A request is its Cookie headers, a cookie is a character, and a jar is a list of cookies.
abbrev with_headers : Crates
with_headers = record {
  Request = List (List ℕ);
  method = λ _. get;
  path = λ _. 47 ∷ [];
  query = λ _. none;
  HeaderValue = List ℕ;
  header = λ _ _. none;
  CookieJar = List ℕ;
  HeaderMap = Unit {0};
  percent_encode = λ s. s;
  percent_decode = λ s. some s;
}

abbrev letter : List ℕ → Outcome String ℕ
letter [] = err "empty"
letter (c ∷ _) = if c == 33 then err "no cookie" else ok c

abbrev letters : CookieCrate with_headers
letters = record {
  Cookie = ℕ;
  new_jar = [];
  add_original = λ c jar. jar ++ c ∷ [];
  parse_encoded = letter;
  cookie_headers = λ r. r;
  to_str = λ h. ok h;
}

abbrev at_first : List (List ℕ) → Context with_headers
at_first headers = record { request = headers; cookies = none; response_headers = none }

-- `a; b` and `c`
abbrev two_headers : List (List ℕ)
two_headers = (97 ∷ 59 ∷ 32 ∷ 98 ∷ []) ∷ (99 ∷ []) ∷ []

abbrev padded : List ℕ → ℕ → Padded
padded before c = record { before = before; piece = c ∷ []; after = [] }

cookies-Reads_example : (cookies letters (at_first two_headers)).0 ≡ ok (97 ∷ 98 ∷ 99 ∷ [])
cookies-Reads_example =
    cookies-Reads letters (at_first two_headers)
      (inr (padded [] 97, padded (32 ∷ []) 98 ∷ []) ∷ inr (padded [] 99, []) ∷ []) refl
      (
        refl,
        ((tt, tt, (refl, tt), (refl, refl)), (((refl, tt), tt, (refl, tt), (refl, refl)), tt)),
        (refl, ((tt, tt, (refl, tt), (refl, refl)), tt), tt),
      )
