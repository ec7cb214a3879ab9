-- ===== src/Cookies/Parsing.antt =====
-- src/service.rs: what `Context::cookies` returns, at its first call and after it.
use finch_router.Prelude.{
  ℕ, ◌≡◌, refl, List, [], ◌∷◌, ◌++◌, none, some, Outcome, ok, err, panicked, arith, Outcome-cases,
  inl, inr,
}
use finch_router.Crates.{Crates}
use finch_router.Error.{Error, bad_request}
use finch_router.Context.{Context}
use finch_router.Action.{map_ok}
use finch_router.Cookies.{CookieCrate, cookie_pieces, add_cookies, add_headers, cookies}

module _ {k : Crates} (ck : CookieCrate k) where
  -- The cookies of some pieces, and of some headers, as a list, or the first error.
  abbrev pub cookies_of : List (List ℕ) → Outcome Error (List ck.Cookie)
  cookies_of [] = ok []
  cookies_of (s ∷ ss) =
      let rest = cookies_of ss in
      elim (ck.parse_encoded s) [
        | ok cookie ↦ map_ok (λ cs. cookie ∷ cs) rest
        | err cause ↦ err (bad_request cause)
        | panicked ↦ panicked
      ]

  abbrev pub append_ok :
      Outcome Error (List ck.Cookie)
      → Outcome Error (List ck.Cookie)
      → Outcome Error (List ck.Cookie)
  append_ok (ok cs) r = map_ok (λ ds. cs ++ ds) r
  append_ok (err e) r = err e
  append_ok panicked r = panicked

  abbrev pub all_cookies : List k.HeaderValue → Outcome Error (List ck.Cookie)
  all_cookies [] = ok []
  all_cookies (h ∷ hs) =
      let rest = all_cookies hs in
      elim (ck.to_str h) [
        | ok s ↦ append_ok (cookies_of (cookie_pieces ck s)) rest
        | err cause ↦ err (bad_request cause)
        | panicked ↦ panicked
      ]

  -- a jar with cookies added in order
  abbrev pub filled : k.CookieJar → List ck.Cookie → k.CookieJar
  filled jar [] = jar
  filled jar (c ∷ cs) = filled (ck.add_original c jar) cs

  -- A loop that ends without an error has added the cookies in order; one that does not ends with
  -- the same error.
  abbrev Adds :
      Outcome Error (Unit {0}) × k.CookieJar → k.CookieJar → Outcome Error (List ck.Cookie) → Type 0
  Adds out jar (ok cs) = out ≡ (ok tt, filled jar cs)
  Adds out jar (err e) = out.0 ≡ err e
  Adds out jar panicked = out.0 ≡ panicked

  add_cookies-Adds :
      (ss : List (List ℕ)) (jar : k.CookieJar) → Adds (add_cookies ck ss jar) jar (cookies_of ss)
  unfolding add_cookies
  add_cookies-Adds [] jar = refl
  add_cookies-Adds (s ∷ ss) jar = elim (Outcome-cases (ck.parse_encoded s)) [
    | inl (c, e) ↦ ground (arith, e, add_cookies-Adds ss (ck.add_original c jar))
    | inr e ↦ ground (arith, e)
  ]

  filled-append :
      (jar : k.CookieJar) (cs ds : List ck.Cookie)
      → filled jar (cs ++ ds) ≡ filled (filled jar cs) ds
  filled-append jar [] ds = refl
  filled-append jar (c ∷ cs) ds = filled-append (ck.add_original c jar) cs ds

  add_headers-Adds :
      (hs : List k.HeaderValue) (jar : k.CookieJar)
      → Adds (add_headers ck hs jar) jar (all_cookies hs)
  unfolding add_headers
  add_headers-Adds [] jar = refl
  add_headers-Adds (h ∷ hs) jar = elim (Outcome-cases (ck.to_str h)) [
    | inr e ↦ ground (arith, e)
    | inl (s, e) ↦ elim (Outcome-cases (cookies_of (cookie_pieces ck s))) [
      | inr f ↦ ground (arith, e, f, add_cookies-Adds (cookie_pieces ck s) jar)
      | inl (cs, f) ↦ elim (Outcome-cases (all_cookies hs)) [
        | inr g ↦ ground (
          arith,
          e,
          f,
          g,
          add_cookies-Adds (cookie_pieces ck s) jar,
          add_headers-Adds hs (filled jar cs),
        )
        | inl (ds, g) ↦ ground (
          arith,
          e,
          f,
          g,
          add_cookies-Adds (cookie_pieces ck s) jar,
          add_headers-Adds hs (filled jar cs),
          filled-append jar cs ds,
        )
      ]
    ]
  ]

  -- The first call returns a new jar with the cookies of all headers added in order, or the first
  -- error among the headers and their pieces.
  pub cookies-eq-all_cookies :
      (cx : Context k)
      → cx.cookies ≡ none
      → (cookies ck cx).0 ≡ map_ok (filled ck.new_jar) (all_cookies (ck.cookie_headers cx.request))
  unfolding cookies
  cookies-eq-all_cookies cx h =
      let hs = ck.cookie_headers cx.request in
      let added = add_headers-Adds hs ck.new_jar in
      elim (Outcome-cases (all_cookies hs)) [
        | inl (cs, e) ↦ ground (arith, h, e, added)
        | inr e ↦ ground (arith, h, e, added)
      ]

  stored : Context k → k.CookieJar
  stored cx = elim cx.cookies [
    | some jar ↦ jar
    | none ↦ (add_headers ck (ck.cookie_headers cx.request) ck.new_jar).1
  ]

  cookies-stored : (cx : Context k) → (cookies ck cx).1 ≡ record cx { cookies = some (stored cx) }
  unfolding cookies stored
  cookies-stored cx = ground arith

  -- A second call is a success in the same context, also where the first one failed.
  cookies-cookies :
      (cx : Context k)
      → (jar : k.CookieJar) × ((cookies ck cx).1.cookies ≡ some jar)
        × (cookies ck (cookies ck cx).1 ≡ (ok jar, (cookies ck cx).1))
  unfolding cookies
  cookies-cookies cx =
      (stored cx, ground (arith, cookies-stored cx), ground (arith, cookies-stored cx))
