-- ===== src/Tests/Sessions.antt =====
-- A jar of one process, and a store.
use text.Mathlib.Text.{◌==◌ as str_eq}
use text.Mathlib.TextEquality.{eq_iff}
use mathlib.Core.Option
use finch_router.Prelude.{
  inl, ℕ, zero, suc, String, ◌≡◌, refl, List, [], ◌∷◌, Bool, false, Option, none, some, Outcome, ok,
  err, panicked, if◌then◌else◌, arith,
}
use finch_router.Finchers.{Finchers, JarLaws}
use finch_router.Action.{Async, ready, not_ready}
use finch_router.Ext.Future.Settling.{Resolves, resolved, pending}
use finch_router.Sessions.{UuidCrate, UuidLaws, RawSession, writing, with_session, poll_with}
use finch_router.Sessions.With.{with_session-Resolves}
use finch_router.Sessions.InMemory.{Storage, InMemorySession, map_get, read_session, write_impl}
use finch_router.Sessions.InMemory.Laws.{read_session-write_impl}
use finch_router.Sessions.InMemory.Sharing.{others-write_impl}
use finch_router.Sessions.Cookie.{
  CookieBuilders, CookieBackend, CookieSession, signed, new_cookie_backend, write_cookie_session,
  read_cookie_session,
}
use finch_router.Sessions.Cookie.Laws.{BuilderLaws, read_cookie_session-write_cookie_session}

-- A jar is a function from names to values, and an input is its jar, or the error of its cookies.
abbrev pub NameJar : Type 0
NameJar = String → Option String

abbrev pub tiny : Finchers
tiny = record {
  Error = String;
  bad_request = λ s. s;
  fail = λ s. s;
  from_failure = λ s. s;
  Input = Outcome String NameJar;
  CookieJar = NameJar;
  cookies = λ i. (i, i);
  put_jar = λ jar _. ok jar;
  Cookie = String × String;
  get = λ name jar. Option.map (λ v. (name, v)) (jar name);
  add = λ c jar n. if str_eq n c.0 then some c.1 else jar n;
  remove = λ c jar n. if str_eq n c.0 then none else jar n;
  new_cookie = λ name value. (name, value);
  named = λ name. (name, "");
  cookie_value = λ c. c.1;
}

pub found_again :
    (name value : String) (jar : NameJar)
    → tiny.get name (tiny.add (name, value) jar) ≡ some (name, value)
found_again name value jar = ground (arith, eq_iff name name)

pub not_found_again :
    (name : String) (jar : NameJar) → tiny.get name (tiny.remove (name, "") jar) ≡ none
not_found_again name jar = ground (arith, eq_iff name name)

abbrev pub tiny_laws : JarLaws tiny
tiny_laws = record {
  cookies-put_jar = λ jar input. refl;
  get-add = λ name value jar. ((name, value), found_again name value jar, refl);
  get-remove = not_found_again;
}

abbrev pub texts : UuidCrate
texts = record { Uuid = String; uuid_eq = str_eq; parse_uuid = λ s. ok s; uuid_to_string = λ s. s }

abbrev pub texts_laws : UuidLaws texts
texts_laws = record { parse-to_string = λ id. refl; uuid_eq_iff = eq_iff }

abbrev pub no_cookies : tiny.Input
no_cookies = ok λ _. none

abbrev one_stored : Bool → Storage tiny texts
one_stored poisoned = record { poisoned = poisoned; inner = ("a", "x") ∷ [] }

abbrev held : Option String → Option String → InMemorySession tiny texts
held id value = record { session_id = id; value = value }

read_session-write_impl_example :
    let (r, st) = write_impl tiny texts "n" (held none (some "v")) (no_cookies, one_stored false) in
    (r ≡ ok tt)
    × (map_get str_eq "n" st.1.inner ≡ some "v")
    × (read_session tiny texts st ≡ (ok (held (some "n") (some "v")), st))
read_session-write_impl_example =
    read_session-write_impl tiny texts tiny_laws texts_laws "n" (held none (some "v"))
      (one_stored false) no_cookies no_cookies (λ _. none) (inl λ e. ground (arith, e)) refl refl

others-write_impl_example :
    map_get str_eq "a"
      (write_impl tiny texts "n" (held none (some "v")) (no_cookies, one_stored false)).1.1.inner
    ≡ map_get str_eq "a" (one_stored false).inner
others-write_impl_example =
    others-write_impl tiny texts texts_laws "n" "a" (held none (some "v")) no_cookies
      (one_stored false) (λ e. ground (arith, e, eq_iff "a" "n"))

-- A builder is the cookie that it builds; signing and encrypting are left out.
abbrev builders : CookieBuilders tiny
builders = record {
  Key = ℕ;
  SameSite = ℕ;
  Duration = ℕ;
  signed_get = λ _. tiny.get;
  signed_add = λ _. tiny.add;
  signed_remove = λ _. tiny.remove;
  private_get = λ _. tiny.get;
  private_add = λ _. tiny.add;
  private_remove = λ _. tiny.remove;
  Builder = String × String;
  build = λ name value. (name, value);
  path = λ _ b. b;
  secure = λ _ b. b;
  http_only = λ _ b. b;
  domain = λ _ b. b;
  same_site = λ _ b. b;
  max_age = λ _ b. b;
  finish = λ b. b;
}

built_again :
    {name value : String} {c : String × String} (jar : NameJar)
    → c ≡ (name, value)
    → (d : String × String) × (tiny.get name (tiny.add c jar) ≡ some d) × (d.1 ≡ value)
built_again {name = name} {value = value} jar h =
    ((name, value), rw h (found_again name value jar), refl)

abbrev builders_laws : BuilderLaws builders
builders_laws = record {
  Builds = λ name value b. b ≡ (name, value);
  build-Builds = λ name value. refl;
  path-Builds = λ _ h. h;
  secure-Builds = λ _ h. h;
  http_only-Builds = λ _ h. h;
  domain-Builds = λ _ h. h;
  same_site-Builds = λ _ h. h;
  max_age-Builds = λ _ h. h;
  get-add = built_again;
  signed_get-signed_add = λ key. built_again;
  private_get-private_add = λ key. built_again;
  signed_get-signed_remove = λ key. not_found_again;
  private_get-private_remove = λ key. not_found_again;
}

abbrev signed_backend : CookieBackend builders
signed_backend = new_cookie_backend builders (signed 7)

read_cookie_session-write_cookie_session_example :
    let s : CookieSession builders = record { config = signed_backend.config; value = some "v" } in
    let (r, left) = write_cookie_session builders s no_cookies in
    (r ≡ ok tt) × (read_cookie_session builders signed_backend left ≡ (ok s, left))
read_cookie_session-write_cookie_session_example =
    read_cookie_session-write_cookie_session builders tiny_laws builders_laws
      (record { config = signed_backend.config; value = some "v" }) signed_backend no_cookies
      no_cookies (λ _. none) refl refl

-- a session that is written to a log, and closures that set it
abbrev logged : RawSession tiny (List String) String ℕ
logged = record {
  raw_get = λ s. some s;
  raw_set = λ v _. v;
  raw_remove = λ _. "";
  write = λ s st. (ok 1, s ∷ st);
  poll_write = λ n. elim n [ zero ↦ (ok (ready tt), 0) | suc n' ↦ (ok not_ready, n') ];
}

abbrev at_once : Outcome String ℕ → Outcome String (Async ℕ) × Outcome String ℕ
at_once r = (elim r [ ok x ↦ ok (ready x) | err e ↦ err e | panicked ↦ panicked ], r)

with_session-Resolves_example :
    Resolves
      (poll_with logged at_once)
      (ok 5)
      (writing 0 5, "new" ∷ [])
      (with_session (λ s. (ok 5, "new")) "old", [])
with_session-Resolves_example =
    with_session-Resolves logged at_once (λ s. (ok 5, "new")) "old" [] ("new" ∷ []) (resolved refl)
      refl (pending refl (resolved refl))
