-- ===== src/Finchers.antt =====
-- The release of `finchers` that the crates finchers-session and finchers-juniper are written for,
-- as a record of types and functions, with the cookie jar that its `Input` lends. Nothing is assumed
-- of them here: a lemma that relies on a documented behaviour names it as a hypothesis.
use finch_router.Prelude.{String, Option, some, none, ok, Effect, ◌≡◌}

pub record Finchers : Type 1 where
  -- `finchers::error`: an error of a message, by its text
  pub Error : Type 0
  pub bad_request : String → Error
  pub fail : String → Error
  -- `From<failure::Error> for Error`
  pub from_failure : String → Error
  -- `finchers::input::Input`; `cookies` lends the jar, and `put_jar` writes it back changed
  pub Input : Type 0
  pub CookieJar : Type 0
  pub cookies : Effect Input Error CookieJar
  pub put_jar : CookieJar → Input → Input
  -- `cookie`: looking a cookie up by name, adding it, and removing it
  pub Cookie : Type 0
  pub get : String → CookieJar → Option Cookie
  pub add : Cookie → CookieJar → CookieJar
  pub remove : Cookie → CookieJar → CookieJar
  -- `Cookie::new`, `Cookie::named` and `Cookie::value`
  pub new_cookie : String → String → Cookie
  pub named : String → Cookie
  pub cookie_value : Cookie → String

-- What the documentation of the two crates says of the cookie jar of an input.
pub record JarLaws (f : Finchers) : Type 0 where
  -- the jar that `cookies` lends is a reference into the input
  pub cookies-put_jar :
      (jar : f.CookieJar) (input : f.Input)
      → f.cookies (f.put_jar jar input) ≡ (ok jar, f.put_jar jar input)
  -- an added cookie is found by its name, and a removed one is not
  pub get-add :
      (name value : String) (jar : f.CookieJar)
      → (c : f.Cookie) × (f.get name (f.add (f.new_cookie name value) jar) ≡ some c)
        × (f.cookie_value c ≡ value)
  pub get-remove :
      (name : String) (jar : f.CookieJar) → f.get name (f.remove (f.named name) jar) ≡ none
