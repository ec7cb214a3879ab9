-- ===== src/Sessions/Cookie.antt =====
-- finchers-session/src/cookie.rs and finchers-session/src/util.rs: sessions whose value is a cookie,
-- plain, signed or encrypted. Keys, the jars for signed and private cookies, and the builder of
-- cookies are parameters.
pub mod Laws
use finch_router.Prelude.{
  ℕ, String, Bool, true, Option, none, some, Outcome, ok, panicked, if◌then◌else◌, Effect, pure,
  continue, modify, ◌>>=◌, ◌>>◌, ◌==◌,
}
use finch_router.Finchers.{Finchers}
use finch_router.Sessions.{RawSession, FutureResults}

-- What the code calls of `cookie` for protected cookies and of `CookieBuilder`.
pub record CookieBuilders (f : Finchers) : Type 1 where
  pub Key : Type 0
  pub SameSite : Type 0
  pub Duration : Type 0
  -- `jar.signed(key)` and `jar.private(key)`: `get`, `add` and `remove`
  pub signed_get : Key → String → f.CookieJar → Option f.Cookie
  pub signed_add : Key → f.Cookie → f.CookieJar → f.CookieJar
  pub signed_remove : Key → f.Cookie → f.CookieJar → f.CookieJar
  pub private_get : Key → String → f.CookieJar → Option f.Cookie
  pub private_add : Key → f.Cookie → f.CookieJar → f.CookieJar
  pub private_remove : Key → f.Cookie → f.CookieJar → f.CookieJar
  -- `Cookie::build`, the setters, and `finish`
  pub Builder : Type 0
  pub build : String → String → Builder
  pub path : String → Builder → Builder
  pub secure : Bool → Builder → Builder
  pub http_only : Bool → Builder → Builder
  pub domain : String → Builder → Builder
  pub same_site : SameSite → Builder → Builder
  pub max_age : Duration → Builder → Builder
  pub finish : Builder → f.Cookie

module _ {f : Finchers} (b : CookieBuilders f) where
  pub data Security : Type 0 where
    plain : Security
    signed : b.Key → Security
    private_ : b.Key → Security

  pub record CookieConfig : Type 0 where
    pub security : Security
    pub name : String
    pub path : String
    pub secure : Bool
    pub http_only : Bool
    pub domain : Option String
    pub same_site : Option b.SameSite
    pub max_age : Option b.Duration

  -- `CookieBackend`: the configuration, and how many backends and sessions share it
  pub record CookieBackend : Type 0 where
    pub config : CookieConfig
    pub strong_count : ℕ

  -- `CookieSession`
  pub record CookieSession : Type 0 where
    pub config : CookieConfig
    pub value : Option String

  -- `CookieBackend::new`
  unfoldable pub new_cookie_backend : Security → CookieBackend
  new_cookie_backend security = record {
    config = record {
      security = security;
      name = "finchers-session";
      path = "/";
      domain = none;
      same_site = none;
      max_age = none;
      secure = true;
      http_only = true;
    };
    strong_count = 1;
  }

  -- `config_mut`, where a setter changes the configuration; `Arc::get_mut` fails where it is shared
  unfoldable pub change_cookie_config :
      {E : Type 0} → (CookieConfig → CookieConfig) → CookieBackend → Outcome E CookieBackend
  change_cookie_config op backend =
      if backend.strong_count == 1
      then ok (record backend { config = op backend.config })
      else panicked

  -- the setters of `CookieBackend`
  abbrev pub set_path : {E : Type 0} → String → CookieBackend → Outcome E CookieBackend
  set_path value = change_cookie_config λ c. record c { path = value }

  abbrev pub set_secure : {E : Type 0} → Bool → CookieBackend → Outcome E CookieBackend
  set_secure value = change_cookie_config λ c. record c { secure = value }

  abbrev pub set_http_only : {E : Type 0} → Bool → CookieBackend → Outcome E CookieBackend
  set_http_only value = change_cookie_config λ c. record c { http_only = value }

  abbrev pub set_domain : {E : Type 0} → String → CookieBackend → Outcome E CookieBackend
  set_domain value = change_cookie_config λ c. record c { domain = some value }

  abbrev pub set_same_site : {E : Type 0} → b.SameSite → CookieBackend → Outcome E CookieBackend
  set_same_site value = change_cookie_config λ c. record c { same_site = some value }

  abbrev pub set_max_age : {E : Type 0} → b.Duration → CookieBackend → Outcome E CookieBackend
  set_max_age value = change_cookie_config λ c. record c { max_age = some value }

  -- `jar.get`, `jar.add` and `jar.remove`, by the security
  unfoldable pub secure_get : Security → String → f.CookieJar → Option f.Cookie
  secure_get plain name jar = f.get name jar
  secure_get (signed key) name jar = b.signed_get key name jar
  secure_get (private_ key) name jar = b.private_get key name jar

  unfoldable pub secure_add : Security → f.Cookie → f.CookieJar → f.CookieJar
  secure_add plain cookie jar = f.add cookie jar
  secure_add (signed key) cookie jar = b.signed_add key cookie jar
  secure_add (private_ key) cookie jar = b.private_add key cookie jar

  unfoldable pub secure_remove : Security → f.Cookie → f.CookieJar → f.CookieJar
  secure_remove plain cookie jar = f.remove cookie jar
  secure_remove (signed key) cookie jar = b.signed_remove key cookie jar
  secure_remove (private_ key) cookie jar = b.private_remove key cookie jar

  -- `BuilderExt::if_some`
  abbrev pub if_some : {T : Type 0} → Option T → (T → b.Builder → b.Builder) → b.Builder → b.Builder
  if_some (some value) op builder = op value builder
  if_some none op builder = builder

  -- the cookie of `write_value`
  unfoldable pub session_cookie : CookieConfig → String → f.Cookie
  session_cookie config value =
      let built = b.build config.name value in
      let plainly =
        b.http_only config.http_only (b.secure config.secure (b.path config.path built)) in
      b.finish (
        if_some config.max_age b.max_age
          (if_some config.same_site b.same_site (if_some config.domain b.domain plainly)))

  -- `CookieConfig::read_value`
  unfoldable pub read_cookie_value : CookieConfig → Effect f.Input f.Error (Option String)
  unfolding secure_get
  read_cookie_value config = f.cookies >>= λ jar.
      elim (secure_get config.security config.name jar) [
        | some cookie ↦ pure (some (f.cookie_value cookie))
        | none ↦ pure none
      ]

  -- `CookieConfig::write_value`
  unfoldable pub write_cookie_value : CookieConfig → String → Effect f.Input f.Error (Unit {0})
  unfolding secure_add session_cookie
  write_cookie_value config value = f.cookies >>= λ jar.
      modify (f.put_jar (secure_add config.security (session_cookie config value) jar))

  -- `CookieConfig::remove_value`
  unfoldable pub remove_cookie_value : CookieConfig → Effect f.Input f.Error (Unit {0})
  unfolding secure_remove
  remove_cookie_value config = f.cookies >>= λ jar.
      modify (f.put_jar (secure_remove config.security (f.named config.name) jar))

  -- `CookieBackend::apply`
  unfoldable pub read_cookie_session : CookieBackend → Effect f.Input f.Error CookieSession
  unfolding read_cookie_value
  read_cookie_session backend = do
    value ← read_cookie_value backend.config
    pure (record { config = backend.config; value = value })

  -- `CookieSession::write_impl`
  unfoldable pub write_cookie_session : CookieSession → Effect f.Input f.Error (Unit {0})
  unfolding write_cookie_value remove_cookie_value
  write_cookie_session s = elim s.value [
    | some value ↦ write_cookie_value s.config value
    | none ↦ remove_cookie_value s.config
  ]

  -- `RawSession for CookieSession`; `write` is `future::result` of `write_impl`
  unfoldable pub cookie_raw :
      (fr : FutureResults f) → RawSession f f.Input CookieSession fr.FutureResult
  unfolding write_cookie_session
  cookie_raw fr = record {
    raw_get = λ s. s.value;
    raw_set = λ value s. record s { value = some value };
    raw_remove = λ s. record s { value = none };
    write = λ s st. let (r, st') = write_cookie_session s st in (ok (fr.result r), st');
    poll_write = fr.poll_result;
  }
