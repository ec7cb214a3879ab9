-- ===== src/Sessions/Cookie/Laws.antt =====
-- finchers-session/src/cookie.rs: what a request reads of the session that another has written.
use finch_router.Prelude.{String, ◌≡◌, refl, Bool, Option, none, some, ok, arith, unwrap_or}
use finch_router.Finchers.{Finchers, JarLaws}
use finch_router.Sessions.Cookie.{
  CookieBuilders, CookieBackend, CookieSession, plain, signed, private_, session_cookie, secure_get,
  secure_add, secure_remove, if_some, Security, read_cookie_session, write_cookie_session,
  CookieConfig,
}

module _ {f : Finchers} (b : CookieBuilders f) where
  -- What `cookie` documents of the builder and of the three jars. A builder that builds a name and a
  -- value keeps them under every setter, and its cookie is found under the name in the jar that it
  -- is added to, with the value.
  pub record BuilderLaws : Type 1 where
    pub Builds : String → String → b.Builder → Type 0
    pub build-Builds : (name value : String) → Builds name value (b.build name value)
    pub path-Builds :
        (x : String) {name value : String} {c : b.Builder}
        → Builds name value c
        → Builds name value (b.path x c)
    pub secure-Builds :
        (x : Bool) {name value : String} {c : b.Builder}
        → Builds name value c
        → Builds name value (b.secure x c)
    pub http_only-Builds :
        (x : Bool) {name value : String} {c : b.Builder}
        → Builds name value c
        → Builds name value (b.http_only x c)
    pub domain-Builds :
        (x : String) {name value : String} {c : b.Builder}
        → Builds name value c
        → Builds name value (b.domain x c)
    pub same_site-Builds :
        (x : b.SameSite) {name value : String} {c : b.Builder}
        → Builds name value c
        → Builds name value (b.same_site x c)
    pub max_age-Builds :
        (x : b.Duration) {name value : String} {c : b.Builder}
        → Builds name value c
        → Builds name value (b.max_age x c)
    pub get-add :
        {name value : String} {c : b.Builder} (jar : f.CookieJar)
        → Builds name value c
        → (d : f.Cookie) × (f.get name (f.add (b.finish c) jar) ≡ some d)
          × (f.cookie_value d ≡ value)
    pub signed_get-signed_add :
        (key : b.Key) {name value : String} {c : b.Builder} (jar : f.CookieJar)
        → Builds name value c
        → (d : f.Cookie) × (b.signed_get key name (b.signed_add key (b.finish c) jar) ≡ some d)
          × (f.cookie_value d ≡ value)
    pub private_get-private_add :
        (key : b.Key) {name value : String} {c : b.Builder} (jar : f.CookieJar)
        → Builds name value c
        → (d : f.Cookie) × (b.private_get key name (b.private_add key (b.finish c) jar) ≡ some d)
          × (f.cookie_value d ≡ value)
    pub signed_get-signed_remove :
        (key : b.Key) (name : String) (jar : f.CookieJar)
        → b.signed_get key name (b.signed_remove key (f.named name) jar) ≡ none
    pub private_get-private_remove :
        (key : b.Key) (name : String) (jar : f.CookieJar)
        → b.private_get key name (b.private_remove key (f.named name) jar) ≡ none

module _ {f : Finchers} (b : CookieBuilders f) (jars : JarLaws f) (laws : BuilderLaws b) where
  -- the builder of `session_cookie`, setter by setter
  plainly-Builds :
      (c : CookieConfig b) (value : String)
      → laws.Builds c.name value
          (b.http_only c.http_only (b.secure c.secure (b.path c.path (b.build c.name value))))
  plainly-Builds c value =
      laws.http_only-Builds c.http_only
        (laws.secure-Builds c.secure (laws.path-Builds c.path (laws.build-Builds c.name value)))

  if_some-Builds :
      {T : Type 0} {name value : String} {c : b.Builder} (x : Option T)
      (op : T → b.Builder → b.Builder)
      → ((t : T) (d : b.Builder) → laws.Builds name value d → laws.Builds name value (op t d))
      → laws.Builds name value c
      → laws.Builds name value (if_some b x op c)
  if_some-Builds none op h built = built
  if_some-Builds {c = c} (some t) op h built = h t c built

  session_cookie-Builds :
      (c : CookieConfig b) (value : String)
      → (d : b.Builder) × (session_cookie b c value ≡ b.finish d) × laws.Builds c.name value d
  unfolding session_cookie
  session_cookie-Builds c value = (
    _,
    refl,
    if_some-Builds c.max_age b.max_age (λ t d h. laws.max_age-Builds t h)
        (if_some-Builds c.same_site b.same_site (λ t d h. laws.same_site-Builds t h)
          (if_some-Builds c.domain b.domain (λ t d h. laws.domain-Builds t h)
            (plainly-Builds c value))),
  )

  secure_get-secure_add :
      (s : Security b) {name value : String} {c : b.Builder} (jar : f.CookieJar)
      → laws.Builds name value c
      → (d : f.Cookie) × (secure_get b s name (secure_add b s (b.finish c) jar) ≡ some d)
        × (f.cookie_value d ≡ value)
  unfolding secure_get secure_add
  secure_get-secure_add plain jar built = laws.get-add jar built
  secure_get-secure_add (signed key) jar built = laws.signed_get-signed_add key jar built
  secure_get-secure_add (private_ key) jar built = laws.private_get-private_add key jar built

  secure_get-secure_remove :
      (s : Security b) (name : String) (jar : f.CookieJar)
      → secure_get b s name (secure_remove b s (f.named name) jar) ≡ none
  unfolding secure_get secure_remove
  secure_get-secure_remove plain name jar = jars.get-remove name jar
  secure_get-secure_remove (signed key) name jar = laws.signed_get-signed_remove key name jar
  secure_get-secure_remove (private_ key) name jar = laws.private_get-private_remove key name jar

  -- Where the input has a jar, writing a session succeeds, and a backend with the same
  -- configuration reads back from the input that this leaves a session with the same value, or
  -- without one where it was removed, whether cookies are plain, signed or encrypted, and whatever
  -- attributes are set.
  pub read_cookie_session-write_cookie_session :
      (s : CookieSession b) (backend : CookieBackend b) (input input' : f.Input) (jar : f.CookieJar)
      → backend.config ≡ s.config
      → f.cookies input ≡ (ok jar, input')
      → let (r, left) = write_cookie_session b s input in
        (r ≡ ok tt) × (read_cookie_session b backend left ≡ (ok s, left))
  unfolding write_cookie_session read_cookie_session
  read_cookie_session-write_cookie_session s backend input input' jar hb hc =
      let c = s.config in
      let written = unwrap_or "" s.value in
      let (builder, is_cookie, built) = session_cookie-Builds c written in
      let (d, got, value) = secure_get-secure_add c.security jar built in
      ground (
        arith,
        hb,
        hc,
        is_cookie,
        got,
        value,
        secure_get-secure_remove c.security c.name jar,
        jars.cookies-put_jar (secure_add b c.security (session_cookie b c written) jar) input',
        jars.cookies-put_jar (secure_remove b c.security (f.named c.name) jar) input',
      )
