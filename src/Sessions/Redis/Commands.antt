-- ===== src/Sessions/Redis/Commands.antt =====
-- finchers-session/src/redis.rs: the commands that writing a session sends, and what a later request
-- reads.
use Prim.Native.String.{◌++◌ as str_append}
use finch_router.Prelude.{
  ℕ, ◌<◌, String, ◌≡◌, Option, none, some, ok, arith, unwrap_or, Option-cases, inl, inr,
}
use finch_router.Finchers.{Finchers, JarLaws}
use finch_router.Ext.Future.Settling.{Resolves}
use finch_router.Sessions.{UuidCrate, UuidLaws}
use finch_router.Sessions.Redis.{
  RedisCrate, Duration, RedisSessionConfig, RedisBackend, RedisSession, connecting, read_done,
  ReadState, key_name, set_cmd, running_cmd, poll_read, apply_redis, write_redis,
}
use finch_router.Sessions.Redis.Reading.{get_cmd, read-Resolves}

-- What the documentation of Redis says of the commands, on a database of its keys.
pub record RedisLaws (r : RedisCrate) : Type 1 where
  pub Db : Type 0
  -- the database that a command leaves, and the value under a key
  pub run : r.Cmd → Db → Db
  pub lookup : String → Db → Option String
  pub lookup-set :
      (key value : String) (db : Db)
      → lookup key (run (r.arg value (r.arg key (r.cmd "SET"))) db) ≡ some value
  -- a time to live is positive
  pub lookup-setex :
      (key value : String) (secs : ℕ) (db : Db)
      → 0 < secs
      → lookup key (run (r.arg value (r.arg_number secs (r.arg key (r.cmd "SETEX")))) db)
        ≡ some value

module _ (r : RedisCrate) (laws : RedisLaws r) where
  -- A GET on a connection gives what a database holds.
  abbrev pub Shows : r.Connection → laws.Db → Type 0
  Shows conn db =
      (key : String)
      → (conn' : r.Connection) × (q' : r.FetchFuture) × Resolves r.poll_fetch
          (ok (conn', laws.lookup key db)) q' (r.query_value (r.arg key (r.cmd "GET")) conn)

  -- A command stores a value under a key, for the seconds of a timeout if there is one.
  abbrev pub IsStore : Option Duration → String → String → r.Cmd → Type 0
  IsStore none key value c = c ≡ r.arg value (r.arg key (r.cmd "SET"))
  IsStore (some timeout) key value c =
      (0 < timeout.secs) × (c ≡ r.arg value (r.arg_number timeout.secs (r.arg key (r.cmd "SETEX"))))

  lookup-IsStore :
      (timeout : Option Duration) (key value : String) (c : r.Cmd) (db : laws.Db)
      → IsStore timeout key value c
      → laws.lookup key (laws.run c db) ≡ some value
  lookup-IsStore none key value c db h = rw h (laws.lookup-set key value db)
  lookup-IsStore (some timeout) key value c db (positive, h) =
      rw h (laws.lookup-setex key value timeout.secs db positive)

  set_cmd-IsStore :
      (f : Finchers) (u : UuidCrate) (config : RedisSessionConfig) (id : u.Uuid) (value : String)
      (c : r.Cmd)
      → IsStore config.timeout (key_name u config id) value c
      → set_cmd f r u config id value ≡ c
  unfolding set_cmd
  set_cmd-IsStore f u config id value c h = elim (Option-cases config.timeout) [
    | inl e ↦ ground (arith, e, h)
    | inr (timeout, e) ↦ ground (arith, e, h)
  ]

module _ (f : Finchers) (r : RedisCrate) (u : UuidCrate) where
  -- Where the input has a jar, writing a session that holds a value sends the command that stores it
  -- under the prefix of the configuration, a colon and its identifier, or the new one, and for the
  -- timeout of the configuration, if there is one, which has at least a second. Applying a backend
  -- with the same configuration to the input that this leaves then makes a future that, on a
  -- connection which shows a database that ran this command, resolves to a session with the same
  -- identifier and value.
  pub apply_redis-write_redis :
      (jars : JarLaws f) (uuids : UuidLaws u) (laws : RedisLaws r) (new_v4 : u.Uuid)
      (s : RedisSession r u) (b : RedisBackend r) (v : String) (input input' : f.Input)
      (jar : f.CookieJar) (c : r.Cmd) (db : laws.Db) {conn : r.Connection} {c' : r.ConnectFuture}
      → s.value ≡ some v
      → b.config ≡ s.config
      → f.cookies input ≡ (ok jar, input')
      → let id = unwrap_or new_v4 s.session_id in
        let (sent, left) = write_redis f r u new_v4 s input in
        let (made, left') = apply_redis f r u b left in
        IsStore r laws s.config.timeout
          (str_append s.config.key_prefix (str_append ":" (u.uuid_to_string id)))
          v
          c
        → Resolves r.poll_connect (ok conn) c' (r.get_async_connection b.client)
        → Shows r laws conn (laws.run c db)
        → (sent ≡ ok (running_cmd (r.query_unit c s.conn)))
          × (left' ≡ left)
          × (st : ReadState f r u) × (made ≡ ok st)
          × (conn' : r.Connection) × Resolves
              (poll_read f r u)
              (ok
                (record { conn = conn'; config = b.config; session_id = some id; value = some v }))
              read_done
              st
  unfolding write_redis apply_redis key_name
  apply_redis-write_redis jars uuids laws new_v4 s b v input input' jar c db {conn = conn} hv hb hc
        stores connects shows =
      let id = unwrap_or new_v4 s.session_id in
      let name = s.config.cookie_name in
      let key = key_name u s.config id in
      let (added, got, value) = jars.get-add name (u.uuid_to_string id) jar in
      let lent =
        jars.cookies-put_jar (f.add (f.new_cookie name (u.uuid_to_string id)) jar) input' in
      let sets = set_cmd-IsStore r laws f u s.config id v c stores in
      let (conn', q', gives) = shows key in
      let fetches : Resolves r.poll_fetch (ok (conn', some v)) q'
          (r.query_value (get_cmd f r u b.config id) conn) =
        rw hb (rw (lookup-IsStore r laws s.config.timeout key v c db stores) at gives) in
      (
        ground (arith, hv, hc, sets),
        ground (arith, hv, hb, hc, got, value, lent, uuids.parse-to_string id),
        connecting (r.get_async_connection b.client) b.config (some id),
        ground (arith, hv, hb, hc, got, value, lent, uuids.parse-to_string id),
        conn',
        read-Resolves f r u b.config id connects fetches,
      )

  -- Where the input has a jar, writing a session whose value was removed sends the DEL of its key,
  -- and applying a backend with the same configuration to the input that this leaves makes a future
  -- without an identifier, which fetches nothing.
  apply_redis-write_redis_removed :
      (jars : JarLaws f) (new_v4 id : u.Uuid) (s : RedisSession r u) (b : RedisBackend r)
      (input input' : f.Input) (jar : f.CookieJar)
      → s.value ≡ none
      → s.session_id ≡ some id
      → b.config ≡ s.config
      → f.cookies input ≡ (ok jar, input')
      → let (sent, left) = write_redis f r u new_v4 s input in
        (sent
          ≡ ok (running_cmd (r.query_unit (r.arg (key_name u s.config id) (r.cmd "DEL")) s.conn)))
        × (apply_redis f r u b left
            ≡ (ok (connecting (r.get_async_connection b.client) b.config none), left))
  unfolding write_redis apply_redis
  apply_redis-write_redis_removed jars new_v4 id s b input input' jar hv hi hb hc = ground (
    arith,
    hv,
    hi,
    hb,
    hc,
    jars.get-remove s.config.cookie_name jar,
    jars.cookies-put_jar (f.remove (f.named s.config.cookie_name) jar) input',
  )
