-- ===== src/Sessions/Redis.antt =====
-- finchers-session/src/redis.rs: sessions in a Redis server. The client `redis` is a parameter: its
-- futures are states with a poll, and its errors are the texts that they display.
pub mod Reading
pub mod Commands
use Prim.Native.String.{◌++◌ as str_append}
use finch_router.Prelude.{
  ℕ, String, Bool, Option, none, some, Outcome, ok, err, panicked, if◌then◌else◌, Effect, pure,
  lift, modify, continue, with_error, unwrap_or, ◌>>=◌, ◌>>◌, ◌==◌,
}
use finch_router.Finchers.{Finchers}
use finch_router.Action.{Async, ready, not_ready}
use finch_router.Sessions.{UuidCrate, RawSession}

pub record RedisCrate : Type 1 where
  pub Client : Type 0
  pub Connection : Type 0
  -- `RedisFuture<Connection>`, and `Client::get_async_connection`
  pub ConnectFuture : Type 0
  pub get_async_connection : Client → ConnectFuture
  pub poll_connect : ConnectFuture → Outcome String (Async Connection) × ConnectFuture
  -- `redis::cmd`, and `arg` of a string and of a number
  pub Cmd : Type 0
  pub cmd : String → Cmd
  pub arg : String → Cmd → Cmd
  pub arg_number : ℕ → Cmd → Cmd
  -- `RedisFuture<(Connection, Option<String>)>` of `query_async`
  pub FetchFuture : Type 0
  pub query_value : Cmd → Connection → FetchFuture
  pub poll_fetch : FetchFuture → Outcome String (Async (Connection × Option String)) × FetchFuture
  -- `RedisFuture<(Connection, ())>` of `query_async`
  pub CmdFuture : Type 0
  pub query_unit : Cmd → Connection → CmdFuture
  pub poll_cmd : CmdFuture → Outcome String (Async Connection) × CmdFuture

-- `std::time::Duration`
pub record Duration : Type 0 where
  pub secs : ℕ
  pub nanos : ℕ

pub record RedisSessionConfig : Type 0 where
  pub key_prefix : String
  pub cookie_name : String
  pub timeout : Option Duration

-- `RedisBackend`: the client, the configuration, and how many backends and sessions share the latter
pub record RedisBackend (r : RedisCrate) : Type 0 where
  pub client : r.Client
  pub config : RedisSessionConfig
  pub strong_count : ℕ

-- `RedisBackend::new`
unfoldable pub new_redis : {r : RedisCrate} → r.Client → RedisBackend r
new_redis client = record {
  client = client;
  config = record { key_prefix = "finchers-sesssion"; cookie_name = "session-id"; timeout = none };
  strong_count = 1;
}

module _ {r : RedisCrate} where
  -- `config_mut`, where a setter changes the configuration; `Arc::get_mut` fails where it is shared
  unfoldable pub change_config :
      {E : Type 0}
      → (RedisSessionConfig → RedisSessionConfig)
      → RedisBackend r
      → Outcome E (RedisBackend r)
  change_config op b =
      if b.strong_count == 1 then ok (record b { config = op b.config }) else panicked

  -- the setters of `RedisBackend`
  abbrev pub set_key_prefix : {E : Type 0} → String → RedisBackend r → Outcome E (RedisBackend r)
  set_key_prefix prefix = change_config λ c. record c { key_prefix = prefix }

  abbrev pub set_cookie_name : {E : Type 0} → String → RedisBackend r → Outcome E (RedisBackend r)
  set_cookie_name name = change_config λ c. record c { cookie_name = name }

  abbrev pub set_timeout : {E : Type 0} → Duration → RedisBackend r → Outcome E (RedisBackend r)
  set_timeout timeout = change_config λ c. record c { timeout = some timeout }

-- `RedisSessionConfig::key_name`
unfoldable pub key_name : (u : UuidCrate) → RedisSessionConfig → u.Uuid → String
key_name u config id = str_append config.key_prefix (str_append ":" (u.uuid_to_string id))

module _ (r : RedisCrate) (u : UuidCrate) where
  pub record RedisSession : Type 0 where
    pub conn : r.Connection
    pub config : RedisSessionConfig
    pub session_id : Option u.Uuid
    pub value : Option String

module _ (f : Finchers) (r : RedisCrate) (u : UuidCrate) where
  -- `ReadFutureState`
  pub data ReadState : Type 0 where
    read_failed : Option f.Error → ReadState
    connecting : r.ConnectFuture → RedisSessionConfig → Option u.Uuid → ReadState
    fetching : r.FetchFuture → RedisSessionConfig → u.Uuid → ReadState
    read_done : ReadState

  -- `WriteFutureState`
  pub data WriteState : Type 0 where
    noop : WriteState
    write_failed : Option f.Error → WriteState
    running_cmd : r.CmdFuture → WriteState

  -- `RedisSessionConfig::get_session_id`
  unfoldable pub get_session_id : RedisSessionConfig → Effect f.Input f.Error (Option u.Uuid)
  get_session_id config = f.cookies >>= λ jar. elim (f.get config.cookie_name jar) [
    | some cookie ↦ lift (with_error f.bad_request (u.parse_uuid (f.cookie_value cookie))) >>= λ id.
        pure (some id)
    | none ↦ pure none
  ]

  -- `RedisBackend::apply`; a panic of the jar is the panic of the call
  unfoldable pub apply_redis : RedisBackend r → Effect f.Input f.Error ReadState
  unfolding get_session_id
  apply_redis b input =
      let (found, input') = get_session_id b.config input in
      elim found [
        | ok id ↦ (ok (connecting (r.get_async_connection b.client) b.config id), input')
        | err e ↦ (ok (read_failed (some e)), input')
        | panicked ↦ (panicked, input')
      ]

  -- the rounds of the loop of `ReadFuture::poll` in the state `Fetch`; its `try_ready!` leaves the
  -- state, and the state is `Done` before the result is given
  unfoldable pub poll_fetching_value :
      r.FetchFuture
      → RedisSessionConfig
      → u.Uuid
      → Outcome f.Error (Async (RedisSession r u)) × ReadState
  poll_fetching_value future config id =
      let (polled, future') = r.poll_fetch future in
      elim polled [
        | ok (ready (conn, some value)) ↦ (
          ok (
              ready (record {
                conn = conn;
                config = config;
                session_id = some id;
                value = some value;
              })),
          read_done,
        )
        | ok (ready (conn, none)) ↦ (
          ok (ready (record { conn = conn; config = config; session_id = none; value = none })),
          read_done,
        )
        | ok not_ready ↦ (ok not_ready, fetching future' config id)
        | err e ↦ (err (f.fail e), fetching future' config id)
        | panicked ↦ (panicked, fetching future' config id)
      ]

  -- `ReadFuture::poll`: the round that connects is followed by one that fetches, which returns
  unfoldable pub poll_read : ReadState → Outcome f.Error (Async (RedisSession r u)) × ReadState
  unfolding poll_fetching_value key_name
  poll_read (read_failed (some e)) = (err e, read_failed none)
  poll_read (read_failed none) = (panicked, read_failed none)
  poll_read (connecting future config id) =
      let (polled, future') = r.poll_connect future in
      elim polled [
        | ok not_ready ↦ (ok not_ready, connecting future' config id)
        | err e ↦ (err (f.fail e), connecting future' config id)
        | panicked ↦ (panicked, connecting future' config id)
        | ok (ready conn) ↦ elim id [
          | some i ↦
              let get_cmd = r.arg (key_name u config i) (r.cmd "GET") in
              poll_fetching_value (r.query_value get_cmd conn) config i
          | none ↦ (
            ok (ready (record { conn = conn; config = config; session_id = none; value = none })),
            read_done,
          )
        ]
      ]
  poll_read (fetching future config id) = poll_fetching_value future config id
  poll_read read_done = (panicked, read_done)

  -- the part of `write` that has changed the cookies, or failed to
  abbrev pub send :
      Outcome f.Error (Unit {0}) × f.Input
      → r.Cmd
      → r.Connection
      → Outcome f.Error WriteState × f.Input
  send (ok _, input) c conn = (ok (running_cmd (r.query_unit c conn)), input)
  send (err e, input) c conn = (ok (write_failed (some e)), input)
  send (panicked, input) c conn = (panicked, input)

  -- the command that stores a value
  unfoldable pub set_cmd : RedisSessionConfig → u.Uuid → String → r.Cmd
  unfolding key_name
  set_cmd config id value = elim config.timeout [
    | some timeout ↦
        r.arg value (r.arg_number timeout.secs (r.arg (key_name u config id) (r.cmd "SETEX")))
    | none ↦ r.arg value (r.arg (key_name u config id) (r.cmd "SET"))
  ]

  abbrev pub change_jar : (f.CookieJar → f.CookieJar) → Effect f.Input f.Error (Unit {0})
  change_jar op = f.cookies >>= λ jar. modify (f.put_jar (op jar))

  -- `RedisSession::write`, with the identifier that `Uuid::new_v4` would give
  unfoldable pub write_redis : u.Uuid → RedisSession r u → Effect f.Input f.Error WriteState
  unfolding key_name set_cmd
  write_redis new_v4 s input = elim s.value [
    | none ↦ elim s.session_id [
      | some id ↦
          send (change_jar (f.remove (f.named s.config.cookie_name)) input)
            (r.arg (key_name u s.config id) (r.cmd "DEL")) s.conn
      | none ↦ (ok noop, input)
    ]
    | some value ↦
        let id = unwrap_or new_v4 s.session_id in
        send (change_jar (f.add (f.new_cookie s.config.cookie_name (u.uuid_to_string id))) input)
          (set_cmd s.config id value) s.conn
  ]

  -- `WriteFuture::poll`
  unfoldable pub poll_write_redis : WriteState → Outcome f.Error (Async (Unit {0})) × WriteState
  poll_write_redis noop = (ok (ready tt), noop)
  poll_write_redis (write_failed (some e)) = (err e, write_failed none)
  poll_write_redis (write_failed none) = (panicked, write_failed none)
  poll_write_redis (running_cmd future) =
      let (polled, future') = r.poll_cmd future in
      elim polled [
        | ok (ready _) ↦ (ok (ready tt), running_cmd future')
        | ok not_ready ↦ (ok not_ready, running_cmd future')
        | err e ↦ (err (f.fail e), running_cmd future')
        | panicked ↦ (panicked, running_cmd future')
      ]

  -- `RawSession for RedisSession`
  unfoldable pub redis_raw : u.Uuid → RawSession f f.Input (RedisSession r u) WriteState
  unfolding write_redis poll_write_redis
  redis_raw new_v4 = record {
    raw_get = λ s. s.value;
    raw_set = λ value s. record s { value = some value };
    raw_remove = λ s. record s { value = none };
    write = write_redis new_v4;
    poll_write = poll_write_redis;
  }
