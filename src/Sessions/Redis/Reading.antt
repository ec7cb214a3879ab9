-- ===== src/Sessions/Redis/Reading.antt =====
-- finchers-session/src/redis.rs: what polling the futures that read and write a session comes to.
use finch_router.Prelude.{String, ◌≡◌, refl, Option, none, some, ok, err, panicked, arith}
use finch_router.Finchers.{Finchers}
use finch_router.Ext.Future.Settling.{Resolves, resolved, pending}
use finch_router.Action.{ready}
use finch_router.Sessions.{UuidCrate}
use finch_router.Sessions.Redis.{
  RedisCrate, RedisSessionConfig, RedisSession, connecting, fetching, read_done, key_name,
  running_cmd, poll_read, poll_write_redis, apply_redis, RedisBackend, poll_fetching_value,
  ReadState, read_failed,
}

module _ (f : Finchers) (r : RedisCrate) (u : UuidCrate) where
  -- the session of a value that was fetched, or of none
  abbrev pub fetched_session :
      r.Connection → RedisSessionConfig → u.Uuid → Option String → RedisSession r u
  fetched_session conn config id (some value) = record {
    conn = conn;
    config = config;
    session_id = some id;
    value = some value;
  }
  fetched_session conn config id none = record {
    conn = conn;
    config = config;
    session_id = none;
    value = none;
  }

  abbrev pub get_cmd : RedisSessionConfig → u.Uuid → r.Cmd
  get_cmd config id = r.arg (key_name u config id) (r.cmd "GET")

  poll_fetching_value_done :
      {conn : r.Connection} (value : Option String) {q' q : r.FetchFuture}
      (config : RedisSessionConfig) (id : u.Uuid)
      → r.poll_fetch q ≡ (ok (ready (conn, value)), q')
      → poll_fetching_value f r u q config id
        ≡ (ok (ready (fetched_session conn config id value)), read_done)
  unfolding poll_fetching_value
  poll_fetching_value_done none config id e = ground (arith, e)
  poll_fetching_value_done (some v) config id e = ground (arith, e)

  fetching-Resolves :
      {conn : r.Connection} {value : Option String} {q' q : r.FetchFuture}
      (config : RedisSessionConfig) (id : u.Uuid)
      → Resolves r.poll_fetch (ok (conn, value)) q' q
      → Resolves
          (poll_read f r u)
          (ok (fetched_session conn config id value))
          read_done
          (fetching q config id)
  unfolding poll_read
  fetching-Resolves {value = value} config id (resolved e) =
      resolved (poll_fetching_value_done value config id e)
  fetching-Resolves config id (pending e st) =
      pending (ground (arith, e)) (fetching-Resolves config id st)

  -- Where connecting resolves to a connection, and the GET of the key of an identifier on it resolves
  -- to a value or to none, however often either is not ready, the future that reads the session
  -- resolves to a session with this value and the identifier, or with neither.
  pub read-Resolves :
      {conn conn' : r.Connection} {value : Option String} {c' c : r.ConnectFuture}
      {q' : r.FetchFuture} (config : RedisSessionConfig) (id : u.Uuid)
      → Resolves r.poll_connect (ok conn) c' c
      → Resolves r.poll_fetch (ok (conn', value)) q' (r.query_value (get_cmd config id) conn)
      → Resolves
          (poll_read f r u)
          (ok (fetched_session conn' config id value))
          read_done
          (connecting c config (some id))
  unfolding poll_read
  read-Resolves {value = value} config id (resolved e) (resolved g) =
      resolved (ground (arith, e, poll_fetching_value_done value config id g))
  read-Resolves config id (resolved e) (pending g st) =
      pending (ground (arith, e, g)) (fetching-Resolves config id st)
  read-Resolves config id (pending e st) t =
      pending (ground (arith, e)) (read-Resolves config id st t)

  -- Where there is no identifier, the future resolves to a session without a value as soon as
  -- connecting does, and no command is sent; where connecting fails, it fails with that error.
  read-Resolves_unfetched :
      {conn : r.Connection} {c' c : r.ConnectFuture} (config : RedisSessionConfig)
      → Resolves r.poll_connect (ok conn) c' c
      → Resolves
          (poll_read f r u)
          (ok (record { conn = conn; config = config; session_id = none; value = none }))
          read_done
          (connecting c config none)
  unfolding poll_read
  read-Resolves_unfetched config (resolved e) = resolved (ground (arith, e))
  read-Resolves_unfetched config (pending e st) =
      pending (ground (arith, e)) (read-Resolves_unfetched config st)

  -- Where connecting fails, the future that reads a session fails with that error, in the state of
  -- connecting.
  read-Resolves_failed :
      {cause : String} {c' c : r.ConnectFuture} (config : RedisSessionConfig) (id : Option u.Uuid)
      → Resolves r.poll_connect (err cause) c' c
      → Resolves
          (poll_read f r u)
          (err (f.fail cause))
          (connecting c' config id)
          (connecting c config id)
  unfolding poll_read
  read-Resolves_failed config id (resolved e) = resolved (ground (arith, e))
  read-Resolves_failed config id (pending e st) =
      pending (ground (arith, e)) (read-Resolves_failed config id st)

  -- The future that sends a command resolves as the command does, however often it is not ready.
  pub cmd-Resolves :
      {conn : r.Connection} {q' q : r.CmdFuture}
      → Resolves r.poll_cmd (ok conn) q' q
      → Resolves (poll_write_redis f r u) (ok tt) (running_cmd q') (running_cmd q)
  unfolding poll_write_redis
  cmd-Resolves (resolved e) = resolved (ground (arith, e))
  cmd-Resolves (pending e st) = pending (ground (arith, e)) (cmd-Resolves st)

  -- Where the cookies of the input cannot be read, the future that `apply` gives fails at its first
  -- poll with that error, whatever the server does, and a second poll panics.
  apply_redis_failed :
      (b : RedisBackend r) (input input' : f.Input) (e : f.Error)
      → f.cookies input ≡ (err e, input')
      → let (made, input'') = apply_redis f r u b input in
        (s : ReadState f r u) × (made ≡ ok s)
        × (input'' ≡ input')
        × ((poll_read f r u s).0 ≡ err e)
        × ((poll_read f r u (poll_read f r u s).1).0 ≡ panicked)
  unfolding apply_redis poll_read
  apply_redis_failed b input input' e h =
      (read_failed (some e), ground (arith, h), ground (arith, h), refl, refl)
