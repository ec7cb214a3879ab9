-- ===== src/Tests/Redis.antt =====
-- A Redis server that holds values under keys, and is not ready at first.
use text.Mathlib.Text.{◌==◌ as str_eq}
use text.Mathlib.TextEquality.{eq_iff}
use finch_router.Prelude.{
  ℕ, zero, suc, String, ◌≡◌, refl, List, [], ◌∷◌, ◌++◌, Option, none, some, ok, if◌then◌else◌,
  arith,
}
use finch_router.Action.{ready, not_ready}
use finch_router.Ext.Future.Settling.{Resolves, resolved, pending}
use finch_router.Sessions.Redis.{
  RedisCrate, RedisBackend, RedisSession, RedisSessionConfig, read_done, running_cmd, poll_read,
  write_redis, apply_redis, ReadState,
}
use finch_router.Sessions.Redis.Commands.{RedisLaws, apply_redis-write_redis}
use finch_router.Tests.Sessions.{tiny, tiny_laws, texts, texts_laws, no_cookies}

-- A server holds values under keys, and a connection is what it holds. Connecting takes some rounds.
abbrev Stored : Type 0
Stored = String → Option String

-- a text that stands for a number of seconds
abbrev run_command : List String → Stored → Stored
run_command (name ∷ key ∷ value ∷ []) db k =
    if str_eq name "SET" then if str_eq k key then some value else db k else db k
run_command (name ∷ key ∷ _ ∷ value ∷ []) db k =
    if str_eq name "SETEX" then if str_eq k key then some value else db k else db k
run_command _ db k = db k

abbrev fetched : List String → Stored → Option String
fetched (_ ∷ key ∷ []) db = db key
fetched _ db = none

abbrev server : RedisCrate
server = record {
  Client = ℕ × Stored;
  Connection = Stored;
  ConnectFuture = ℕ × Stored;
  get_async_connection = λ client. client;
  poll_connect = λ s. elim s.0 [ zero ↦ (ok (ready s.1), s) | suc n ↦ (ok not_ready, (n, s.1)) ];
  Cmd = List String;
  cmd = λ name. name ∷ [];
  arg = λ x c. c ++ x ∷ [];
  arg_number = λ _ c. c ++ "seconds" ∷ [];
  FetchFuture = List String × Stored;
  query_value = λ c db. (c, db);
  poll_fetch = λ q. (ok (ready (q.1, fetched q.0 q.1)), q);
  CmdFuture = List String × Stored;
  query_unit = λ c db. (c, db);
  poll_cmd = λ q. (ok (ready q.1), q);
}

set_found :
    (key value : String) (db : Stored) → run_command ("SET" ∷ key ∷ value ∷ []) db key ≡ some value
set_found key value db = ground (arith, eq_iff key key)

setex_found :
    (key value : String) (db : Stored)
    → run_command ("SETEX" ∷ key ∷ "seconds" ∷ value ∷ []) db key ≡ some value
setex_found key value db = ground (arith, eq_iff key key)

abbrev server_laws : RedisLaws server
server_laws = record {
  Db = Stored;
  run = run_command;
  lookup = λ key db. db key;
  lookup-set = set_found;
  lookup-setex = λ key value secs db h. setex_found key value db;
}

abbrev config : RedisSessionConfig
config = record {
  key_prefix = "app";
  cookie_name = "sid";
  timeout = some (record { secs = 60; nanos = 0 });
}

abbrev empty : Stored
empty _ = none

abbrev redis_session : Stored → Option String → Option String → RedisSession server texts
redis_session db id value = record { conn = db; config = config; session_id = id; value = value }

abbrev command : List String
command = "SETEX" ∷ "app:n" ∷ "seconds" ∷ "v" ∷ []

abbrev backend : RedisBackend server
backend = record { client = (1, run_command command empty); config = config; strong_count = 1 }

apply_redis-write_redis_example :
    let (sent, left) =
      write_redis tiny server texts "n" (redis_session empty none (some "v")) no_cookies in
    let (made, left') = apply_redis tiny server texts backend left in
    (sent ≡ ok (running_cmd (command, empty)))
    × (left' ≡ left)
    × (st : ReadState tiny server texts) × (made ≡ ok st)
    × (conn' : Stored) × Resolves
        (poll_read tiny server texts)
        (ok (redis_session conn' (some "n") (some "v")))
        read_done
        st
apply_redis-write_redis_example =
    apply_redis-write_redis tiny server texts tiny_laws texts_laws server_laws "n"
      (redis_session empty none (some "v")) backend "v" no_cookies no_cookies (λ _. none) command
      empty refl refl refl (omega arith, refl) (pending refl (resolved refl))
      (λ key. (run_command command empty, _, resolved refl))
