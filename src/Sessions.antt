-- ===== src/Sessions.antt =====
-- finchers-session/src/session.rs: the trait `RawSession`, and `Session` over it. The crate `uuid` is
-- a parameter; a fresh `Uuid::new_v4()` is an argument of the operation that may draw one.
pub mod InMemory
pub mod Redis
pub mod Cookie
pub mod With
use finch_router.Prelude.{
  true, ◌≡◌, ◌↔◌, String, Bool, Option, none, some, Outcome, ok, err, panicked, Effect,
}
use finch_router.Finchers.{Finchers}
use finch_router.Action.{Async, ready, not_ready}

pub record UuidCrate : Type 1 where
  pub Uuid : Type 0
  -- `==`, on which `HashMap` rests
  pub uuid_eq : Uuid → Uuid → Bool
  -- `str::parse::<Uuid>`, with its error as the text that it displays, and `to_string`
  pub parse_uuid : String → Outcome String Uuid
  pub uuid_to_string : Uuid → String

-- what `uuid` documents of parsing and of equality
pub record UuidLaws (u : UuidCrate) : Type 0 where
  pub parse-to_string : (id : u.Uuid) → u.parse_uuid (u.uuid_to_string id) ≡ ok id
  pub uuid_eq_iff : (a b : u.Uuid) → (u.uuid_eq a b ≡ true) ↔ (a ≡ b)

-- `futures::future::result` and the future that it makes
pub record FutureResults (f : Finchers) : Type 1 where
  pub FutureResult : Type 0
  pub result : Outcome f.Error (Unit {0}) → FutureResult
  pub poll_result : FutureResult → Outcome f.Error (Async (Unit {0})) × FutureResult

module _ (f : Finchers) where
  -- The trait `RawSession`, of a session with state `S` and a `WriteFuture` with state `W`. `write` may
  -- change the input and what the backend shares, which are `St` together; it fails by a panic only.
  pub record RawSession (St S W : Type 0) : Type 0 where
    pub raw_get : S → Option String
    pub raw_set : String → S → S
    pub raw_remove : S → S
    pub write : S → Effect St f.Error W
    pub poll_write : W → Outcome f.Error (Async (Unit {0})) × W

module _ {f : Finchers} {St S W : Type 0} (raw : RawSession f St S W) where
  -- `Session::get`, `Session::set` and `Session::remove`
  abbrev pub session_get : S → Option String
  session_get s = raw.raw_get s

  abbrev pub session_set : String → S → S
  session_set value s = raw.raw_set value s

  abbrev pub session_remove : S → S
  session_remove s = raw.raw_remove s

  -- `WriteSessionFuture::poll`; the `Into` is the identity on `Error`
  abbrev pub poll_write_session : W → Outcome f.Error (Async (Unit {0})) × W
  poll_write_session w = raw.poll_write w

-- The future of `Session::with`: the future of the closure, with the session that the closure has
-- changed, and then the session's own future, with the item to give.
pub data WithSession (S W Fut R : Type 0) : Type 0 where
  running : Fut → S → WithSession S W Fut R
  writing : W → R → WithSession S W Fut R

-- `Session::with`, where the closure returns its future and leaves the session changed
unfoldable pub with_session : {S W Fut R : Type 0} → (S → Fut × S) → S → WithSession S W Fut R
with_session op s = let (fut, s') = op s in running fut s'

module _ {f : Finchers} {St S W Fut R : Type 0} where
  module _ (raw : RawSession f St S W) where
    -- the part of the future that follows `into_future` of the session
    unfoldable pub poll_writing :
        W → R → St → Outcome f.Error (Async R) × (WithSession S W Fut R × St)
    poll_writing w item st =
        let (r, w') = poll_write_session raw w in
        elim r [
          | ok (ready _) ↦ (ok (ready item), (writing w' item, st))
          | ok not_ready ↦ (ok not_ready, (writing w' item, st))
          | err e ↦ (err e, (writing w' item, st))
          | panicked ↦ (panicked, (writing w' item, st))
        ]

    -- the `and_then` of `Session::with`, polled with the input of the task
    unfoldable pub poll_with :
        (Fut → Outcome f.Error (Async R) × Fut)
        → WithSession S W Fut R × St
        → Outcome f.Error (Async R) × (WithSession S W Fut R × St)
    unfolding poll_writing
    poll_with poll (writing w item, st) = poll_writing w item st
    poll_with poll (running fut s, st) =
        let (r, fut') = poll fut in
        let (made, st') = raw.write s st in
        elim r [
          | ok (ready item) ↦ elim made [
            | ok w ↦ poll_writing w item st'
            | err e ↦ (err e, (running fut' s, st'))
            | panicked ↦ (panicked, (running fut' s, st'))
          ]
          | ok not_ready ↦ (ok not_ready, (running fut' s, st))
          | err e ↦ (err e, (running fut' s, st))
          | panicked ↦ (panicked, (running fut' s, st))
        ]
