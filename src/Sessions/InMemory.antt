-- ===== src/Sessions/InMemory.antt =====
-- finchers-session/src/in_memory.rs: sessions in a map of this process, behind a lock. The backend
-- is shared by all sessions, so an operation has the input and the storage as its state.
pub mod Laws
pub mod Sharing
use finch_router.Prelude.{
  String, List, [], ◌∷◌, Bool, Option, none, some, Outcome, ok, err, panicked, if◌then◌else◌,
  Effect, unwrap_or, pure, lift, continue, modify, with_error, ◌>>=◌, ◌>>◌,
}
use finch_router.Finchers.{Finchers}
use finch_router.Sessions.{UuidCrate, RawSession, FutureResults}

module _ (f : Finchers) (u : UuidCrate) where
  -- `HashMap<Uuid, String>`, as its entries, and whether a panic has poisoned its lock
  pub record Storage : Type 0 where
    pub poisoned : Bool
    pub inner : List (u.Uuid × String)

  -- `InMemorySession`, without the backend, which is shared
  pub record InMemorySession : Type 0 where
    pub session_id : Option u.Uuid
    pub value : Option String

-- the `Display` of `PoisonError`
abbrev pub poison_error : String
poison_error = "poisoned lock: another task failed inside"

module _ {K V : Type 0} (eq : K → K → Bool) where
  -- `HashMap::get`, `HashMap::remove` and `HashMap::insert`
  unfoldable pub map_get : K → List (K × V) → Option V
  map_get id [] = none
  map_get id ((i, v) ∷ xs) = let rest = map_get id xs in if eq id i then some v else rest

  unfoldable pub map_remove : K → List (K × V) → List (K × V)
  map_remove id [] = []
  map_remove id ((i, v) ∷ xs) =
      let rest = map_remove id xs in if eq id i then rest else (i, v) ∷ rest

  unfoldable pub map_insert : K → V → List (K × V) → List (K × V)
  unfolding map_remove
  map_insert id v xs = (id, v) ∷ map_remove id xs

module _ (f : Finchers) (u : UuidCrate) where
  -- `Storage::get`
  unfoldable pub storage_get : u.Uuid → Storage f u → Outcome f.Error (Option String)
  storage_get id s =
      if s.poisoned then err (f.from_failure poison_error) else ok (map_get u.uuid_eq id s.inner)

  -- `Storage::set`
  unfoldable pub storage_set : u.Uuid → String → Effect (Storage f u) f.Error (Unit {0})
  storage_set id v s =
      if s.poisoned
      then (err (f.from_failure poison_error), s)
      else (ok tt, record s { inner = map_insert u.uuid_eq id v s.inner })

  -- `Storage::remove`
  unfoldable pub storage_remove : u.Uuid → Effect (Storage f u) f.Error (Unit {0})
  storage_remove id s =
      if s.poisoned
      then (err (f.from_failure poison_error), s)
      else (ok tt, record s { inner = map_remove u.uuid_eq id s.inner })

  abbrev pub Shared : Type 0 → Type 0
  Shared A = Effect (f.Input × Storage f u) f.Error A

  -- `input.cookies()?`
  abbrev pub borrow_cookies : Shared f.CookieJar
  borrow_cookies (input, s) = let (r, input') = f.cookies input in (r, (input', s))

  abbrev pub change_cookies : (f.CookieJar → f.CookieJar) → Shared (Unit {0})
  change_cookies op = borrow_cookies >>= λ jar. modify (λ st. (f.put_jar (op jar) st.0, st.1))

  -- a call on the storage
  abbrev pub stored : Effect (Storage f u) f.Error (Unit {0}) → Shared (Unit {0})
  stored op (input, s) = let (r, s') = op s in (r, (input, s'))

  -- the part of `InMemoryBackend::read_value` that has found a cookie
  unfoldable pub read_cookie : f.Cookie → Shared (Option String × Option u.Uuid)
  unfolding storage_get
  read_cookie cookie = do
    id ← lift (with_error f.bad_request (u.parse_uuid (f.cookie_value cookie)))
    value ← λ st. (storage_get id st.1, st)
    pure (value, some id)

  -- `InMemoryBackend::read_value`
  unfoldable pub read_value : Shared (Option String × Option u.Uuid)
  unfolding read_cookie
  read_value = borrow_cookies >>= λ jar. elim (f.get "session-id" jar) [
    | some cookie ↦ read_cookie cookie
    | none ↦ pure (none, none)
  ]

  -- `InMemoryBackend::write_value`
  unfoldable pub write_value : u.Uuid → String → Shared (Unit {0})
  unfolding storage_set
  write_value id value = do
    stored (storage_set id value)
    change_cookies (f.add (f.new_cookie "session-id" (u.uuid_to_string id)))

  -- `InMemoryBackend::remove_value`
  unfoldable pub remove_value : u.Uuid → Shared (Unit {0})
  unfolding storage_remove
  remove_value id = do stored (storage_remove id); change_cookies (f.remove (f.named "session-id"))

  -- `InMemoryBackend::apply`
  unfoldable pub read_session : Shared (InMemorySession f u)
  unfolding read_value
  read_session = do read ← read_value; pure (record { session_id = read.1; value = read.0 })

  -- `InMemorySession::write_impl`, with the identifier that `Uuid::new_v4` would give
  unfoldable pub write_impl : u.Uuid → InMemorySession f u → Shared (Unit {0})
  unfolding write_value remove_value
  write_impl new_v4 s = elim s.value [
    | some value ↦ write_value (unwrap_or new_v4 s.session_id) value
    | none ↦ elim s.session_id [ some id ↦ remove_value id | none ↦ pure tt ]
  ]

  -- `RawSession for InMemorySession`; `write` is `future::result` of `write_impl`
  unfoldable pub in_memory_raw :
      (fr : FutureResults f)
      → u.Uuid
      → RawSession f (f.Input × Storage f u) (InMemorySession f u) fr.FutureResult
  unfolding write_impl
  in_memory_raw fr new_v4 = record {
    raw_get = λ s. s.value;
    raw_set = λ value s. record s { value = some value };
    raw_remove = λ s. record s { value = none };
    write = λ s st. let (r, st') = write_impl new_v4 s st in (ok (fr.result r), st');
    poll_write = fr.poll_result;
  }
