-- ===== src/Sessions/InMemory/Laws.antt =====
-- finchers-session/src/in_memory.rs: what a request reads of the session that another has written.
use finch_router.Prelude.{
  ◌≢◌, ◌⊎◌, ◌≡◌, refl, true, false, List, [], ◌∷◌, ◌↔◌, Bool, none, some, ok, arith, unwrap_or,
}
use finch_router.Finchers.{Finchers, JarLaws}
use finch_router.Sessions.{UuidCrate, UuidLaws}
use finch_router.Sessions.InMemory.{
  Storage, InMemorySession, map_get, map_remove, map_insert, read_session, write_impl,
}

module _ {K V : Type 0} (eq : K → K → Bool) (eq_iff : (a b : K) → (eq a b ≡ true) ↔ (a ≡ b)) where
  pub map_get-map_insert :
      (id : K) (v : V) (xs : List (K × V)) → map_get eq id (map_insert eq id v xs) ≡ some v
  unfolding map_get map_insert
  map_get-map_insert id v xs = ground (arith, eq_iff id id)

  pub map_get-map_remove : (id : K) (xs : List (K × V)) → map_get eq id (map_remove eq id xs) ≡ none
  unfolding map_get map_remove
  map_get-map_remove id [] = refl
  map_get-map_remove id ((i, v) ∷ xs) = ground (arith, map_get-map_remove id xs)

module _ (f : Finchers) (u : UuidCrate) (jars : JarLaws f) (uuids : UuidLaws u) where
  -- what is read back of a session
  abbrev pub reread : u.Uuid → InMemorySession f u → InMemorySession f u
  reread new_v4 s = elim s.value [
    | some v ↦ record { session_id = some (unwrap_or new_v4 s.session_id); value = some v }
    | none ↦ record { session_id = none; value = none }
  ]

  -- Where the lock is not poisoned and the input has a jar, writing a session that has a value or an
  -- identifier succeeds, and leaves what the session holds, if anything, under its identifier, or
  -- else under the new one. Reading from the input and the storage that are left gives a session with
  -- the same value under that identifier, or with neither where the value was removed.
  pub read_session-write_impl :
      (new_v4 : u.Uuid) (s : InMemorySession f u) (storage : Storage f u) (input input' : f.Input)
      (jar : f.CookieJar)
      → (s.value ≢ none) ⊎ (s.session_id ≢ none)
      → storage.poisoned ≡ false
      → f.cookies input ≡ (ok jar, input')
      → let (r, st) = write_impl f u new_v4 s (input, storage) in
        (r ≡ ok tt)
        × (map_get u.uuid_eq (unwrap_or new_v4 s.session_id) st.1.inner ≡ s.value)
        × (read_session f u st ≡ (ok (reread new_v4 s), st))
  unfolding write_impl read_session
  read_session-write_impl new_v4 s storage input input' jar h hp hc =
      let id = unwrap_or new_v4 s.session_id in
      let written = unwrap_or "" s.value in
      let cookie = f.new_cookie "session-id" (u.uuid_to_string id) in
      let (c, got, value) = jars.get-add "session-id" (u.uuid_to_string id) jar in
      ground (
        arith,
        h,
        hp,
        hc,
        got,
        value,
        jars.get-remove "session-id" jar,
        jars.cookies-put_jar (f.add cookie jar) input',
        jars.cookies-put_jar (f.remove (f.named "session-id") jar) input',
        uuids.parse-to_string id,
        map_get-map_insert u.uuid_eq uuids.uuid_eq_iff id written storage.inner,
        map_get-map_remove u.uuid_eq uuids.uuid_eq_iff id storage.inner,
      )
