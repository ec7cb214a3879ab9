-- ===== src/Sessions/InMemory/Sharing.antt =====
-- finchers-session/src/in_memory.rs: what writing a session does to the other sessions, and to a
-- storage whose lock is poisoned.
use finch_router.Prelude.{
  ◌≡◌, ◌≢◌, ◌⊎◌, refl, true, List, [], ◌∷◌, ◌↔◌, Bool, none, err, arith, unwrap_or,
}
use finch_router.Finchers.{Finchers}
use finch_router.Sessions.{UuidCrate, UuidLaws}
use finch_router.Sessions.InMemory.{
  Storage, InMemorySession, map_get, map_remove, map_insert, write_impl, poison_error,
}

module _ {K V : Type 0} (eq : K → K → Bool) (eq_iff : (a b : K) → (eq a b ≡ true) ↔ (a ≡ b)) where
  others-map_remove :
      (id other : K) (xs : List (K × V))
      → other ≢ id
      → map_get eq other (map_remove eq id xs) ≡ map_get eq other xs
  unfolding map_get map_remove
  others-map_remove id other [] h = refl
  others-map_remove id other ((i, v) ∷ xs) h =
      ground (arith, h, others-map_remove id other xs h, eq_iff id i, eq_iff other i)

  others-map_insert :
      (id other : K) (v : V) (xs : List (K × V))
      → other ≢ id
      → map_get eq other (map_insert eq id v xs) ≡ map_get eq other xs
  unfolding map_get map_insert
  others-map_insert id other v xs h =
      ground (arith, h, others-map_remove id other xs h, eq_iff other id)

module _ (f : Finchers) (u : UuidCrate) where
  -- Writing a session leaves what the storage holds under every identifier but its own, or the new
  -- one where it has none, also where the writing fails.
  pub others-write_impl :
      (uuids : UuidLaws u) (new_v4 other : u.Uuid) (s : InMemorySession f u) (input : f.Input)
      (storage : Storage f u)
      → other ≢ unwrap_or new_v4 s.session_id
      → map_get u.uuid_eq other (write_impl f u new_v4 s (input, storage)).1.1.inner
        ≡ map_get u.uuid_eq other storage.inner
  unfolding write_impl
  others-write_impl uuids new_v4 other s input storage h = ground (
    arith,
    h,
    others-map_insert u.uuid_eq uuids.uuid_eq_iff (unwrap_or new_v4 s.session_id) other
        (unwrap_or "" s.value) storage.inner,
    others-map_remove u.uuid_eq uuids.uuid_eq_iff (unwrap_or new_v4 s.session_id) other
        storage.inner,
  )

  -- Where the lock is poisoned, writing a session that has a value or an identifier fails with the
  -- error of the lock, and the input and the storage are left.
  write_impl_poisoned :
      (new_v4 : u.Uuid) (s : InMemorySession f u) (input : f.Input) (storage : Storage f u)
      → storage.poisoned ≡ true
      → (s.value ≢ none) ⊎ (s.session_id ≢ none)
      → write_impl f u new_v4 s (input, storage)
        ≡ (err (f.from_failure poison_error), (input, storage))
  unfolding write_impl
  write_impl_poisoned new_v4 s input storage hp h = ground (arith, h, hp)
