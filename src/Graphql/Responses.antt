-- ===== src/Graphql/Responses.antt =====
-- finchers-juniper/src/request.rs: the status of an executed request.
use finch_router.Prelude.{
  ℕ, ◌≡◌, ◌↔◌, refl, List, [], ◌∷◌, Bool, Outcome, ok, arith, true, false, All, map,
}
use finch_router.Finchers.{Finchers}
use finch_router.Graphql.{
  Juniper, GraphQlRequest, single_request, batch, execute, respond, all_ok, Answer,
}

module _ (f : Finchers) (j : Juniper f) (root : j.RootNode) (context : j.Ctx) where
  -- the requests of either kind
  abbrev pub requests_of : GraphQlRequest f j → List j.Request
  requests_of (single_request r) = r ∷ []
  requests_of (batch rs) = rs

  abbrev pub Succeeds : j.Request → Type 0
  Succeeds r = j.response_is_ok (j.execute_one r root context) ≡ true

  all_ok_iff :
      (rs : List j.Request)
      → (all_ok f j (map (λ r. j.execute_one r root context) rs) ≡ true) ↔ All Succeeds rs
  unfolding all_ok
  all_ok_iff [] = ground arith
  all_ok_iff (r ∷ rs) = ground (arith, all_ok_iff rs)

  abbrev Printed : Outcome f.Error Answer → List ℕ → Type 0 → Type 0
  Printed r bytes P =
      (a : Answer) × (r ≡ ok a)
      × (a.body ≡ bytes)
      × (a.content_type ≡ "application/json")
      × ((a.status ≡ 200) ↔ P)
      × ((a.status ≡ 400) ↔ (P → ⊥))

  respond-Printed :
      (is_ok : Bool) (bytes : List ℕ) {P : Type 0}
      → (is_ok ≡ true) ↔ P
      → Printed (respond f j (record { is_ok = is_ok; body = ok bytes })) bytes P
  unfolding respond
  respond-Printed true bytes e = (_, refl, refl, refl, ground (arith, e), ground (arith, e))
  respond-Printed false bytes e = (_, refl, refl, refl, ground (arith, e), ground (arith, e))

  -- Where the responses can be printed, the answer has them as JSON, and its status is 200 where every
  -- request succeeds, and 400 where one does not: a batch succeeds as a whole or not at all.
  respond-execute :
      (q : GraphQlRequest f j) (bytes : List ℕ)
      → (execute f j q root context).body ≡ ok bytes
      → (a : Answer) × (respond f j (execute f j q root context) ≡ ok a)
        × (a.body ≡ bytes)
        × (a.content_type ≡ "application/json")
        × ((a.status ≡ 200) ↔ All Succeeds (requests_of q))
        × ((a.status ≡ 400) ↔ (All Succeeds (requests_of q) → ⊥))
  unfolding execute respond
  respond-execute (single_request r) bytes h =
      let responded =
        respond-Printed (j.response_is_ok (j.execute_one r root context)) bytes
          {P = All Succeeds (r ∷ [])} (ground arith) in
      rw h responded
  respond-execute (batch rs) bytes h = rw h (
      respond-Printed (all_ok f j (map (λ r. j.execute_one r root context) rs)) bytes
        (all_ok_iff rs))
