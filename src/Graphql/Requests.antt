-- ===== src/Graphql/Requests.antt =====
-- finchers-juniper/src/request.rs: the request that a client's query or body comes to.
use mathlib.Core.Path.{subst}
use finch_router.Prelude.{
  with_error, ◌≢◌, ℕ, String, ◌≡◌, refl, List, none, some, Outcome, ok, err, panicked, arith, true,
  false, chain, Outcome-cases, Option-cases, Bool-cases, inl, inr, ◌⊎◌,
}
use finch_router.Crates.{get}
use finch_router.Finchers.{Finchers}
use finch_router.Action.{ready}
use finch_router.Action.Runs.{as_poll}
use finch_router.Ext.Future.Settling.{Resolves, resolved, pending}
use finch_router.Graphql.{
  Juniper, GraphQlRequest, single_request, single_query, get_kind, post_kind, apply_request,
  from_query, from_body, poll_request,
}

module _ (f : Finchers) (j : Juniper f) where
  as_poll-chain : {A : Type 0} (r : Outcome f.Error A) → chain r (λ x. ok (ready x)) ≡ as_poll r
  as_poll-chain (ok x) = refl
  as_poll-chain (err e) = refl
  as_poll-chain panicked = refl

  posted-Resolves :
      (from_slice : List ℕ → Outcome String (GraphQlRequest f j)) (input : f.Input) {bytes : List ℕ}
      {g' g : j.ReceiveAll}
      → Resolves j.poll_body (ok bytes) g' g
      → Resolves
          (poll_request f j from_slice input)
          (from_body f j from_slice bytes input)
          (post_kind g')
          (post_kind g)
  unfolding poll_request
  posted-Resolves from_slice input {bytes} (resolved e) =
      resolved (ground (arith, e, as_poll-chain (from_body f j from_slice bytes input)))
  posted-Resolves from_slice input (pending e st) =
      pending (ground (arith, e)) (posted-Resolves from_slice input st)

  -- A request by GET is applied without its body, and resolves at once to what its query parses to.
  apply_request-Resolves_get :
      (from_slice : List ℕ → Outcome String (GraphQlRequest f j)) (input : f.Input)
      → j.method input ≡ get
      → (apply_request f j input ≡ (ok get_kind, input))
        × Resolves (poll_request f j from_slice input) (from_query f j input) get_kind get_kind
  unfolding apply_request poll_request
  apply_request-Resolves_get from_slice input h =
      (ground (arith, h), resolved (ground (arith, as_poll-chain (from_query f j input))))

  -- What a body is read as, by the content type of an input: under JSON what `from_slice` reads, and
  -- under the type of GraphQL a single query of its text. Anything else is a bad request.
  pub data BodyReads (from_slice : List ℕ → Outcome String (GraphQlRequest f j)) (input : f.Input)
      (bytes : List ℕ) (r : Outcome f.Error (GraphQlRequest f j)) : Type 0 where
    as_json :
        {m : j.Mime}
        → j.content_type input ≡ ok (some m)
        → j.mime_eq m "application/json" ≡ true
        → r ≡ with_error f.bad_request (from_slice bytes)
        → BodyReads from_slice input bytes r
    as_graphql :
        {m : j.Mime} {s : String}
        → j.content_type input ≡ ok (some m)
        → j.mime_eq m "application/json" ≡ false
        → j.mime_eq m "application/graphql" ≡ true
        → j.from_utf8 bytes ≡ ok s
        → r ≡ ok (single_request (j.new_request s none none))
        → BodyReads from_slice input bytes r
    not_utf8 :
        {m : j.Mime} {cause : String}
        → j.content_type input ≡ ok (some m)
        → j.mime_eq m "application/json" ≡ false
        → j.mime_eq m "application/graphql" ≡ true
        → j.from_utf8 bytes ≡ err cause
        → r ≡ err (f.bad_request cause)
        → BodyReads from_slice input bytes r
    unsupported :
        {m : j.Mime}
        → j.content_type input ≡ ok (some m)
        → j.mime_eq m "application/json" ≡ false
        → j.mime_eq m "application/graphql" ≡ false
        → r ≡ err (f.bad_request "unsupported content-type.")
        → BodyReads from_slice input bytes r
    missing :
        j.content_type input ≡ ok none
        → r ≡ err (f.bad_request "missing content-type.")
        → BodyReads from_slice input bytes r
    malformed :
        {cause : String}
        → j.content_type input ≡ err cause
        → r ≡ err (f.bad_request cause)
        → BodyReads from_slice input bytes r

  from_body-BodyReads :
      (from_slice : List ℕ → Outcome String (GraphQlRequest f j)) (input : f.Input) (bytes : List ℕ)
      (r : Outcome f.Error (GraphQlRequest f j))
      → BodyReads from_slice input bytes r
      → from_body f j from_slice bytes input ≡ r
  unfolding from_body single_query
  from_body-BodyReads from_slice input bytes r (as_json e t h) = ground (arith, e, t, h)
  from_body-BodyReads from_slice input bytes r (as_graphql e t u v h) =
      ground (arith, e, t, u, v, h)
  from_body-BodyReads from_slice input bytes r (not_utf8 e t u v h) = ground (arith, e, t, u, v, h)
  from_body-BodyReads from_slice input bytes r (unsupported e t u h) = ground (arith, e, t, u, h)
  from_body-BodyReads from_slice input bytes r (missing e h) = ground (arith, e, h)
  from_body-BodyReads from_slice input bytes r (malformed e h) = ground (arith, e, h)

  -- A request by any method but GET, also by one that is not POST, is applied by receiving its body.
  -- Where this resolves to bytes, however often it is not ready, the request resolves to what the bytes
  -- are read as under the content type of the input that is left.
  pub apply_request-Resolves_body :
      (from_slice : List ℕ → Outcome String (GraphQlRequest f j)) (input input' : f.Input)
      {bytes : List ℕ} {g' g : j.ReceiveAll} (r : Outcome f.Error (GraphQlRequest f j))
      → j.method input ≢ get
      → j.apply_receive_all input ≡ (ok g, input')
      → Resolves j.poll_body (ok bytes) g' g
      → BodyReads from_slice input' bytes r
      → (apply_request f j input ≡ (ok (post_kind g), input'))
        × Resolves (poll_request f j from_slice input') r (post_kind g') (post_kind g)
  unfolding apply_request
  apply_request-Resolves_body from_slice input input' {bytes} {g'} {g} r not_get applied st reads =
      (
        ground (arith, not_get, applied),
        subst (λ r. Resolves (poll_request f j from_slice input') r (post_kind g') (post_kind g))
            (from_body-BodyReads from_slice input' bytes r reads)
            (posted-Resolves from_slice input' st),
      )

  -- A body is read as a request only under one of the two content types: under the first it is what
  -- `from_slice` reads, and under the second, where it is not the first, it is a single query of
  -- its text.
  from_body_reads :
      (from_slice : List ℕ → Outcome String (GraphQlRequest f j)) (input : f.Input) (bytes : List ℕ)
      (q : GraphQlRequest f j)
      → from_body f j from_slice bytes input ≡ ok q
      → (m : j.Mime) × (j.content_type input ≡ ok (some m))
        × (((j.mime_eq m "application/json" ≡ true) × (from_slice bytes ≡ ok q))
            ⊎ ((j.mime_eq m "application/json" ≡ false)
                × (j.mime_eq m "application/graphql" ≡ true)
                × (s : String) × (j.from_utf8 bytes ≡ ok s)
                × (q ≡ single_query f j s none none)))
  unfolding from_body
  from_body_reads from_slice input bytes q h = elim (Outcome-cases (j.content_type input)) [
    | inr e ↦ absurd (ground (arith, e, h))
    | inl (found, e) ↦ elim (Option-cases found) [
      | inl g ↦ absurd (ground (arith, e, g, h))
      | inr (m, g) ↦ (
        m,
        ground (arith, e, g),
        elim (Bool-cases (j.mime_eq m "application/json")) [
          | inl t ↦ inl (t, ground (arith, e, g, t, h))
          | inr t ↦ elim (Bool-cases (j.mime_eq m "application/graphql")) [
            | inr u ↦ absurd (ground (arith, e, g, t, u, h))
            | inl u ↦ elim (Outcome-cases (j.from_utf8 bytes)) [
              | inl (s, v) ↦ inr (t, u, s, v, ground (arith, e, g, t, u, v, h))
              | inr v ↦ absurd (ground (arith, e, g, t, u, v, h))
            ]
          ]
        ],
      )
    ]
  ]
