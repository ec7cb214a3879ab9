-- ===== src/Context/Local.antt =====
-- src/service.rs: the thread-local cell that holds a pointer to the context of the running task. A
-- pointer is an address `P`. A closure is a computation on the cell and on whatever else it changes,
-- and it may panic; `ResetOnDrop` writes the cell back when the scope ends, by a panic too.
use finch_router.Prelude.{
  ◌≡◌, Bool, true, false, Option, none, some, Outcome, ok, err, panicked, Effect, lift, ◌>>=◌, ◌>>◌,
  arith, Outcome-cases, inl, inr,
}

-- `TLS_CX`, and the rest of the state that the closures see
pub record Local (P St : Type 0) : Type 0 where
  pub tls_cx : Option P
  pub rest : St

-- `expect`
abbrev pub expect : {E R : Type 0} → Option R → Outcome E R
expect (some x) = ok x
expect none = panicked

module _ {P St E : Type 0} where
  -- `drop` of `ResetOnDrop`, at the end of a scope
  abbrev pub reset_on_drop :
      {R : Type 0} → Option P → Outcome E R × Local P St → Outcome E R × Local P St
  reset_on_drop old (r, st) = (r, record st { tls_cx = old })

  -- `is_set_task_cx`, and `Context::is_set`
  unfoldable pub is_set_task_cx : Effect (Local P St) E Bool
  is_set_task_cx st = (ok (elim st.tls_cx [ some _ ↦ true | none ↦ false ]), st)

  -- `set_task_cx`, and `Context::set` of the context at an address
  unfoldable pub set_task_cx : {R : Type 0} → P → Effect (Local P St) E R → Effect (Local P St) E R
  set_task_cx cx f st = reset_on_drop st.tls_cx (f (record st { tls_cx = some cx }))

  abbrev pub map_some : {R : Type 0} → Outcome E R × Local P St → Outcome E (Option R) × Local P St
  map_some (ok x, st) = (ok (some x), st)
  map_some (err e, st) = (err e, st)
  map_some (panicked, st) = (panicked, st)

  -- `get_task_cx`, and `Context::try_with`; the closure is given the address
  unfoldable pub get_task_cx :
      {R : Type 0} → (P → Effect (Local P St) E R) → Effect (Local P St) E (Option R)
  get_task_cx f st = reset_on_drop st.tls_cx (elim st.tls_cx [
    | some cx ↦ map_some (f cx (record st { tls_cx = none }))
    | none ↦ (ok none, record st { tls_cx = none })
  ])

  -- `Context::with`
  unfoldable pub with_cx : {R : Type 0} → (P → Effect (Local P St) E R) → Effect (Local P St) E R
  unfolding get_task_cx
  with_cx f = get_task_cx f >>= λ r. lift (expect r)

  -- A computation that leaves the cell as it found it.
  abbrev pub IsBalanced : {R : Type 0} → Effect (Local P St) E R → Type 0
  IsBalanced m = (st : Local P St) → (m st).1.tls_cx ≡ st.tls_cx

  -- The three scopes leave the cell as they found it, whatever the closure does to it, also where
  -- it panics.
  pub scopes-IsBalanced :
      {R : Type 0} (cx : P) (f : Effect (Local P St) E R) (g : P → Effect (Local P St) E R)
      → IsBalanced (set_task_cx cx f) × IsBalanced (get_task_cx g) × IsBalanced (with_cx g)
  unfolding set_task_cx with_cx
  scopes-IsBalanced cx f g = (λ st. ground arith, λ st. ground arith, λ st. ground arith)

  pub >>=-IsBalanced :
      {R S : Type 0} (m : Effect (Local P St) E R) (f : R → Effect (Local P St) E S)
      → IsBalanced m
      → ((x : R) → IsBalanced (f x))
      → IsBalanced (m >>= f)
  >>=-IsBalanced m f h hf st = elim (Outcome-cases (m st).0) [
    | inl (x, e) ↦ ground (arith, e, h st, hf x (m st).1)
    | inr e ↦ ground (arith, e, h st)
  ]

  -- While a closure of `with` has the context, it is not lent again: after anything that leaves the
  -- cell as it found it, the cell is not set, `try_with` calls nothing and gives none, and `with`
  -- calls nothing and panics.
  pub with_cx-excludes :
      {S : Type 0} (cx : P) (m : Effect (Local P St) E (Unit {0})) (g : P → Effect (Local P St) E S)
      (st : Local P St)
      → IsBalanced m
      → st.tls_cx ≡ some cx
      → (m (record st { tls_cx = none })).0 ≡ ok tt
      → let left = record (m (record st { tls_cx = none })).1 { tls_cx = some cx } in
        (with_cx (λ _. m >> is_set_task_cx) st ≡ (ok false, left))
        × (with_cx (λ _. m >> get_task_cx g) st ≡ (ok none, left))
        × (with_cx (λ _. m >> with_cx g) st ≡ (panicked, left))
  unfolding with_cx is_set_task_cx
  with_cx-excludes cx m g st balanced h e =
      ground (arith, h, e, balanced (record st { tls_cx = none }))

  -- Inside `set`, `with` is given the address that was set, and the closure runs with the cell empty;
  -- both scopes end with its result, and with the cell as it was before `set`.
  with_cx-set_task_cx :
      {R : Type 0} (cx : P) (f : P → Effect (Local P St) E R) (st : Local P St)
      → set_task_cx cx (with_cx f) st ≡ reset_on_drop st.tls_cx (f cx (record st { tls_cx = none }))
  unfolding set_task_cx with_cx
  with_cx-set_task_cx cx f st = ground arith
