-- ===== src/Error/Downcast.antt =====
-- src/error.rs: the downcasting of a type-erased error. Two types with the same `TypeId` are the same
-- type, so an erased error is a value with the identifier of its type beside it.
use mathlib.Core.Path.{subst, subst_refl}
use mathlib.Core.Sum.{inl-injective, inr-injective}
use mathlib.Core.HLevel.{hedberg}
use finch_router.Prelude.{
  refl, sym, ap, ◌∙◌, ◌≡◌, Option, none, some, ◌⊎◌, inl, inr, ◌↔◌, ◌≢◌, Bool, true, false, arith,
}

-- The implementors of `HttpError`, by their `TypeId`.
pub record Implementors : Type 1 where
  pub TypeId : Type 0
  pub id_discrete : Discrete TypeId
  pub Value : TypeId → Type 0

module _ (m : Implementors) where
  open m use {TypeId, id_discrete, Value}

  -- `Box<dyn HttpError>`, and `Error`, which holds one
  abbrev pub Erased : Type 0
  Erased = (t : TypeId) × Value t

  -- `Error::new`
  unfoldable pub new : (t : TypeId) → Value t → Erased
  new t x = (t, x)

  -- `is`
  unfoldable pub is : TypeId → Erased → Bool
  is t e = elim (id_discrete e.0 t) [ yes _ ↦ true | no _ ↦ false ]

  -- `downcast_ref`; the cast of the pointer is the move along the equation of the types
  unfoldable pub downcast_ref : (t : TypeId) → Erased → Option (Value t)
  downcast_ref t e = elim (id_discrete e.0 t) [ yes p ↦ some (subst Value p e.1) | no _ ↦ none ]

  -- `downcast_mut`, with what is written through the reference that it gives
  unfoldable pub downcast_mut : (t : TypeId) → (Value t → Value t) → Erased → Erased
  downcast_mut t write e = elim (id_discrete e.0 t) [
    | yes p ↦ (t, write (subst Value p e.1))
    | no _ ↦ e
  ]

  -- `downcast`, of the box and of `Error`
  unfoldable pub downcast : (t : TypeId) → Erased → Value t ⊎ Erased
  downcast t e = elim (id_discrete e.0 t) [ yes p ↦ inl (subst Value p e.1) | no _ ↦ inr e ]

  -- the two cases of a cast, as the decision gives them
  cast : (t : TypeId) (e : Erased) → Dec (e.0 ≡ t) → Value t ⊎ Erased
  cast t e d = elim d [ yes p ↦ inl (subst Value p e.1) | no _ ↦ inr e ]

  cast-new : (t : TypeId) (x : Value t) (d : Dec (t ≡ t)) → cast t (t, x) d ≡ inl x
  unfolding cast
  cast-new t x (yes p) =
      ap (λ q. inl (subst Value q x)) (hedberg id_discrete t t p refl)
      ∙ ap (λ y. inl y) (subst_refl Value x)
  cast-new t x (no n) = absurd (n refl)

  cast-inl :
      (t : TypeId) (e : Erased) (x : Value t) (d : Dec (e.0 ≡ t)) → cast t e d ≡ inl x → e ≡ (t, x)
  unfolding cast
  cast-inl t e x (yes p) h =
      (λ i. (p i, coe 0 i (k. Value (p k)) e.1)) ∙ ap (λ y. (t, y)) (inl-injective _ _ h)
  cast-inl t e x (no n) h = cc

  cast-inr :
      (t : TypeId) (e e' : Erased) (d : Dec (e.0 ≡ t))
      → (cast t e d ≡ inr e') ↔ ((e' ≡ e) × (e.0 ≢ t))
  unfolding cast
  cast-inr t e e' (yes p) = (λ h. cc, λ h. absurd (h.1 p))
  cast-inr t e e' (no n) = (λ h. (sym (inr-injective _ _ h), n), λ h. ap (λ y. inr y) (sym h.0))

  ref-cast :
      (t : TypeId) (e : Erased)
      → downcast_ref t e ≡ elim (cast t e (id_discrete e.0 t)) [ inl x ↦ some x | inr _ ↦ none ]
  unfolding downcast_ref cast
  ref-cast t e = ground arith

  written : (t : TypeId) (write : Value t → Value t) (e : Erased) → Dec (e.0 ≡ t) → Erased
  written t write e d = elim d [ yes p ↦ (t, write (subst Value p e.1)) | no _ ↦ e ]

  written-new :
      (t : TypeId) (write : Value t → Value t) (x : Value t) (d : Dec (t ≡ t))
      → written t write (t, x) d ≡ (t, write x)
  unfolding written
  written-new t write x (yes p) =
      ap (λ q. (t, write (subst Value q x))) (hedberg id_discrete t t p refl)
      ∙ ap (λ y. (t, write y)) (subst_refl Value x)
  written-new t write x (no n) = absurd (n refl)

  -- Casting down an erased error gives a value, or a reference to one, exactly where the error was
  -- made of that value; it gives an error back exactly where that is the error itself and its type is
  -- another one. What is written through a reference to the value of an error replaces that value.
  pub downcast_iff :
      (t : TypeId) (e : Erased) (x : Value t) (e' : Erased) (write : Value t → Value t)
      → ((downcast t e ≡ inl x) ↔ (e ≡ new t x))
        × ((downcast_ref t e ≡ some x) ↔ (e ≡ new t x))
        × ((downcast t e ≡ inr e') ↔ ((e' ≡ e) × (e.0 ≢ t)))
        × (downcast_mut t write (new t x) ≡ new t (write x))
  unfolding downcast downcast_mut new cast written
  downcast_iff t e x e' write =
      let found = cast-inl t e x (id_discrete e.0 t) in
      let made : e ≡ (t, x) → downcast t e ≡ inl x =
        λ h. ap (downcast t) h ∙ cast-new t x (id_discrete t t) in
      (
        (found, made),
        (λ h. found (ground (arith, ref-cast t e, h)), λ h. ground (arith, ref-cast t e, made h)),
        cast-inr t e e' (id_discrete e.0 t),
        written-new t write x (id_discrete t t),
      )
