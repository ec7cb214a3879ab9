-- ===== src/Prelude/Results.antt =====
-- How a call ends. A Rust function that returns `Result<A, E>` may also panic.
use mathlib.Core.Path.{◌≡◌, refl}
use mathlib.Core.Logic.{◌⊎◌, inl, inr}
use mathlib.Core.Option.{Option, none, some}

pub data Outcome {ℓ κ} (E : Type ℓ) (A : Type κ) : Type (ℓ ⊔ κ) where
  ok : A → Outcome E A
  err : E → Outcome E A
  panicked : Outcome E A

pub Outcome-cases {ℓ κ} :
    {E : Type ℓ} {A : Type κ} (r : Outcome E A)
    → ((a : A) × (r ≡ ok a)) ⊎ (((e : E) × (r ≡ err e)) ⊎ (r ≡ panicked))
Outcome-cases (ok a) = inl (a, refl)
Outcome-cases (err e) = inr (inl (e, refl))
Outcome-cases panicked = inr (inr refl)

-- A computation that changes a state and may fail; the state that it leaves is kept on every path.
abbrev pub Effect : Type 0 → Type 0 → Type 0 → Type 0
Effect S E A = S → Outcome E A × S

module _ {S E : Type 0} where
  abbrev pub pure : {A : Type 0} → A → Effect S E A
  pure a s = (ok a, s)

  abbrev pub lift : {A : Type 0} → Outcome E A → Effect S E A
  lift r s = (r, s)

  abbrev pub reading : {A : Type 0} → (S → Outcome E A) → Effect S E A
  reading f s = (f s, s)

  abbrev pub modify : (S → S) → Effect S E (Unit {0})
  modify f s = (ok tt, f s)

  abbrev pub continue : {A B : Type 0} → Outcome E A → (A → Effect S E B) → Effect S E B
  continue (ok a) f s = f a s
  continue (err e) f s = (err e, s)
  continue panicked f s = (panicked, s)

infixl 5 ◌>>=◌ ◌>>◌
abbrev pub ◌>>=◌ : {S E A B : Type 0} → Effect S E A → (A → Effect S E B) → Effect S E B
◌>>=◌ m f s = let (r, s') = m s in continue r f s'

abbrev pub ◌>>◌ : {S E B : Type 0} → Effect S E (Unit {0}) → Effect S E B → Effect S E B
m >> n = m >>= λ _. n

-- `map_err`, where a call leaves another error
abbrev pub with_error {ℓ} : {D E : Type 0} {A : Type ℓ} → (D → E) → Outcome D A → Outcome E A
with_error op (ok x) = ok x
with_error op (err e) = err (op e)
with_error op panicked = panicked

abbrev pub unwrap_or {ℓ} : {A : Type ℓ} → A → Option A → A
unwrap_or d none = d
unwrap_or d (some x) = x

-- `?` on a result
abbrev pub chain {ℓ κ} :
    {E : Type 0} {A : Type ℓ} {B : Type κ} → Outcome E A → (A → Outcome E B) → Outcome E B
chain (ok x) f = f x
chain (err e) f = err e
chain panicked f = panicked
