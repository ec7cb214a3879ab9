-- ===== src/Prelude/Lists.antt =====
-- Lists measured and cut by native numbers, equality of byte strings, and a predicate on all items.
use Prim.Native.Nat.{ℕ, zero, suc, ◌+◌}
use Prim.Native.Nat.add
use mathlib.Core.Path.{◌≡◌, refl, ap}
use mathlib.Core.Logic.{◌↔◌}
use mathlib.Core.Bool.{Bool, true, false, ◌&&◌}
use mathlib.Core.List.{List, [], ◌∷◌, ◌++◌}
use mathlib.Core.Option.{Option, none, some}
use native.Mathlib.Omega.{arith}
use finch_router.Prelude.Tests.{◌==◌}

module _ {ℓ} {A : Type ℓ} where
  abbrev pub length : List A → ℕ
  length [] = 0
  length (x ∷ xs) = suc (length xs)

  abbrev pub take : ℕ → List A → List A
  take zero xs = []
  take (suc n) [] = []
  take (suc n) (x ∷ xs) = x ∷ take n xs

  abbrev pub drop : ℕ → List A → List A
  drop zero xs = xs
  drop (suc n) [] = []
  drop (suc n) (x ∷ xs) = drop n xs

  -- The slice `s[n..]`, which panics past the end.
  abbrev pub suffix? : ℕ → List A → Option (List A)
  suffix? zero xs = some xs
  suffix? (suc n) [] = none
  suffix? (suc n) (x ∷ xs) = suffix? n xs

  pub length-append : (xs ys : List A) → length (xs ++ ys) ≡ length xs + length ys
  length-append [] ys = omega arith
  length-append (x ∷ xs) ys = omega (arith, length-append xs ys)

  pub suffix?-append : (xs ys : List A) → suffix? (length xs) (xs ++ ys) ≡ some ys
  suffix?-append [] ys = refl
  suffix?-append (x ∷ xs) ys = suffix?-append xs ys

  pub take-append : (xs ys : List A) → take (length xs) (xs ++ ys) ≡ xs
  take-append [] ys = refl
  take-append (x ∷ xs) ys = ap (λ l. x ∷ l) (take-append xs ys)

-- Equality of byte strings.
abbrev pub bytes_eq : List ℕ → List ℕ → Bool
bytes_eq [] [] = true
bytes_eq (x ∷ xs) (y ∷ ys) = (x == y) && bytes_eq xs ys
bytes_eq _ _ = false

pub bytes_eq_iff : (xs ys : List ℕ) → (bytes_eq xs ys ≡ true) ↔ (xs ≡ ys)
bytes_eq_iff [] [] = ground arith
bytes_eq_iff [] (y ∷ ys) = ground arith
bytes_eq_iff (x ∷ xs) [] = ground arith
bytes_eq_iff (x ∷ xs) (y ∷ ys) = ground (arith, bytes_eq_iff xs ys)

module _ {ℓ κ} {A : Type ℓ} (P : A → Type κ) where
  abbrev pub All : List A → Type κ
  All [] = Unit
  All (x ∷ xs) = P x × All xs

module _ {ℓ} {A : Type ℓ} where
  pub length-suffix? :
      (n : ℕ) (xs : List A) {ys : List A} → suffix? n xs ≡ some ys → n + length ys ≡ length xs
  length-suffix? zero xs h = ground arith
  length-suffix? (suc n) [] h = cc
  length-suffix? (suc n) (x ∷ xs) h = omega (arith, length-suffix? n xs h)

  pub suffix?-add :
      (n : ℕ) (xs : List A) {ys : List A} (m : ℕ)
      → suffix? n xs ≡ some ys
      → suffix? (n + m) xs ≡ suffix? m ys
  suffix?-add zero xs m h = ground (arith, add.zero m)
  suffix?-add (suc n) [] m h = cc
  suffix?-add (suc n) (x ∷ xs) m h = rw add.suc (suffix?-add n xs m h)

  pub suffix?-length : (xs : List A) → suffix? (length xs) xs ≡ some []
  suffix?-length [] = refl
  suffix?-length (x ∷ xs) = suffix?-length xs
