-- ===== src/Tests/Errors.antt =====
-- Two types of errors: a number and a text.
use finch_router.Prelude.{ℕ, suc, ◌≡◌, ◌≢◌, ◌↔◌, Bool, true, false, String, some, inl, inr}
use finch_router.Error.Downcast.{
  Implementors, Erased, new, downcast, downcast_ref, downcast_mut, downcast_iff,
}

abbrev ValueOf : Bool → Type 0
ValueOf true = ℕ
ValueOf false = String

Bool-decided : Discrete Bool
Bool-decided = hlevel

abbrev two : Implementors
two = record { TypeId = Bool; id_discrete = Bool-decided; Value = ValueOf }

abbrev teapot : Erased two
teapot = (true, 418)

abbrev told : Erased two
told = (false, "told")

downcast_iff_example :
    ((downcast two true teapot ≡ inl 418) ↔ (teapot ≡ new two true 418))
    × ((downcast_ref two true teapot ≡ some 418) ↔ (teapot ≡ new two true 418))
    × ((downcast two true teapot ≡ inr told) ↔ ((told ≡ teapot) × (teapot.0 ≢ true)))
    × (downcast_mut two true suc (new two true 418) ≡ new two true 419)
downcast_iff_example = downcast_iff two true teapot 418 told suc
