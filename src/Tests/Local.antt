-- ===== src/Tests/Local.antt =====
-- The thread-local cell, with one counter beside it that the closures change.
use finch_router.Prelude.{ℕ, suc, ◌≡◌, refl, false, none, some, ok, panicked, Effect, ◌>>◌}
use finch_router.Context.Local.{
  Local, IsBalanced, set_task_cx, get_task_cx, with_cx, is_set_task_cx, scopes-IsBalanced,
  with_cx-excludes,
}

abbrev Counter : Type 0
Counter = Local ℕ ℕ

abbrev count_up : Effect Counter ℕ (Unit {0})
count_up st = (ok tt, record st { rest = suc st.rest })

-- a closure that empties the cell and panics
abbrev breaks : Effect Counter ℕ (Unit {0})
breaks st = (panicked, record st { tls_cx = none })

abbrev at_seven : Counter
at_seven = record { tls_cx = some 7; rest = 0 }

scopes-IsBalanced_example :
    IsBalanced (set_task_cx 3 breaks)
    × IsBalanced (get_task_cx (λ _. breaks))
    × IsBalanced (with_cx (λ _. breaks))
scopes-IsBalanced_example = scopes-IsBalanced 3 breaks (λ _. breaks)

with_cx-excludes_example :
    let left : Counter = record { tls_cx = some 7; rest = 1 } in
    (with_cx (λ _. count_up >> is_set_task_cx) at_seven ≡ (ok false, left))
    × (with_cx (λ _. count_up >> get_task_cx (λ _. count_up)) at_seven ≡ (ok none, left))
    × (with_cx (λ _. count_up >> with_cx (λ _. count_up)) at_seven ≡ (panicked, left))
with_cx-excludes_example =
    with_cx-excludes 7 count_up (λ _. count_up) at_seven (λ st. refl) refl refl
