-- ===== src/Tests/Checks.antt =====
-- The checks of `or`, `or_strict`, `map` and of the verbs on the request of `/a/bc`.
use finch_router.Prelude.{ℕ, ◌≡◌, refl, List, [], ◌∷◌, Option, none, some, ok, err, map, arith}
use finch_router.Common.{One, one}
use finch_router.Context.{PreflightContext}
use finch_router.Cursor.{next_segment, find_slash, collect, remaining_path}
use finch_router.Action.{
  completed, map_ok, map_preflight, EndpointAction, OneshotAction, oneshot_preflight, oneshot_poll,
}
use finch_router.Syntax.{param_preflight, remains_preflight, FromEncodedStr, next, count}
use finch_router.Syntax.Verb.{bit}
use finch_router.Syntax.Verb.Laws.{iteration_skips_trace, yielded, listed, all_but_trace}
use finch_router.Ext.Or as Or
use finch_router.Ext.Or.{preflight_or, tag}
use finch_router.Ext.Or.Choice.{or_comm, swap_sides, swap_state}
use finch_router.Ext.OrStrict as OrStrict
use finch_router.Ext.OrStrict.{preflight_or_strict, poll_or_strict, or_strict_action}
use finch_router.Error.{bad_request}
use finch_router.Ext.OrStrict.Agreement.{or-eq-or_strict, merge, strict_state}
use finch_router.Tests.{plain, request_context, get_a_bc}

abbrev Body : Type 0
Body = List ℕ

abbrev as_it_is : FromEncodedStr Body
as_it_is s = ok s

abbrev oneshot : {A T : Type 0} → OneshotAction plain A T → EndpointAction plain Body (Option A) T
oneshot act = record { preflight = oneshot_preflight act; poll_action = oneshot_poll act }

-- `param` takes `a`, `remains` takes `a/bc`, and each of the segments matches or does not
abbrev one_param : EndpointAction plain Body (Option (Unit {0})) (One Body)
one_param = oneshot (param_preflight as_it_is)

abbrev all_remains : EndpointAction plain Body (Option (Unit {0})) (One Body)
all_remains = oneshot (remains_preflight as_it_is)

abbrev behind : ℕ → ℕ → PreflightContext plain
behind pos popped = record {
  context = request_context;
  cursor = record { pos = pos; popped = popped };
}

or_comm_example :
    let x = preflight_or one_param all_remains (Or.init (some tt) (some tt)) get_a_bc in
    let y = preflight_or all_remains one_param (Or.init (some tt) (some tt)) get_a_bc in
    (map_ok (map_preflight (tag swap_sides)) x.0 ≡ y.0) × (swap_state x.1 ≡ y.1) × (x.2 ≡ y.2)
unfolding oneshot_preflight param_preflight remains_preflight next count next_segment find_slash
    collect remaining_path
or_comm_example =
    or_comm one_param all_remains (some tt) none (some tt) none get_a_bc (behind 3 1) (behind 5 2)
      (completed (one (97 ∷ []))) (completed (one (97 ∷ 47 ∷ 98 ∷ 99 ∷ []))) refl refl (omega arith)

-- `param` pops the segment, and refuses it
abbrev no_param : EndpointAction plain Body (Option (Unit {0})) (One Body)
no_param = oneshot (param_preflight λ _. err (bad_request "refused"))

or-eq-or_strict_example :
    let x = preflight_or no_param one_param (Or.init (some tt) (some tt)) get_a_bc in
    let y = preflight_or_strict no_param one_param (OrStrict.init (some tt) (some tt)) get_a_bc in
    (map_ok (map_preflight (tag merge)) x.0 ≡ y.0) × (strict_state x.1 ≡ y.1) × (x.2 ≡ y.2)
unfolding oneshot_preflight param_preflight next next_segment find_slash
or-eq-or_strict_example =
    or-eq-or_strict no_param one_param (some tt) (some tt) get_a_bc (λ e. ground (arith, e))
      (λ e. ground (arith, e)) (λ p q e f. absurd (ground (arith, e)))

iteration_skips_trace_example :
    yielded (record { bits = 257 }) ≡ some (map bit (listed (record { bits = 257 }) all_but_trace))
iteration_skips_trace_example = iteration_skips_trace 257 (omega arith)
