-- ===== src/Tests/Polls.antt =====
-- Polling `and`, and futures that are not ready at times.
use finch_router.Prelude.{ℕ, zero, suc, refl, List, [], ◌∷◌, none, Outcome, ok}
use finch_router.Common.{One, one}
use finch_router.Error.{Error}
use finch_router.Context.{ActionContext, take_body}
use finch_router.Action.{Async, not_ready, EndpointAction}
use finch_router.Action.Runs.{Settles, now, later, as_poll}
use finch_router.Body.{poll_raw, default_preflight}
use finch_router.Ext.And.{in_flight, gone, AndAction, and_action}
use finch_router.Ext.And.Polling.{and_Settles}
use finch_router.Ext.Future.Performing.{Futures}
use finch_router.Ext.Future.Settling.{Resolves, resolved, pending}
use finch_router.Tests.{plain, request_context, posted, after}

abbrev pub Bytes : Type 0
Bytes = List ℕ

abbrev taken : ActionContext plain Bytes
taken = record { context = request_context; body = none }

-- the body, and 7 after one round
abbrev pub raw_action : EndpointAction plain Bytes (Unit {0}) (One Bytes)
raw_action = record { preflight = default_preflight; poll_action = poll_raw }

abbrev pub seven : EndpointAction plain Bytes ℕ ℕ
seven = after (ok 7)

seven_later : (cx : ActionContext plain Bytes) → Settles seven (ok 7) 0 cx 1 cx
seven_later cx = later refl (now refl)

raw_now : Settles raw_action (ok (one (1 ∷ 2 ∷ []))) tt taken tt posted
unfolding poll_raw take_body
raw_now = now refl

abbrev pairs : EndpointAction plain Bytes (AndAction (Unit {0}) (One Bytes) ℕ ℕ) (One Bytes × ℕ)
pairs = and_action (λ x y. (x, y)) raw_action seven

abbrev both_flying : AndAction (Unit {0}) (One Bytes) ℕ ℕ
both_flying = record { f1 = in_flight tt; f2 = in_flight 1 }

and_Settles_example :
    Settles pairs
      (ok (one (1 ∷ 2 ∷ []), 7))
      (record { f1 = gone; f2 = gone })
      taken
      both_flying
      posted
and_Settles_example = and_Settles (λ x y. (x, y)) raw_action seven raw_now (seven_later taken)

-- a future that is not ready a number of times, and then has a result
abbrev pub Waiting : Type 0
Waiting = ℕ × Outcome Error ℕ

abbrev wait : Waiting → Outcome Error (Async ℕ) × Waiting
wait (zero, r) = (as_poll r, (0, r))
wait (suc n, r) = (ok not_ready, (n, r))

pub wait-Resolves : (n : ℕ) (r : Outcome Error ℕ) → Resolves wait r (0, r) (n, r)
wait-Resolves zero r = resolved refl
wait-Resolves (suc n) r = pending refl (wait-Resolves n r)

abbrev pub waits : Futures Waiting ℕ
waits = record {
  poll = wait;
  result = λ w. w.1;
  spent = λ w. (0, w.1);
  resolves = λ w. wait-Resolves w.0 w.1;
}
