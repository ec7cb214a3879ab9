-- ===== src/Routing/Bracketing.antt =====
-- src/endpoint/ext/and.rs, src/service.rs: the service of a chain of three endpoints.
use mathlib.Core.Path.{PathP}
use finch_router.Prelude.{ℕ, ◌≡◌, List, ◌∷◌, Outcome}
use finch_router.Common.{HList}
use finch_router.Crates.{Crates}
use finch_router.Error.{Error}
use finch_router.Cursor.{slash}
use finch_router.Cursor.Split.{split}
use finch_router.Action.{Async, map_ok}
use finch_router.Action.Runs.{as_poll}
use finch_router.Routing.{Route, both, compile}
use finch_router.Routing.Associating.{types_assoc, denote_assoc}
use finch_router.Routing.Serving.{poll_apply-compile}
use finch_router.Service.{dispatch, poll_apply}

-- On a request whose path is a slash and a rest, the services of `a.and(b).and(c)` and of
-- `a.and(b.and(c))`, each built of the endpoints of a `Route`, answer alike at their first poll,
-- over the equation between the types of their outputs: the same outputs in the same order, or the
-- same error.
pub poll_apply-both-both :
    (k : Crates) {Bd : Type 0} {ts us vs : List (Type 0)} (a : Route ts) (b : Route us)
    (c : Route vs) (request : k.Request) (body : Bd) (rest : List ℕ)
    → k.path request ≡ slash ∷ rest
    → let left = compile k Bd (both (both a b) c) in
      let right = compile k Bd (both a (both b c)) in
      PathP
        (λ i. Outcome Error (Async (HList (types_assoc ts us vs i))))
        (poll_apply left.behaviour (dispatch left request body)).0
        (poll_apply right.behaviour (dispatch right request body)).0
poll_apply-both-both k a b c request body rest h =
    rw
      (
        poll_apply-compile k (both (both a b) c) request body rest h,
        poll_apply-compile k (both a (both b c)) request body rest h,
      )
      (λ i. as_poll (map_ok (λ x. x.0) (denote_assoc k request a b c (split rest) i)))
