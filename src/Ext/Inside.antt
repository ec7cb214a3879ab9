-- ===== src/Ext/Inside.antt =====
-- src/endpoint/ext: the place of the cursor in the path under the checks of the combinators.
use finch_router.Prelude.{none, some, Outcome, arith}
use finch_router.Common.{One}
use finch_router.Crates.{Crates}
use finch_router.Error.{Error}
use finch_router.Context.{PreflightContext}
use finch_router.Action.{Async, EndpointAction}
use finch_router.Syntax.Inside.{Inside}
use finch_router.Ext.And.{MaybeDone, AndAction, preflight_and, preflight_done}
use finch_router.Ext.Or as Or
use finch_router.Ext.Or.{preflight_or}
use finch_router.Ext.OrStrict as OrStrict
use finch_router.Ext.OrStrict.{preflight_or_strict}
use finch_router.Ext.Map.{preflight_map, preflight_map_err}
use finch_router.Ext.Future.{WithFuture, preflight_and_then, preflight_recover}

module _ {k : Crates} {Bd : Type 0} where
  -- A check from a cursor inside the path leaves it inside the path.
  abbrev pub KeepsInside : {S T : Type 0} → EndpointAction k Bd S T → Type 0
  KeepsInside {S = S} a =
      (s : S) (cx : PreflightContext k) → Inside cx → Inside (a.preflight s cx).2

  preflight_done-Inside :
      {F O : Type 0} (a : EndpointAction k Bd F O)
      → KeepsInside a
      → (m : MaybeDone F O) (cx : PreflightContext k) → Inside cx
      → Inside (preflight_done a m cx).2
  unfolding preflight_done
  preflight_done-Inside a keeps (MaybeDone.init none) cx h = h
  preflight_done-Inside a keeps (MaybeDone.init (some f)) cx h = ground (arith, keeps f cx h)
  preflight_done-Inside a keeps (MaybeDone.in_flight f) cx h = h
  preflight_done-Inside a keeps (MaybeDone.ready_with o) cx h = h
  preflight_done-Inside a keeps MaybeDone.gone cx h = h

  and-Inside :
      {L R O1 O2 O : Type 0} (join : O1 → O2 → O) (a1 : EndpointAction k Bd L O1)
      (a2 : EndpointAction k Bd R O2)
      → KeepsInside a1
      → KeepsInside a2
      → (s : AndAction L O1 R O2) (cx : PreflightContext k) → Inside cx
      → Inside (preflight_and join a1 a2 s cx).2
  unfolding preflight_and
  and-Inside join a1 a2 h1 h2 s cx h =
      let first = preflight_done-Inside a1 h1 s.f1 cx h in
      let second = preflight_done-Inside a2 h2 s.f2 (preflight_done a1 s.f1 cx).2 first in
      ground (arith, first, second)

  choice-Inside :
      {L R T : Type 0} (a1 : EndpointAction k Bd L (One T)) (a2 : EndpointAction k Bd R (One T))
      → KeepsInside a1
      → KeepsInside a2
      → (s : Or.State L R) (t : OrStrict.State L R) (cx : PreflightContext k) → Inside cx
      → Inside (preflight_or a1 a2 s cx).2 × Inside (preflight_or_strict a1 a2 t cx).2
  unfolding preflight_or preflight_or_strict
  choice-Inside a1 a2 h1 h2 (Or.init l r) (OrStrict.init l' r') cx h =
      ground (arith, h1 l cx h, h2 r cx h, h1 l' cx h, h2 r' cx h)
  choice-Inside a1 a2 h1 h2 (Or.init l r) _ cx h = ground (arith, h1 l cx h, h2 r cx h)
  choice-Inside a1 a2 h1 h2 _ (OrStrict.init l r) cx h = ground (arith, h1 l cx h, h2 r cx h)
  choice-Inside a1 a2 h1 h2 _ _ cx h = (h, h)

module _ {k : Crates} {Bd : Type 0} where
  wrapper-Inside :
      {S Fut R U : Type 0} (poll : Fut → Outcome Error (Async R) × Fut)
      (a : EndpointAction k Bd S (One R)) (f : One R → U) (g : Error → Error) (then : One R → Fut)
      (rescue : Error → Fut)
      → KeepsInside a
      → (s : S) (w : WithFuture S Fut) (cx : PreflightContext k) → Inside cx
      → Inside (preflight_map a f s cx).2
        × Inside (preflight_map_err a g s cx).2
        × Inside (preflight_and_then poll a then w cx).2
        × Inside (preflight_recover poll a rescue w cx).2
  unfolding preflight_map preflight_map_err preflight_and_then preflight_recover
  wrapper-Inside poll a f g then rescue keeps s w cx h =
      ground (arith, keeps s cx h, keeps w.action cx h)

module _ {k : Crates} {Bd : Type 0} where
  -- Where the checks of two actions keep the cursor inside the path, so do those of `and`, `or` and
  -- `or_strict` of the two, in every state, and those of `map`, `map_err`, `and_then` and `recover`
  -- of the first.
  combinators-Inside :
      {L R T O Fut U : Type 0} (poll : Fut → Outcome Error (Async T) × Fut)
      (join : One T → One T → O) (a1 : EndpointAction k Bd L (One T))
      (a2 : EndpointAction k Bd R (One T)) (f : One T → U) (g : Error → Error) (then : One T → Fut)
      (rescue : Error → Fut)
      → KeepsInside a1
      → KeepsInside a2
      → (both : AndAction L (One T) R (One T)) (s : Or.State L R) (t : OrStrict.State L R) (l : L)
        (w : WithFuture L Fut) (cx : PreflightContext k)
      → Inside cx
      → Inside (preflight_and join a1 a2 both cx).2
        × Inside (preflight_or a1 a2 s cx).2
        × Inside (preflight_or_strict a1 a2 t cx).2
        × Inside (preflight_map a1 f l cx).2
        × Inside (preflight_map_err a1 g l cx).2
        × Inside (preflight_and_then poll a1 then w cx).2
        × Inside (preflight_recover poll a1 rescue w cx).2
  combinators-Inside poll join a1 a2 f g then rescue h1 h2 both s t l w cx h =
      let (either, strict) = choice-Inside a1 a2 h1 h2 s t cx h in
      let (mapped, renamed, followed, rescued) =
        wrapper-Inside poll a1 f g then rescue h1 l w cx h in
      (and-Inside join a1 a2 h1 h2 both cx h, either, strict, mapped, renamed, followed, rescued)
