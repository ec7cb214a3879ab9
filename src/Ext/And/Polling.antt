-- ===== src/Ext/And/Polling.antt =====
-- src/endpoint/ext/and.rs: what polling an `And` comes to, and what its `preflight` returns.
use finch_router.Prelude.{◌≢◌, ok, err, arith}
use finch_router.Crates.{Crates}
use finch_router.Error.{Error}
use finch_router.Context.{PreflightContext, ActionContext}
use finch_router.Action.{completed, EndpointAction}
use finch_router.Action.Runs.{Settles, now, later}
use finch_router.Ext.And.{
  MaybeDone, in_flight, ready_with, gone, AndAction, and_action, preflight_and,
}

module _ {k : Crates} {Bd F1 F2 O1 O2 O : Type 0} (join : O1 → O2 → O)
    (a1 : EndpointAction k Bd F1 O1) (a2 : EndpointAction k Bd F2 O2) where
  abbrev both : MaybeDone F1 O1 → MaybeDone F2 O2 → AndAction F1 O1 F2 O2
  both m1 m2 = record { f1 = m1; f2 = m2 }

  -- the second action, once the first is done
  and_second :
      {o1 : O1} {o2 : O2} {s2' : F2} {cx' : ActionContext k Bd} {s2 : F2} {cx : ActionContext k Bd}
      → Settles a2 (ok o2) s2' cx' s2 cx
      → Settles
          (and_action join a1 a2)
          (ok (join o1 o2))
          (both gone gone)
          cx'
          (both (ready_with o1) (in_flight s2))
          cx
  unfolding and_action
  and_second (now e) = now (ground (arith, e))
  and_second (later e st) = later (ground (arith, e)) (and_second st)

  -- Once both actions are in flight, and where polling the first settles with an output, and then
  -- the second, from the context that the first leaves, polling the pair settles with the two
  -- outputs joined in order.
  pub and_Settles :
      {o1 : O1} {o2 : O2} {s1' : F1} {s2 s2' : F2} {cx1 cx2 : ActionContext k Bd} {s1 : F1}
      {cx : ActionContext k Bd}
      → Settles a1 (ok o1) s1' cx1 s1 cx
      → Settles a2 (ok o2) s2' cx2 s2 cx1
      → Settles
          (and_action join a1 a2)
          (ok (join o1 o2))
          (both gone gone)
          cx2
          (both (in_flight s1) (in_flight s2))
          cx
  unfolding and_action
  and_Settles (now e) (now f) = now (ground (arith, e, f))
  and_Settles (now e) (later f st) = later (ground (arith, e, f)) (and_second st)
  and_Settles (later e st) u = later (ground (arith, e)) (and_Settles st u)

  -- Where polling the first action settles with an error, polling the pair settles with it, and
  -- the second is not polled.
  and_Settles_err :
      {x : Error} {s1' : F1} {m2 : MaybeDone F2 O2} {cx1 : ActionContext k Bd} {s1 : F1}
      {cx : ActionContext k Bd}
      → Settles a1 (err x) s1' cx1 s1 cx
      → Settles
          (and_action join a1 a2)
          (err x)
          (both (in_flight s1') m2)
          cx1
          (both (in_flight s1) m2)
          cx
  unfolding and_action
  and_Settles_err (now e) = now (ground (arith, e))
  and_Settles_err (later e st) = later (ground (arith, e)) (and_Settles_err st)

  -- The first check of a pair never completes, whatever its two actions return.
  preflight_and_never_completes :
      (s : AndAction F1 O1 F2 O2) (cx : PreflightContext k) (o : O)
      → (preflight_and join a1 a2 s cx).0 ≢ ok (completed o)
  unfolding preflight_and
  preflight_and_never_completes s cx o h = ground arith
