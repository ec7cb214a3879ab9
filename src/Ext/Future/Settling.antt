-- ===== src/Ext/Future/Settling.antt =====
-- src/endpoint/ext/and_then.rs, src/endpoint/ext/recover.rs: what polling comes to.
use finch_router.Prelude.{◌≡◌, refl, Option, none, some, Outcome, ok, err, panicked, arith}
use finch_router.Common.{One, one}
use finch_router.Crates.{Crates}
use finch_router.Error.{Error}
use finch_router.Context.{PreflightContext, ActionContext}
use finch_router.Action.{Async, not_ready, incomplete, EndpointAction}
use finch_router.Action.Runs.{Settles, now, later, as_poll}
use finch_router.Ext.Future.{WithFuture, and_then_action, recover_action, preflight_recover}

module _ {ℓ} {E R : Type 0} {Fut : Type ℓ} (poll : Fut → Outcome E (Async R) × Fut) where
  -- Polling a future ends with a result.
  pub data Resolves (r : Outcome E R) (fut' : Fut) : Fut → Type ℓ where
    resolved : {fut : Fut} → poll fut ≡ (as_poll r, fut') → Resolves r fut' fut
    pending :
        {fut fut1 : Fut}
        → poll fut ≡ (ok not_ready, fut1)
        → Resolves r fut' fut1
        → Resolves r fut' fut

-- the result of a future, as the output of an endpoint
abbrev pub wrap : {R : Type 0} → Outcome Error R → Outcome Error (One R)
wrap (ok x) = ok (one x)
wrap (err e) = err e
wrap panicked = panicked

abbrev pub with_future : {S Fut : Type 0} → S → Option Fut → WithFuture S Fut
with_future s fut = record { action = s; in_flight = fut }

module _ {k : Crates} {Bd S T Fut R : Type 0} (poll : Fut → Outcome Error (Async R) × Fut) where
  module _ (a : EndpointAction k Bd S T) (f : T → Fut) where
    pub and_then_future :
        {r : Outcome Error R} (s : S) {fut' fut : Fut} {cx : ActionContext k Bd}
        → Resolves poll r fut' fut
        → Settles
            (and_then_action poll a f)
            (wrap r)
            (with_future s (some fut'))
            cx
            (with_future s (some fut))
            cx
    unfolding and_then_action
    and_then_future s (resolved e) = now (ground (arith, e))
    and_then_future s (pending e st) = later (ground (arith, e)) (and_then_future s st)

    -- After the action settles with an output, `and_then` settles as the future made from that
    -- output does, in the context that the action leaves.
    pub and_then-Settles :
        {r : Outcome Error R} {x : T} {s' : S} {fut' : Fut} {cx' : ActionContext k Bd} {s : S}
        {cx : ActionContext k Bd}
        → Settles a (ok x) s' cx' s cx
        → Resolves poll r fut' (f x)
        → Settles
            (and_then_action poll a f)
            (wrap r)
            (with_future s' (some fut'))
            cx'
            (with_future s none)
            cx
    unfolding and_then_action
    and_then-Settles (now e) (resolved g) = now (ground (arith, e, g))
    and_then-Settles (now e) (pending g st) = later (ground (arith, e, g)) (and_then_future _ st)
    and_then-Settles (later e st) u = later (ground (arith, e)) (and_then-Settles st u)

module _ {k : Crates} {Bd S Fut R : Type 0} (poll : Fut → Outcome Error (Async R) × Fut)
    (a : EndpointAction k Bd S (One R)) (f : Error → Fut) where
  pub recover_future :
      {r : Outcome Error R} (s : S) {fut' fut : Fut} {cx : ActionContext k Bd}
      → Resolves poll r fut' fut
      → Settles
          (recover_action poll a f)
          (wrap r)
          (with_future s (some fut'))
          cx
          (with_future s (some fut))
          cx
  unfolding recover_action
  recover_future s (resolved e) = now (ground (arith, e))
  recover_future s (pending e st) = later (ground (arith, e)) (recover_future s st)

  -- After the action settles with an error, `recover` settles as the future made from that error
  -- does, in the context that the action leaves.
  pub recover-Settles :
      {r : Outcome Error R} {x : Error} {s' : S} {fut' : Fut} {cx' : ActionContext k Bd} {s : S}
      {cx : ActionContext k Bd}
      → Settles a (err x) s' cx' s cx
      → Resolves poll r fut' (f x)
      → Settles
          (recover_action poll a f)
          (wrap r)
          (with_future s' (some fut'))
          cx'
          (with_future s none)
          cx
  unfolding recover_action
  recover-Settles (now e) (resolved g) = now (ground (arith, e, g))
  recover-Settles (now e) (pending g st) = later (ground (arith, e, g)) (recover_future _ st)
  recover-Settles (later e st) u = later (ground (arith, e)) (recover-Settles st u)

  -- Where the action's own check fails, the check of `recover` is incomplete, and where the future
  -- made from that error resolves, polling from the state that the check leaves settles as the
  -- future does, in whatever context: the action is not polled.
  preflight_recover-Settles :
      {r : Outcome Error R} {fut' : Fut} (s s' : S) (cx cx' : PreflightContext k) (x : Error)
      (ax : ActionContext k Bd)
      → a.preflight s cx ≡ (err x, s', cx')
      → Resolves poll r fut' (f x)
      → let (checked, w, cx'') = preflight_recover poll a f (with_future s none) cx in
        (checked ≡ ok incomplete)
        × (cx'' ≡ cx')
        × Settles (recover_action poll a f) (wrap r) (with_future s' (some fut')) ax w ax
  unfolding preflight_recover
  preflight_recover-Settles s s' cx cx' x ax e st =
      let left : preflight_recover poll a f (with_future s none) cx
          ≡ (ok incomplete, with_future s' (some (f x)), cx') =
        ground (arith, e) in
      rw left (refl, refl, recover_future s' st)
