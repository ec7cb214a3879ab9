-- ===== src/Sessions/With.antt =====
-- finchers-session/src/session.rs: what polling the future of `Session::with` comes to.
use finch_router.Prelude.{◌≡◌, Outcome, ok, err, arith}
use finch_router.Finchers.{Finchers}
use finch_router.Action.{Async}
use finch_router.Ext.Future.Settling.{Resolves, resolved, pending}
use finch_router.Sessions.{RawSession, running, writing, with_session, poll_with}

module _ {f : Finchers} {St S W Fut R : Type 0} (raw : RawSession f St S W)
    (poll : Fut → Outcome f.Error (Async R) × Fut) where
  writing-Resolves :
      {w' w : W} (item : R) (st : St)
      → Resolves raw.poll_write (ok tt) w' w
      → Resolves (poll_with raw poll) (ok item) (writing w' item, st) (writing w item, st)
  unfolding poll_with
  writing-Resolves item st (resolved e) = resolved (ground (arith, e))
  writing-Resolves item st (pending e rest) =
      pending (ground (arith, e)) (writing-Resolves item st rest)

  running-Resolves :
      {item : R} {fut' fut : Fut} {w' w : W} (s : S) (st st' : St)
      → Resolves poll (ok item) fut' fut
      → raw.write s st ≡ (ok w, st')
      → Resolves raw.poll_write (ok tt) w' w
      → Resolves (poll_with raw poll) (ok item) (writing w' item, st') (running fut s, st)
  unfolding poll_with
  running-Resolves s st st' (resolved e) h (resolved g) = resolved (ground (arith, e, h, g))
  running-Resolves s st st' (resolved e) h (pending g rest) =
      pending (ground (arith, e, h, g)) (writing-Resolves _ st' rest)
  running-Resolves s st st' (pending e rest) h t =
      pending (ground (arith, e)) (running-Resolves s st st' rest h t)

  running-Resolves_err :
      {x : f.Error} {fut' fut : Fut} (s : S) (st : St)
      → Resolves poll (err x) fut' fut
      → Resolves (poll_with raw poll) (err x) (running fut' s, st) (running fut s, st)
  unfolding poll_with
  running-Resolves_err s st (resolved e) = resolved (ground (arith, e))
  running-Resolves_err s st (pending e rest) =
      pending (ground (arith, e)) (running-Resolves_err s st rest)

  -- Where the future of the closure resolves to an item, and the future that writes the session as
  -- the closure has left it resolves, `Session::with` resolves to that item once it is written.
  pub with_session-Resolves :
      {item : R} {fut' : Fut} {w' w : W} (op : S → Fut × S) (s : S) (st st' : St)
      → Resolves poll (ok item) fut' (op s).0
      → raw.write (op s).1 st ≡ (ok w, st')
      → Resolves raw.poll_write (ok tt) w' w
      → Resolves (poll_with raw poll) (ok item) (writing w' item, st') (with_session op s, st)
  unfolding with_session
  with_session-Resolves op s st st' t h u = running-Resolves (op s).1 st st' t h u

  -- Where the future of the closure fails, `Session::with` fails with its error, and nothing is
  -- written.
  with_session-Resolves_err :
      {x : f.Error} {fut' : Fut} (op : S → Fut × S) (s : S) (st : St)
      → Resolves poll (err x) fut' (op s).0
      → Resolves (poll_with raw poll) (err x) (running fut' (op s).1, st) (with_session op s, st)
  unfolding with_session
  with_session-Resolves_err op s st t = running-Resolves_err (op s).1 st t
