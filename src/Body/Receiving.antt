-- ===== src/Body/Receiving.antt =====
-- src/endpoints/body.rs: receiving a body that comes in chunks, over any number of polls.
use mathlib.Core.List.{append-nil, append_assoc}
use finch_router.Prelude.{
  ℕ, zero, suc, ◌<◌, ◌≡◌, refl, ◌∙◌, sym, String, List, [], ◌∷◌, ◌++◌, Option, none, some, ok, err,
  panicked, Outcome, length, arith,
}
use finch_router.Common.{One, one}
use finch_router.Crates.{Crates}
use finch_router.Error.{Error, bad_request}
use finch_router.Context.{ActionContext, take_body}
use finch_router.Action.{ready, not_ready, EndpointAction, Polled}
use finch_router.Action.Runs.{Settles, now, later}
use finch_router.Body.{
  PollBuf, State, start, receiving, receive, poll_receive_all, poll_decoded, default_preflight,
}

module _ {Bd : Type 0} (poll_buf : PollBuf Bd) where
  -- A body gives these chunks, in this order, and then ends; a poll may find it not ready.
  pub data Streams (body' : Bd) : List (List ℕ) → Bd → Type 0 where
    ended : {body : Bd} → poll_buf body ≡ (ok (ready none), body') → Streams body' [] body
    chunk :
        {body body1 : Bd} {bytes : List ℕ} {chunks : List (List ℕ)}
        → poll_buf body ≡ (ok (ready (some bytes)), body1)
        → Streams body' chunks body1
        → Streams body' (bytes ∷ chunks) body
    waiting :
        {body body1 : Bd} {chunks : List (List ℕ)}
        → poll_buf body ≡ (ok not_ready, body1)
        → Streams body' chunks body1
        → Streams body' chunks body

abbrev pub joined : List (List ℕ) → List ℕ
joined [] = []
joined (bytes ∷ chunks) = bytes ++ joined chunks

-- the result of a decoder, as the output of an endpoint
abbrev pub decoded : {T : Type 0} → Outcome String T → Outcome Error (One T)
decoded (ok x) = ok (one x)
decoded (err cause) = err (bad_request cause)
decoded panicked = panicked

module _ {k : Crates} {Bd : Type 0} (poll_buf : PollBuf Bd) (fuel : ℕ) where
  abbrev or_panic :
      {S T : Type 0} → S → ActionContext k Bd → Option (Polled k Bd S T) → Polled k Bd S T
  or_panic s cx none = (panicked, s, cx)
  or_panic s cx (some p) = p

  -- The action with that many rounds for each of its polls.
  abbrev pub receive_all_action : EndpointAction k Bd (State Bd) (List ℕ)
  receive_all_action = record {
    preflight = default_preflight;
    poll_action = λ s cx. or_panic s cx (poll_receive_all poll_buf fuel s cx);
  }

  Settles-from :
      {body' : Bd} (g : ℕ) {chunks : List (List ℕ)} {body : Bd} (buf : List ℕ) (s : State Bd)
      (cx cx' : ActionContext k Bd)
      → Streams poll_buf body' chunks body
      → length chunks < g
      → length chunks < fuel
      → poll_receive_all poll_buf fuel s cx
        ≡ elim (receive poll_buf g body buf) [ none ↦ none | some (out, s') ↦ some (out, s', cx') ]
      → Settles receive_all_action (ok (buf ++ joined chunks)) (receiving body' []) cx' s cx
  unfolding receive poll_receive_all
  Settles-from zero buf s cx cx' st h l e = elim h [ ]
  Settles-from (suc g) buf s cx cx' (ended p) h l e =
      rw (append-nil buf) (now (ground (arith, p, e)))
  Settles-from (suc g) buf s cx cx' (chunk {bytes = bytes} {chunks = chunks} p st) h l e =
      rw (sym (append_assoc buf bytes (joined chunks))) (
        Settles-from g (buf ++ bytes) s cx cx' st (omega arith) (omega arith)
          (e ∙ ground (arith, p)))
  Settles-from (suc g) buf s cx cx' (waiting {body1 = body1} p st) h l e =
      later {s1 = receiving body1 buf} {cx1 = cx'} (ground (arith, p, e))
        (Settles-from fuel buf _ cx' cx' st l l refl)

  -- Where the context holds a body that gives chunks and ends, and a poll has more rounds than there
  -- are chunks, receiving it settles, however often it is not ready: with the chunks joined in order,
  -- the body taken out of the context and the rest of the context kept.
  pub receive_all-Settles :
      {body body' : Bd} {chunks : List (List ℕ)} (cx : ActionContext k Bd)
      → cx.body ≡ some body
      → Streams poll_buf body' chunks body
      → length chunks < fuel
      → Settles receive_all_action
          (ok (joined chunks))
          (receiving body' [])
          (record cx { body = none })
          start
          cx
  unfolding poll_receive_all take_body
  receive_all-Settles cx e st h =
      Settles-from fuel [] start cx (record cx { body = none }) st h h (ground (arith, e))

  module _ {T : Type 0} (decode : List ℕ → Outcome String T) where
    -- The action that decodes what it receives, with that many rounds for each of its polls.
    abbrev pub decoded_action : EndpointAction k Bd (State Bd) (One T)
    decoded_action = record {
      preflight = default_preflight;
      poll_action = λ s cx. or_panic s cx (poll_decoded poll_buf decode fuel s cx);
    }

    decoded-Settles :
        {bytes : List ℕ} {s' : State Bd} {cx' : ActionContext k Bd} {s : State Bd}
        {cx : ActionContext k Bd}
        → Settles receive_all_action (ok bytes) s' cx' s cx
        → Settles decoded_action (decoded (decode bytes)) s' cx' s cx
    unfolding poll_decoded
    decoded-Settles (now e) = now (ground (arith, e))
    decoded-Settles (later e st) = later (ground (arith, e)) (decoded-Settles st)

    -- Under the same conditions, the actions that decode what they receive settle with what the
    -- decoder makes of the whole body, its error reported as a bad request.
    pub decode-Settles :
        {body body' : Bd} {chunks : List (List ℕ)} (cx : ActionContext k Bd)
        → cx.body ≡ some body
        → Streams poll_buf body' chunks body
        → length chunks < fuel
        → Settles decoded_action
            (decoded (decode (joined chunks)))
            (receiving body' [])
            (record cx { body = none })
            start
            cx
    decode-Settles cx e st h = decoded-Settles (receive_all-Settles cx e st h)
