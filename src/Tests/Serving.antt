-- ===== src/Tests/Serving.antt =====
-- Serving the request of `/a/bc`, and receiving a body that is not ready at times.
use finch_router.Prelude.{ℕ, refl, List, [], ◌∷◌, Option, none, some, ok, arith}
use finch_router.Context.{ActionContext}
use finch_router.Action.{ready, not_ready}
use finch_router.Action.Runs.{Settles}
use finch_router.Body.{PollBuf, start, receiving}
use finch_router.Body.Receiving.{
  Streams, ended, chunk, waiting, receive_all_action, receive_all-Settles,
}
use finch_router.Tests.{plain, request_context}

abbrev Bytes : Type 0
Bytes = List ℕ

-- a body: its chunks, and a `none` wherever it is not ready
abbrev pub Queue : Type 0
Queue = List (Option (List ℕ))

abbrev pub poll_queue : PollBuf Queue
poll_queue [] = (ok (ready none), [])
poll_queue (none ∷ q) = (ok not_ready, q)
poll_queue (some bytes ∷ q) = (ok (ready (some bytes)), q)

abbrev pub queue : Queue
queue = some (1 ∷ 2 ∷ []) ∷ none ∷ some (3 ∷ []) ∷ []

pub queue-Streams : Streams poll_queue [] ((1 ∷ 2 ∷ []) ∷ (3 ∷ []) ∷ []) queue
queue-Streams = chunk refl (waiting refl (chunk refl (ended refl)))

abbrev queued : Option Queue → ActionContext plain Queue
queued body = record { context = request_context; body = body }

receive_all-Settles_example :
    Settles
      (receive_all_action poll_queue 3)
      (ok (1 ∷ 2 ∷ 3 ∷ []))
      (receiving [] [])
      (queued none)
      start
      (queued (some queue))
receive_all-Settles_example =
    receive_all-Settles poll_queue 3 (queued (some queue)) refl queue-Streams (omega arith)
