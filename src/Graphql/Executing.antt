-- ===== src/Graphql/Executing.antt =====
-- finchers-juniper/src/execute: the futures that join the context of an endpoint with a request, and
-- execute it on the current thread, on the default executor, or on a spawner. The joined future, and
-- the handles of spawned tasks, are parameters.
use finch_router.Prelude.{Option, none, some, Outcome, ok, err, panicked, arith}
use finch_router.Finchers.{Finchers}
use finch_router.Action.{Async, ready, not_ready}
use finch_router.Ext.Future.Settling.{Resolves, resolved, pending}
use finch_router.Graphql.{
  Juniper, GraphQlRequest, GraphQlResponse, RequestKind, apply_request, execute,
}

-- What the code calls of the endpoint of the context, of `Future::join`, and of a task executor.
pub record Tasks (f : Finchers) (j : Juniper f) : Type 1 where
  -- `apply` of the endpoint that gives the context, and its future
  pub ContextFuture : Type 0
  pub apply_context : f.Input → Outcome j.ApplyError ContextFuture × f.Input
  pub Join : Type 0
  pub join : ContextFuture → RequestKind f j → Join
  pub poll_join : Join → Outcome f.Error (Async (j.Ctx × GraphQlRequest f j)) × Join
  -- the task executor, `spawn` of a task that gives a response, and the handle with the poll that the
  -- loop returns: an error of the handle of `WithSpawnerFuture` is a panic
  pub Executor : Type 0
  pub Handle : Type 0
  pub spawn : (Unit {0} → GraphQlResponse) → Executor → Handle × Executor
  pub poll_handle : Handle → Outcome f.Error (Async GraphQlResponse) × Handle

-- `NonblockingFuture` and `WithSpawnerFuture`, with the executor
pub record SpawningFuture {f : Finchers} {j : Juniper f} (t : Tasks f j) : Type 0 where
  pub inner : t.Join
  pub handle : Option t.Handle
  pub executor : t.Executor

module _ {f : Finchers} {j : Juniper f} (t : Tasks f j) where
  -- `apply` of the three endpoints, up to the future that it fills
  unfoldable pub apply_joined : f.Input → Outcome j.ApplyError t.Join × f.Input
  unfolding apply_request
  apply_joined input =
      let (context, input1) = t.apply_context input in
      let (request, input2) = apply_request f j input1 in
      elim context [
        | err e ↦ (err e, input1)
        | panicked ↦ (panicked, input1)
        | ok c ↦ elim request [
          | ok r ↦ (ok (t.join c r), input2)
          | err e ↦ (err e, input2)
          | panicked ↦ (panicked, input2)
        ]
      ]

  module _ (root : j.RootNode) where
    -- `CurrentThreadFuture::poll`
    unfoldable pub poll_current : t.Join → Outcome f.Error (Async GraphQlResponse) × t.Join
    unfolding execute
    poll_current inner =
        let (r, inner') = t.poll_join inner in
        elim r [
          | ok (ready (context, request)) ↦ (ok (ready (execute f j request root context)), inner')
          | ok not_ready ↦ (ok not_ready, inner')
          | err e ↦ (err e, inner')
          | panicked ↦ (panicked, inner')
        ]

    -- the rounds of either loop that find the handle
    unfoldable pub poll_spawned :
        t.Join → t.Handle → t.Executor → Outcome f.Error (Async GraphQlResponse) × SpawningFuture t
    poll_spawned inner handle executor =
        let (r, handle') = t.poll_handle handle in
        (r, record { inner = inner; handle = some handle'; executor = executor })

    -- `NonblockingFuture::poll` and `WithSpawnerFuture::poll`: the round that joins spawns the task and
    -- is followed by one that polls its handle
    unfoldable pub poll_spawning :
        SpawningFuture t → Outcome f.Error (Async GraphQlResponse) × SpawningFuture t
    unfolding poll_spawned execute
    poll_spawning s = elim s.handle [
      | some handle ↦ poll_spawned s.inner handle s.executor
      | none ↦
          let (r, inner') = t.poll_join s.inner in
          elim r [
            | ok (ready (context, request)) ↦
                let (handle, executor') =
                  t.spawn (λ _. execute f j request root context) s.executor in
                poll_spawned inner' handle executor'
            | ok not_ready ↦ (ok not_ready, record s { inner = inner' })
            | err e ↦ (err e, record s { inner = inner' })
            | panicked ↦ (panicked, record s { inner = inner' })
          ]
    ]

    current-Resolves :
        {context : j.Ctx} {request : GraphQlRequest f j} {inner' inner : t.Join}
        → Resolves t.poll_join (ok (context, request)) inner' inner
        → Resolves poll_current (ok (execute f j request root context)) inner' inner
    unfolding poll_current
    current-Resolves (resolved e) = resolved (ground (arith, e))
    current-Resolves (pending e st) = pending (ground (arith, e)) (current-Resolves st)

    abbrev pub spawning : t.Join → Option t.Handle → t.Executor → SpawningFuture t
    spawning inner handle executor = record { inner = inner; handle = handle; executor = executor }

    spawned-Resolves :
        {r : Outcome f.Error GraphQlResponse} (inner : t.Join) {handle' handle : t.Handle}
        (executor : t.Executor)
        → Resolves t.poll_handle r handle' handle
        → Resolves poll_spawning r
            (spawning inner (some handle') executor)
            (spawning inner (some handle) executor)
    unfolding poll_spawning
    spawned-Resolves inner executor (resolved e) = resolved (ground (arith, e))
    spawned-Resolves inner executor (pending e st) =
        pending (ground (arith, e)) (spawned-Resolves inner executor st)

    spawning-Resolves :
        {context : j.Ctx} {request : GraphQlRequest f j} {inner' inner : t.Join}
        {r : Outcome f.Error GraphQlResponse} {handle' : t.Handle} (executor : t.Executor)
        → Resolves t.poll_join (ok (context, request)) inner' inner
        → Resolves t.poll_handle r handle'
            (t.spawn (λ _. execute f j request root context) executor).0
        → Resolves poll_spawning r
            (spawning inner'
              (some handle')
              (t.spawn (λ _. execute f j request root context) executor).1)
            (spawning inner none executor)
    unfolding poll_spawning
    spawning-Resolves executor (resolved e) (resolved g) = resolved (ground (arith, e, g))
    spawning-Resolves executor (resolved e) (pending g st) =
        pending (ground (arith, e, g)) (spawned-Resolves _ _ st)
    spawning-Resolves executor (pending e st) u =
        pending (ground (arith, e)) (spawning-Resolves executor st u)

    -- Where the joined future resolves to a context and a request, and the handle of the task that
    -- executes it resolves to the response that the task gives, the future on an executor resolves to
    -- the same response as the future on the current thread, which is that of executing the request.
    executors-Resolves :
        {context : j.Ctx} {request : GraphQlRequest f j} {inner' inner : t.Join}
        {handle' : t.Handle} (executor : t.Executor)
        → let task = t.spawn (λ _. execute f j request root context) executor in
          Resolves t.poll_join (ok (context, request)) inner' inner
          → Resolves t.poll_handle (ok (execute f j request root context)) handle' task.0
          → Resolves poll_current (ok (execute f j request root context)) inner' inner
            × Resolves poll_spawning
                (ok (execute f j request root context))
                (spawning inner' (some handle') task.1)
                (spawning inner none executor)
    executors-Resolves executor joined handled =
        (current-Resolves joined, spawning-Resolves executor joined handled)
