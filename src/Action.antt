-- ===== src/Action.antt =====
-- src/action.rs and src/endpoint.rs: the trait `EndpointAction`, its one-shot implementation, and
-- endpoints. A method on `&mut self` takes the state of the action and returns the state that it
-- leaves; `Poll<T, E>` is an outcome that holds an `Async`.
pub mod Runs
pub mod Futures
pub mod Performing
use finch_router.Prelude.{Option, none, some, Outcome, ok, err, panicked, Bool, true, false, not}
use finch_router.Common.{One, one}
use finch_router.Crates.{Crates}
use finch_router.Error.{Error}
use finch_router.Context.{PreflightContext, ActionContext}

-- `futures::Async`
pub data Async {ℓ} (T : Type ℓ) : Type ℓ where
  ready : T → Async T
  not_ready : Async T

pub data Preflight {ℓ} (T : Type ℓ) : Type ℓ where
  completed : T → Preflight T
  incomplete : Preflight T

module _ {ℓ} {T : Type ℓ} where
  unfoldable pub is_completed : Preflight T → Bool
  is_completed (completed _) = true
  is_completed incomplete = false

  unfoldable pub is_incomplete : Preflight T → Bool
  unfolding is_completed
  is_incomplete p = not (is_completed p)

module _ {ℓ κ} {T : Type ℓ} {U : Type κ} where
  -- `Preflight::map`
  abbrev pub map_preflight : (T → U) → Preflight T → Preflight U
  map_preflight op (completed x) = completed (op x)
  map_preflight op incomplete = incomplete

  -- `Async::map`
  abbrev pub map_async : (T → U) → Async T → Async U
  map_async op (ready x) = ready (op x)
  map_async op not_ready = not_ready

  -- `Result::map`
  abbrev pub map_ok : (T → U) → Outcome Error T → Outcome Error U
  map_ok op (ok x) = ok (op x)
  map_ok op (err e) = err e
  map_ok op panicked = panicked

-- `Result::map_err`
abbrev pub map_err {ℓ} : {T : Type ℓ} → (Error → Error) → Outcome Error T → Outcome Error T
map_err op (ok x) = ok x
map_err op (err e) = err (op e)
map_err op panicked = panicked

abbrev pub Checked {ℓ} : Crates → Type ℓ → Type 0 → Type ℓ
Checked k S T = Outcome Error (Preflight T) × S × PreflightContext k

abbrev pub Polled {ℓ} : Crates → Type 0 → Type ℓ → Type 0 → Type ℓ
Polled k Bd S T = Outcome Error (Async T) × S × ActionContext k Bd

-- The trait `EndpointAction<Bd>`, of an action with state `S` and output `T`.
pub record EndpointAction {ℓ} (k : Crates) (Bd : Type 0) (S : Type ℓ) (T : Type 0) : Type ℓ where
  pub preflight : S → PreflightContext k → Checked k S T
  pub poll_action : S → ActionContext k Bd → Polled k Bd S T

-- The trait `Endpoint<Bd>`: a fresh action, and how the action behaves.
pub record Endpoint {ℓ} (k : Crates) (Bd : Type 0) (S : Type ℓ) (T : Type 0) : Type ℓ where
  pub action : S
  pub behaviour : EndpointAction k Bd S T

-- The trait `OneshotAction`: its `preflight` consumes the action.
abbrev pub OneshotAction : Crates → Type 0 → Type 0 → Type 0
OneshotAction k A T = A → PreflightContext k → Outcome Error T × PreflightContext k

module _ {k : Crates} {A T : Type 0} (act : OneshotAction k A T) where
  -- `EndpointAction for Oneshot<T>`; the action is taken out at its first call
  unfoldable pub oneshot_preflight : Option A → PreflightContext k → Checked k (Option A) T
  oneshot_preflight none cx = (panicked, none, cx)
  oneshot_preflight (some a) cx = let (r, cx') = act a cx in (map_ok completed r, none, cx')

  -- `unreachable!()`
  unfoldable pub oneshot_poll :
      {Bd : Type 0} → Option A → ActionContext k Bd → Polled k Bd (Option A) T
  oneshot_poll s cx = (panicked, s, cx)

  -- `into_action`, in the endpoints whose action is one-shot
  unfoldable pub oneshot_endpoint : {Bd : Type 0} → A → Endpoint k Bd (Option A) T
  unfolding oneshot_preflight oneshot_poll
  oneshot_endpoint a = record {
    action = some a;
    behaviour = record { preflight = oneshot_preflight; poll_action = oneshot_poll };
  }

module _ {k : Crates} where
  unit_preflight : OneshotAction k (Unit {0}) (Unit {0})
  unit_preflight _ cx = (ok tt, cx)

  -- `endpoint::unit`
  unfoldable pub unit : {Bd : Type 0} → Endpoint k Bd (Option (Unit {0})) (Unit {0})
  unfolding oneshot_endpoint unit_preflight
  unit = oneshot_endpoint unit_preflight tt

  value_preflight : {T : Type 0} → OneshotAction k T (One T)
  value_preflight x cx = (ok (one x), cx)

  -- `endpoint::value`
  unfoldable pub value : {Bd T : Type 0} → T → Endpoint k Bd (Option T) (One T)
  unfolding oneshot_endpoint value_preflight
  value x = oneshot_endpoint value_preflight x

-- `endpoint::endpoint`, where `f()` is an action in its first state
unfoldable pub endpoint :
    {k : Crates} {Bd S T : Type 0} → EndpointAction k Bd S T → S → Endpoint k Bd S T
endpoint behaviour f = record { action = f; behaviour = behaviour }
