-- ===== src/Context.antt =====
-- src/service.rs, `Context`, and src/action.rs: the contexts that are passed to the two functions
-- of an `EndpointAction`. The contexts are passed by state: a function that takes `&mut cx` returns
-- the context that it leaves.
pub mod Local
use finch_router.Prelude.{ℕ, List, Option, none, some, Outcome, ok, err}
use finch_router.Crates.{Crates}
use finch_router.Error.{Error, internal_server_error}

-- src/service.rs: `Context`
pub record Context (k : Crates) : Type 0 where
  pub request : k.Request
  pub cookies : Option k.CookieJar
  pub response_headers : Option k.HeaderMap

-- src/action.rs: `CursorInner`; both are `usize`
pub record CursorInner : Type 0 where
  pub pos : ℕ
  pub popped : ℕ

pub record PreflightContext (k : Crates) : Type 0 where
  pub context : Context k
  pub cursor : CursorInner

pub record ActionContext (k : Crates) (Bd : Type 0) : Type 0 where
  pub context : Context k
  pub body : Option Bd

module _ {k : Crates} where
  -- `Context::new`
  unfoldable pub new_context : k.Request → Context k
  new_context request = record { request = request; cookies = none; response_headers = none }

  -- `PreflightContext::new`
  unfoldable pub new_preflight : Context k → PreflightContext k
  new_preflight context = record { context = context; cursor = record { pos = 1; popped = 0 } }

  -- `cx.context.uri().path()`
  abbrev pub path_of : PreflightContext k → List ℕ
  path_of cx = k.path cx.context.request

module _ {k : Crates} {Bd : Type 0} where
  -- `ActionContext::take_body`
  unfoldable pub take_body : ActionContext k Bd → Outcome Error Bd × ActionContext k Bd
  take_body cx = elim cx.body [
    | some bd ↦ (ok bd, record cx { body = none })
    | none ↦ (err (internal_server_error "the request body has already been stolen by someone"), cx)
  ]
