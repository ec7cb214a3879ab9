-- ===== src/Template.antt =====
-- finchers-template/src/renderer.rs and finchers-template/src/backend/askama.rs: rendering a value to a
-- response. The engine, `askama` and the parsing of MIME types are parameters.
pub mod Engines
use finch_router.Prelude.{
  ℕ, String, ◌≡◌, Option, none, some, Outcome, ok, err, panicked, arith, unwrap_or,
}
use finch_router.Action.{Async, ready, not_ready}
use finch_router.Ext.Future.Settling.{Resolves, resolved, pending}

-- The trait `Engine<T>`, whose error is converted to that of the endpoints
pub record Engine (HV T B E : Type 0) : Type 0 where
  pub content_type_hint : T → Option HV
  pub render : T → Outcome E B

-- `Renderer`
pub record Renderer (HV Eng : Type 0) : Type 0 where
  pub engine : Eng
  pub content_type : Option HV

-- the response: its status, its content type, which is its only header, and its body
pub record Rendered (HV B : Type 0) : Type 0 where
  pub status : ℕ
  pub content_type : HV
  pub body : B

-- `Option::or_else`
abbrev pub or_else : {A : Type 0} → Option A → Option A → Option A
or_else (some x) y = some x
or_else none y = y

-- `Renderer::new`
unfoldable pub new_renderer : {HV Eng : Type 0} → Eng → Renderer HV Eng
new_renderer engine = record { engine = engine; content_type = none }

-- `Renderer::content_type`, of a MIME type that has a header value
unfoldable pub set_content_type : {HV Eng : Type 0} → HV → Renderer HV Eng → Renderer HV Eng
set_content_type value r = record r { content_type = some value }

module _ {HV Eng T B E : Type 0} (default_content_type : HV)
    (of_engine : Eng → Engine HV T B E) where
  -- `Renderer::get_content_type`
  unfoldable pub get_content_type : Renderer HV Eng → T → HV
  get_content_type r value =
      unwrap_or default_content_type
        (or_else r.content_type ((of_engine r.engine).content_type_hint value))

  -- `Renderer::render_response`
  unfoldable pub render_response : Renderer HV Eng → T → Outcome E (Rendered HV B)
  unfolding get_content_type
  render_response r value = elim ((of_engine r.engine).render value) [
    | ok body ↦ ok (record { status = 200; content_type = get_content_type r value; body = body })
    | err e ↦ err e
    | panicked ↦ panicked
  ]

  -- `RenderFuture::poll`
  unfoldable pub poll_render :
      {Fut : Type 0}
      → (Fut → Outcome E (Async T) × Fut)
      → Renderer HV Eng
      → Fut
      → Outcome E (Async (Rendered HV B)) × Fut
  unfolding render_response
  poll_render poll r future =
      let (polled, future') = poll future in
      elim polled [
        | ok not_ready ↦ (ok not_ready, future')
        | err e ↦ (err e, future')
        | panicked ↦ (panicked, future')
        | ok (ready value) ↦ elim (render_response r value) [
          | ok response ↦ (ok (ready response), future')
          | err e ↦ (err e, future')
          | panicked ↦ (panicked, future')
        ]
      ]

  -- Where the future of the endpoint resolves to a value that the engine renders, the rendering
  -- resolves to its body with status 200, under the content type that was set, or else the one that
  -- the engine suggests for the value, or else the default.
  render-Resolves :
      {Fut : Type 0} (poll : Fut → Outcome E (Async T) × Fut) (r : Renderer HV Eng) {value : T}
      {body : B} {future' future : Fut}
      → Resolves poll (ok value) future' future
      → (of_engine r.engine).render value ≡ ok body
      → Resolves
          (poll_render poll r)
          (ok (record {
            status = 200;
            content_type =
                unwrap_or default_content_type
                  (or_else r.content_type ((of_engine r.engine).content_type_hint value));
            body = body;
          }))
          future'
          future
  unfolding poll_render
  render-Resolves poll r (resolved e) h = resolved (ground (arith, e, h))
  render-Resolves poll r (pending e st) h =
      pending (ground (arith, e)) (render-Resolves poll r st h)

-- What the code calls of `askama` and of `mime_guess`.
pub record Askama : Type 1 where
  pub Ctx : Type 0
  pub extension : Ctx → Option String
  pub get_mime_type_str : String → Option String
  pub HeaderValue : Type 0
  pub parse_header : String → Option HeaderValue

-- `AskamaEngine`
pub record AskamaEngine (a : Askama) : Type 0 where
  pub content_type_cache : Option a.HeaderValue

module _ (a : Askama) where
  -- `AskamaEngine::default`
  unfoldable pub default_askama : AskamaEngine a
  default_askama = record { content_type_cache = none }

  -- `and_then`
  abbrev pub bind_option : {A B : Type 0} → Option A → (A → Option B) → Option B
  bind_option (some x) f = f x
  bind_option none f = none

  -- `content_type_hint`
  unfoldable pub askama_hint : AskamaEngine a → a.Ctx → Option a.HeaderValue
  askama_hint e value = or_else e.content_type_cache (
      bind_option (a.extension value)
        (λ ext. bind_option (a.get_mime_type_str ext) (λ mime. a.parse_header mime)))

  -- `AskamaEngine::precompute_content_type`; its `expect` panics where the MIME type is no header
  -- value, and the engine is left
  unfoldable pub precompute_content_type :
      {E : Type 0} → a.Ctx → AskamaEngine a → Outcome E (AskamaEngine a)
  precompute_content_type hint e = elim (bind_option (a.extension hint) a.get_mime_type_str) [
    | none ↦ ok (record { content_type_cache = none })
    | some mime ↦ elim (a.parse_header mime) [
      | some value ↦ ok (record { content_type_cache = some value })
      | none ↦ panicked
    ]
  ]
