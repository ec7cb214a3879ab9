-- ===== src/Template/Engines.antt =====
-- finchers-template/src/backend: handlebars.rs, tera.rs and horrorshow.rs. The two engines with named
-- templates are the same code over another registry; the template engines, `mime_guess` and the parsing
-- of header values are parameters.
use finch_router.Prelude.{
  ◌≡◌, String, List, [], ◌∷◌, Option, none, some, Outcome, Outcome-cases, inl, inr, ok, err,
  panicked, Effect, with_error, ◌>>◌, arith,
}
use finch_router.Template.{Engine, or_else}

-- What the code calls of `mime_guess` and of a header value's `parse`.
pub record MimeGuess (HV : Type 0) : Type 0 where
  -- `guess_mime_type_opt`, and the text of the type
  pub guess_mime_type : String → Option String
  pub parse_header : String → Option HV

-- `HandlebarsEngine` and `TeraEngine`
pub record NamedEngine (HV Reg : Type 0) : Type 0 where
  pub registry : Reg
  pub name : String
  pub content_type : Option HV

module _ {HV : Type 0} (g : MimeGuess HV) {E : Type 0} where
  -- the guess of a content type; `expect` panics where it is no header value
  unfoldable pub guess_content_type : String → Outcome E (Option HV)
  guess_content_type name = elim (g.guess_mime_type name) [
    | none ↦ ok none
    | some mime ↦ elim (g.parse_header mime) [ some value ↦ ok (some value) | none ↦ panicked ]
  ]

  -- `new`
  unfoldable pub new_engine : {Reg : Type 0} → Reg → String → Outcome E (NamedEngine HV Reg)
  unfolding guess_content_type
  new_engine registry name = elim (guess_content_type name) [
    | ok content_type ↦
        ok (record { registry = registry; name = name; content_type = content_type })
    | err e ↦ err e
    | panicked ↦ panicked
  ]

  -- `set_template_name`; the name is set before the guess
  unfoldable pub set_template_name :
      {Reg : Type 0} → String → Effect (NamedEngine HV Reg) E (Unit {0})
  unfolding guess_content_type
  set_template_name name engine = elim (guess_content_type name) [
    | ok (some value) ↦ (ok tt, record engine { name = name; content_type = some value })
    | ok none ↦ (ok tt, record engine { name = name })
    | err e ↦ (err e, record engine { name = name })
    | panicked ↦ (panicked, record engine { name = name })
  ]

-- `EngineImpl` of both, where the registry renders a template by its name
unfoldable pub named_engine :
    {HV Reg T B D E : Type 0}
    → (Reg → String → T → Outcome D B)
    → (D → E)
    → NamedEngine HV Reg
    → Engine HV T B E
named_engine render sync_failure engine = record {
  content_type_hint = λ _. engine.content_type;
  render = λ value. with_error sync_failure (render engine.registry engine.name value);
}

-- `EngineImpl for HorrorshowEngine`, with the `into_string` of the template
unfoldable pub horrorshow_engine :
    {HV T B E : Type 0} → (T → Outcome E B) → Unit {0} → Engine HV T B E
horrorshow_engine into_string _ = record { content_type_hint = λ _. none; render = into_string }

abbrev pub last_name : String → List String → String
last_name name [] = name
last_name name (other ∷ names) = last_name other names

module _ {HV : Type 0} (g : MimeGuess HV) {E : Type 0} where
  -- the last type that is guessed of these names, or what there was before
  abbrev pub last_guess : Option HV → List String → Outcome E (Option HV)
  last_guess found [] = ok found
  last_guess found (name ∷ names) = elim (guess_content_type g {E = E} name) [
    | ok value ↦ last_guess (or_else value found) names
    | err e ↦ err e
    | panicked ↦ panicked
  ]

  module _ {Reg : Type 0} where
    -- renaming it to each of these in turn
    abbrev pub renamed : List String → Effect (NamedEngine HV Reg) E (Unit {0})
    renamed [] engine = (ok tt, engine)
    renamed (name ∷ names) engine = (set_template_name g name >> renamed names) engine

    -- Where every guess is a header value, an engine that is renamed several times has its last name,
    -- and the last content type that was guessed of any of its names: where none is guessed of the last
    -- name, that of an earlier one, or the one that it had before.
    pub renamed-content_type :
        (names : List String) (engine : NamedEngine HV Reg) {found : Option HV}
        → last_guess engine.content_type names ≡ ok found
        → renamed names engine
          ≡ (ok tt, record engine { name = last_name engine.name names; content_type = found })
    unfolding set_template_name
    renamed-content_type [] engine e = ground (arith, e)
    renamed-content_type (name ∷ names) engine {found} e =
        elim (Outcome-cases (guess_content_type g {E = E} name)) [
          | inl (none, h) ↦ ground (
            arith,
            h,
            renamed-content_type names (record engine { name = name }) {found = found}
                (ground (arith, e, h)),
          )
          | inl (some v, h) ↦ ground (
            arith,
            h,
            renamed-content_type names (record engine { name = name; content_type = some v })
                {found = found} (ground (arith, e, h)),
          )
          | inr (inl (_, h)) ↦ absurd (ground (arith, e, h))
          | inr (inr h) ↦ absurd (ground (arith, e, h))
        ]
