-- ===== src/Tests/Templates.antt =====
-- An engine whose last name has no type.
use text.Mathlib.Text.{◌==◌ as str_eq}
use finch_router.Prelude.{ℕ, ◌≡◌, refl, String, [], ◌∷◌, none, some, ok, if◌then◌else◌}
use finch_router.Template.Engines.{
  MimeGuess, NamedEngine, guess_content_type, renamed, renamed-content_type,
}

abbrev by_name : MimeGuess String
by_name = record {
  guess_mime_type = λ name. if str_eq name "feed.xml" then some "text/xml" else none;
  parse_header = λ s. some s;
}

abbrev index : NamedEngine String ℕ
index = record { registry = 0; name = "index.html"; content_type = some "text/html" }

renamed-content_type_example :
    renamed by_name {E = ℕ} ("feed.xml" ∷ "page" ∷ []) index
    ≡ (ok tt, record { registry = 0; name = "page"; content_type = some "text/xml" })
unfolding guess_content_type
renamed-content_type_example = renamed-content_type by_name ("feed.xml" ∷ "page" ∷ []) index refl
