-- ===== src/Runner/Headers.antt =====
-- src/test.rs: the headers of a request that the runner dispatches.
use text.Mathlib.Text.{◌==◌ as str_eq}
use text.Mathlib.TextEquality.{eq_iff}
use mathlib.Core.List.{append-nil, append_assoc}
use finch_router.Prelude.{
  ◌≡◌, ap, ◌∙◌, String, List, [], ◌∷◌, ◌++◌, arith, if◌then◌else◌, Bool, Bool-cases, inl, inr,
}
use finch_router.Crates.{Crates}
use finch_router.Output.{HeaderCrate}
use finch_router.Runner.{
  RequestHeaders, TestRunner, or_insert, append_pairs, defaults, user_agent, prepare_headers,
}
use finch_router.Service.Assembly.{HeaderLaws}

-- the values under a name
abbrev pub paired : {V : Type 0} → String → List (String × V) → List V
paired name [] = []
paired name ((other, value) ∷ rest) =
    (if str_eq name other then value ∷ [] else []) ++ paired name rest

-- these values, or a default where there are none
abbrev pub or_default : {V : Type 0} → Bool → V → List V → List V
or_default named d [] = if named then d ∷ [] else []
or_default named d (v ∷ vs) = v ∷ vs

module _ {k : Crates} (h : HeaderCrate k) (q : RequestHeaders k) (laws : HeaderLaws h)
    (get_all-insert : (name other : String) (value : k.HeaderValue) (headers : k.HeaderMap)
      → h.get_all name (h.insert other value headers)
        ≡ (if str_eq name other then value ∷ [] else h.get_all name headers)) where
  get_all-append_pairs :
      (name : String) (pairs : List (String × k.HeaderValue)) (headers : k.HeaderMap)
      → h.get_all name (append_pairs h q pairs headers)
        ≡ h.get_all name headers ++ paired name pairs
  unfolding append_pairs
  get_all-append_pairs name [] headers = ground (arith, append-nil (h.get_all name headers))
  get_all-append_pairs name ((other, value) ∷ rest) headers = ground (
    arith,
    get_all-append_pairs name rest (h.append other value headers),
    laws.get_all-append name other value headers,
    append_assoc (h.get_all name headers) (if str_eq name other then value ∷ [] else [])
        (paired name rest),
  )

  get_all-or_insert :
      (name other value : String) (headers : k.HeaderMap)
      → h.get_all name (or_insert h q other value headers)
        ≡ or_default (str_eq name other) (h.from_static value) (h.get_all name headers)
  unfolding or_insert
  get_all-or_insert name other value headers = elim (Bool-cases (str_eq name other)) [
    | inl e ↦
        let same : name ≡ other = ground (arith, e, eq_iff name other) in
        ground (arith, e, same, get_all-insert name other (h.from_static value) headers)
    | inr e ↦ ground (arith, e, get_all-insert name other (h.from_static value) headers)
  ]

  -- The request that the runner dispatches has, under each name, the values of the given request and
  -- then the defaults of the runner; where there are none, Host is the local host, and User-Agent the
  -- runner's own.
  pub get_all-prepare_headers :
      {A T : Type 0} (r : TestRunner k A T) (name : String) (headers : k.HeaderMap)
      → h.get_all name (prepare_headers h q r headers)
        ≡ or_default (str_eq name "user-agent") (h.from_static user_agent) (
            or_default
              (str_eq name "host")
              (h.from_static "localhost")
              (h.get_all name headers ++ paired name (defaults h q r)))
  unfolding prepare_headers
  get_all-prepare_headers r name headers =
      let all = append_pairs h q (defaults h q r) headers in
      get_all-or_insert name "user-agent" user_agent (or_insert h q "host" "localhost" all)
      ∙ ap (or_default (str_eq name "user-agent") (h.from_static user_agent)) (
          get_all-or_insert name "host" "localhost" all
          ∙ ap (or_default (str_eq name "host") (h.from_static "localhost"))
              (get_all-append_pairs name (defaults h q r) headers))
