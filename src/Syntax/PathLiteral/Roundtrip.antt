-- ===== src/Syntax/PathLiteral/Roundtrip.antt =====
-- finchers-macros/src/lib.rs: printing components as a path literal, against `parse_path`.
use mathlib.Core.List.{append-nil}
use finch_router.Prelude.{
  ℕ, ◌<◌, ◌≡◌, refl, ◌≢◌, ◌∙◌, ap, Bool, true, false, List, [], ◌∷◌, ◌++◌, Option, some, ok, All,
  map, bytes_eq, arith,
}
use finch_router.Cursor.{slash}
use finch_router.Cursor.Split.{NoSlash}
use finch_router.Syntax.PathLiteral.{
  Component, static, single_param, catch_all_param, pieces, ends_with, drop_last, is_ascii,
  starts_with_dots, parse_param, parse_pieces, parse_trimmed, parse_path, trim_end, is_nil,
}

-- a text between `<` and `>`
abbrev bracket : List ℕ → List ℕ
bracket s = 60 ∷ (s ++ 62 ∷ [])

module _ {Ty : Type 0} (show : Ty → List ℕ) where
  -- the segment of a literal that stands for a component
  abbrev pub print_component : Component Ty → List ℕ
  print_component (static s) = s
  print_component (single_param ty) = bracket (show ty)
  print_component (catch_all_param ty) = bracket (46 ∷ 46 ∷ show ty)

  abbrev pub print : List (Component Ty) → List ℕ
  print [] = []
  print (c ∷ cs) = slash ∷ (print_component c ++ print cs)

drop_last-append : (s : List ℕ) (c : ℕ) → drop_last (s ++ c ∷ []) ≡ s
drop_last-append [] c = refl
drop_last-append (a ∷ []) c = refl
drop_last-append (a ∷ b ∷ s) c = ap (λ l. a ∷ l) (drop_last-append (b ∷ s) c)

ends_with-append : (a : ℕ) (s : List ℕ) → ends_with 62 (a ∷ (s ++ 62 ∷ [])) ≡ true
ends_with-append a [] = refl
ends_with-append a (b ∷ s) = ends_with-append b s

is_ascii-append : (s : List ℕ) → All (λ c. c < 128) s → is_ascii (s ++ 62 ∷ []) ≡ true
is_ascii-append [] h = refl
is_ascii-append (c ∷ s) (h, hs) = ground (arith, is_ascii-append s hs)

-- A printed component, and what follows it, are split into pieces at the slash between them.
pieces-slash : (s rest : List ℕ) → NoSlash s → pieces (s ++ slash ∷ rest) ≡ s ∷ pieces rest
unfolding pieces
pieces-slash [] rest h = refl
pieces-slash (c ∷ s) rest (n, h) = ground (arith, pieces-slash s rest h)

pieces_one : (s : List ℕ) → NoSlash s → pieces s ≡ s ∷ []
unfolding pieces
pieces_one [] h = refl
pieces_one (c ∷ s) (n, h) = ground (arith, pieces_one s h)

NoSlash-bracket : (s : List ℕ) → NoSlash s → NoSlash (s ++ 62 ∷ [])
NoSlash-bracket [] h = (omega arith, tt)
NoSlash-bracket (c ∷ s) (n, h) = (n, NoSlash-bracket s h)

module _ {Ty : Type 0} (parse_str : List ℕ → Option Ty) (show : Ty → List ℕ) where
  -- A type prints to a text that a literal can hold and that `syn` reads back.
  pub record Printable (ty : Ty) : Type 0 where
    pub no_slash : NoSlash (show ty)
    pub ascii : All (λ c. c < 128) (show ty)
    pub reads : parse_str (show ty) ≡ some ty

  -- A static text is not empty, has no slash and does not begin with `<`.
  abbrev pub IsStatic : List ℕ → Type 0
  IsStatic [] = ⊥
  IsStatic (c ∷ s) = (c ≢ 60) × NoSlash (c ∷ s)

  -- Components that a literal can hold: a catch-all stands last.
  abbrev pub AreComponents : List (Component Ty) → Type 0
  AreComponents [] = Unit
  AreComponents (static s ∷ cs) = IsStatic s × AreComponents cs
  AreComponents (single_param ty ∷ cs) =
      Printable ty × (starts_with_dots (show ty) ≡ false) × AreComponents cs
  AreComponents (catch_all_param ty ∷ cs) = Printable ty × (cs ≡ [])

  NoSlash-print_component :
      (c : Component Ty) (cs : List (Component Ty))
      → AreComponents (c ∷ cs)
      → NoSlash (print_component show c)
  NoSlash-print_component (static []) cs h = absurd h.0
  NoSlash-print_component (static (c ∷ s)) cs h = h.0.1
  NoSlash-print_component (single_param ty) cs h =
      (omega arith, NoSlash-bracket (show ty) h.0.no_slash)
  NoSlash-print_component (catch_all_param ty) cs h =
      (omega arith, (omega arith, (omega arith, NoSlash-bracket (show ty) h.0.no_slash)))

  AreComponents-tail :
      (c : Component Ty) (cs : List (Component Ty)) → AreComponents (c ∷ cs) → AreComponents cs
  AreComponents-tail (static s) cs h = h.1
  AreComponents-tail (single_param ty) cs h = h.2
  AreComponents-tail (catch_all_param ty) cs h = rw h.1 tt

  print_not_empty :
      (c : Component Ty) (cs : List (Component Ty))
      → AreComponents (c ∷ cs)
      → (rest : List ℕ) → bytes_eq (print_component show c ++ rest) [] ≡ false
  print_not_empty (static []) cs h rest = absurd h.0
  print_not_empty (static (c ∷ s)) cs h rest = refl
  print_not_empty (single_param ty) cs h rest = refl
  print_not_empty (catch_all_param ty) cs h rest = refl

  -- the pieces of a printed literal, behind its first slash
  pieces-print :
      (c : Component Ty) (cs : List (Component Ty))
      → AreComponents (c ∷ cs)
      → pieces (print_component show c ++ print show cs) ≡ map (print_component show) (c ∷ cs)
  pieces-print c [] h =
      ap pieces (append-nil (print_component show c))
      ∙ pieces_one _ (NoSlash-print_component c [] h)
  pieces-print c (d ∷ cs) h =
      pieces-slash _ _ (NoSlash-print_component c (d ∷ cs) h)
      ∙ ap (λ l. print_component show c ∷ l) (pieces-print d cs (AreComponents-tail c (d ∷ cs) h))

  parse_single :
      (ty : Ty) (last : Bool) {cs : List (Component Ty)}
      → Printable ty
      → starts_with_dots (show ty) ≡ false
      → parse_param parse_str (bracket (show ty)) last (ok cs) ≡ ok (single_param ty ∷ cs)
  unfolding parse_param
  parse_single ty last p d = rw (
    ends_with-append 60 (show ty),
    drop_last-append (show ty) 62,
    d,
    p.reads,
    is_ascii-append (show ty) p.ascii,
  )

  parse_catch_all :
      (ty : Ty)
      → Printable ty
      → parse_param parse_str (bracket (46 ∷ 46 ∷ show ty)) true (ok [])
        ≡ ok (catch_all_param ty ∷ [])
  unfolding parse_param
  parse_catch_all ty p = rw (
    ends_with-append 46 (show ty),
    is_ascii-append (show ty) p.ascii,
    drop_last-append (46 ∷ show ty) 62,
    p.reads,
  )

  parse_pieces-print :
      (cs : List (Component Ty))
      → AreComponents cs
      → parse_pieces parse_str (map (print_component show) cs) ≡ ok cs
  unfolding parse_pieces
  parse_pieces-print [] h = refl
  parse_pieces-print (static [] ∷ cs) h = absurd h.0
  parse_pieces-print (static (c ∷ s) ∷ cs) h = ground (arith, parse_pieces-print cs h.1)
  parse_pieces-print (single_param ty ∷ cs) h =
      ap (λ r. parse_param parse_str (bracket (show ty)) (is_nil (map (print_component show) cs)) r)
        (parse_pieces-print cs h.2)
      ∙ parse_single ty _ h.0 h.1
  parse_pieces-print (catch_all_param ty ∷ []) h = parse_catch_all ty h.0
  parse_pieces-print (catch_all_param ty ∷ _ ∷ cs) h = ground (arith, h.1)

  -- A literal that is printed from components that it can hold, at least one, and whose end
  -- trimming leaves alone, parses back to the components.
  pub parse_path-print :
      (c : Component Ty) (cs : List (Component Ty))
      → AreComponents (c ∷ cs)
      → trim_end (print show (c ∷ cs)) ≡ print show (c ∷ cs)
      → parse_path parse_str (print show (c ∷ cs)) ≡ ok (c ∷ cs)
  unfolding parse_path
  parse_path-print c cs h t =
      rw (t, print_not_empty c cs h (print show cs), pieces-print c cs h, parse_trimmed)
        (parse_pieces-print (c ∷ cs) h)
