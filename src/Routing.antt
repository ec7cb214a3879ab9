-- ===== src/Routing.antt =====
-- src/endpoint.rs, src/endpoint/syntax.rs and src/endpoint/ext: the endpoints that a program builds of
-- the library's functions, as one data type. `compile` builds them of the modelled functions; `denote`
-- says what they are to give, with no cursor, no context and no polling.
pub mod Meeting
pub mod Literals
pub mod Following
pub mod Combining
pub mod Choosing
pub mod Refinement
pub mod Serving
pub mod Associating
pub mod Bracketing
pub mod Bodies
pub mod Responding
pub mod Pathless
pub mod Arguments
pub mod Recovering
pub mod Answering
use finch_router.Prelude.{
  ℕ, ◌+◌, List, [], ◌∷◌, ◌++◌, ◌⊎◌, inl, inr, Option, Outcome, ok, err, panicked, drop, length, leb,
  bytes_eq, chain, if◌then◌else◌,
}
use finch_router.Common.{HList, One, one, combine}
use finch_router.Crates.{Crates, Method}
use finch_router.Error.{Error, not_matched, method_not_allowed}
use finch_router.Action as Action
use finch_router.Action.{Endpoint, map_ok}
use finch_router.Syntax as Syntax
use finch_router.Syntax.{FromEncodedStr, not_matched_error}
use finch_router.Syntax.Verb as Verb
use finch_router.Syntax.Verb.{Verbs, method_eq, contains}
use finch_router.Syntax.PathLiteral as PathLiteral
use finch_router.Syntax.PathLiteral.{Component, output_types}
use finch_router.Syntax.PathLiteral.Extraction.{NoCatchAll, match_segments}
use finch_router.Ext.And as And
use finch_router.Ext.And.{AndAction}
use finch_router.Ext.Or as Or
use finch_router.Ext.OrStrict as OrStrict
use finch_router.Ext.Map as Map

-- An endpoint, by the types of its outputs.
pub data Route : List (Type 0) → Type 1 where
  nothing : Route []
  constant : {t : Type 0} → t → Route (t ∷ [])
  literal : List ℕ → Route []
  ending : Route []
  parameter : {t : Type 0} → FromEncodedStr t → Route (t ∷ [])
  method_is : Method → Route []
  method_among : Verbs → Route []
  components :
      {Ty : Type 0} {El : Ty → Type 0}
      → ((ty : Ty) → List ℕ → Outcome Error (El ty))
      → (cs : List (Component Ty)) → NoCatchAll cs
      → Route (output_types El cs)
  both : {ts us : List (Type 0)} → Route ts → Route us → Route (ts ++ us)
  better : {t u : Type 0} → Route (t ∷ []) → Route (u ∷ []) → Route ((t ⊎ u) ∷ [])
  first : {ts : List (Type 0)} → Route ts → Route ts → Route ts
  mapped : {ts : List (Type 0)} {u : Type 0} → (HList ts → u) → Route ts → Route (u ∷ [])
  renamed : {ts : List (Type 0)} → (Error → Error) → Route ts → Route ts

-- the type of the action
unfoldable pub StateOf : {ts : List (Type 0)} → Route ts → Type 0
StateOf nothing = Option (Unit {0})
StateOf (constant {t} x) = Option t
StateOf (literal s) = Option (List ℕ)
StateOf ending = Option (Unit {0})
StateOf (parameter f) = Option (Unit {0})
StateOf (method_is m) = Option (Unit {0})
StateOf (method_among v) = Option Verbs
StateOf (components f cs n) = Option (Unit {0})
StateOf (both {ts} {us} r q) = AndAction (StateOf r) (HList ts) (StateOf q) (HList us)
StateOf (better r q) = Or.State (StateOf r) (StateOf q)
StateOf (first r q) = OrStrict.State (StateOf r) (StateOf q)
StateOf (mapped f r) = StateOf r
StateOf (renamed f r) = StateOf r

module _ (k : Crates) (Bd : Type 0) where
  unfoldable pub compile :
      {ts : List (Type 0)} (r : Route ts) → Endpoint k Bd (StateOf r) (HList ts)
  unfolding StateOf Action.unit Action.value Syntax.segment Syntax.eos Syntax.param Verb.verb
      Verb.verbs PathLiteral.path_endpoint And.and Or.or OrStrict.or_strict Map.map Map.map_err
  compile nothing = Action.unit
  compile (constant x) = Action.value x
  compile (literal s) = Syntax.segment s
  compile ending = Syntax.eos
  compile (parameter f) = Syntax.param f
  compile (method_is m) = Verb.verb m
  compile (method_among v) = Verb.verbs v
  compile (components f cs n) = PathLiteral.path_endpoint f cs
  compile (both {ts} {us} r q) = And.and ts us (compile r) (compile q)
  compile (better r q) = Or.or (compile r) (compile q)
  compile (first r q) = OrStrict.or_strict (compile r) (compile q)
  compile (mapped f r) = Map.map (compile r) f
  compile (renamed f r) = Map.map_err (compile r) f

-- What is found, with the number of segments that it takes.
abbrev pub Found : Type 0 → Type 0
Found T = Outcome Error (T × ℕ)

-- of two that match, the one that takes more segments, the first on a tie
abbrev pub longest : {t u : Type 0} → Found (One t) → Found (One u) → Found (One (t ⊎ u))
longest (ok (x, n)) (ok (y, m)) = if leb m n then ok (one (inl x.0), n) else ok (one (inr y.0), m)
longest (ok (x, n)) (err _) = ok (one (inl x.0), n)
longest (err _) (ok (y, m)) = ok (one (inr y.0), m)
longest (err e) (err e') = err (not_matched e e')
longest panicked _ = panicked
longest _ panicked = panicked

-- the second where the first does not match
abbrev pub otherwise : {T : Type 0} → Found T → Found T → Found T
otherwise (err e) (err e') = err (not_matched e e')
otherwise (err _) found = found
otherwise found _ = found

abbrev pub refusal : {T : Type 0} → (Error → Error) → Found T → Found T
refusal f (ok x) = ok x
refusal f (err e) = err (f e)
refusal f panicked = panicked

-- the first segment, if there is one
abbrev pub on_segment : {T : Type 0} → (List ℕ → Outcome Error T) → List (List ℕ) → Found T
on_segment f [] = err not_matched_error
on_segment f (s ∷ _) = map_ok (λ x. (x, 1)) (f s)

module _ (k : Crates) (request : k.Request) where
  -- What an endpoint gives on a request, of whose path these segments are left.
  unfoldable pub denote : {ts : List (Type 0)} → Route ts → List (List ℕ) → Found (HList ts)
  denote nothing ss = ok (tt, 0)
  denote (constant x) ss = ok (one x, 0)
  denote (literal text) ss =
      on_segment (λ s. if bytes_eq s (k.percent_encode text) then ok tt else err not_matched_error)
        ss
  denote ending [] = ok (tt, 0)
  denote ending (_ ∷ _) = err not_matched_error
  denote (parameter f) ss = on_segment (λ s. map_ok one (f s)) ss
  denote (method_is m) ss =
      if method_eq (k.method request) m
      then ok (tt, 0)
      else err (method_not_allowed "invalid method")
  denote (method_among v) ss =
      if contains v (k.method request)
      then ok (tt, 0)
      else err (method_not_allowed "invalid method")
  denote (components f cs n) ss = map_ok (λ x. (x, length cs)) (match_segments f cs ss)
  denote (both {ts} {us} r q) ss =
      chain (denote r ss)
        (λ x. map_ok (λ y. (combine ts us x.0 y.0, x.1 + y.1)) (denote q (drop x.1 ss)))
  denote (better r q) ss = longest (denote r ss) (denote q ss)
  denote (first r q) ss = otherwise (denote r ss) (denote q ss)
  denote (mapped f r) ss = map_ok (λ x. (one (f x.0), x.1)) (denote r ss)
  denote (renamed f r) ss = refusal f (denote r ss)
