-- ===== src/Routing/Responding.antt =====
-- src/service.rs, src/endpoint: a request for a route is answered.
use mathlib.Core.Path.{subst}
use finch_router.Prelude.{
  Outcome-cases, ℕ, refl, chain, ◌≡◌, ◌∙◌, leb, String, List, [], ◌∷◌, Outcome, ok, err, panicked,
  ◌⊎◌, inl, inr, drop, Bool, true, false, bytes_eq, if◌then◌else◌,
}
use finch_router.Common.{HList, One}
use finch_router.Crates.{Crates}
use finch_router.Error.{Error}
use finch_router.Cursor.{slash}
use finch_router.Cursor.Split.{split}
use finch_router.Action.{ready, map_ok}
use finch_router.Cookies.{CookieCrate}
use finch_router.Output.{HeaderCrate, HttpResponse, IntoResponse}
use finch_router.Routing.{
  Route, nothing, constant, method_is, method_among, literal, ending, parameter, components, both,
  better, first, mapped, renamed, compile, denote, Found, longest, otherwise, refusal, on_segment,
}
use finch_router.Routing.Answering.{answer_to, poll_response-compile}
use finch_router.Syntax.PathLiteral.{Component, static, single_param, catch_all_param, utf8}
use finch_router.Syntax.PathLiteral.Extraction.{NoCatchAll, match_segments}
use finch_router.Syntax.Verb.{method_eq, contains}
use finch_router.Service.{dispatch}
use finch_router.Service.Response.{DeltaCrate, poll_response}

-- a result that is no panic
abbrev pub Returns : {T : Type 0} → Outcome Error T → Type 0
Returns (ok x) = Unit
Returns (err e) = Unit
Returns panicked = ⊥

-- no conversion of a segment panics
abbrev pub Converts : {ts : List (Type 0)} → Route ts → Type 0
Converts nothing = Unit
Converts (constant x) = Unit
Converts (literal text) = Unit
Converts ending = Unit
Converts (parameter f) = (s : List ℕ) → Returns (f s)
Converts (method_is m) = Unit
Converts (method_among v) = Unit
Converts (components {Ty} f cs n) = (ty : Ty) (s : List ℕ) → Returns (f ty s)
Converts (both r q) = Converts r × Converts q
Converts (better r q) = Converts r × Converts q
Converts (first r q) = Converts r × Converts q
Converts (mapped f r) = Converts r
Converts (renamed f r) = Converts r

map_ok-Returns : {T U : Type 0} (f : T → U) (r : Outcome Error T) → Returns r → Returns (map_ok f r)
map_ok-Returns f (ok x) h = tt
map_ok-Returns f (err e) h = tt
map_ok-Returns f panicked h = h

on_segment-Returns :
    {T : Type 0} (f : List ℕ → Outcome Error T) (ss : List (List ℕ))
    → ((s : List ℕ) → Returns (f s))
    → Returns (on_segment f ss)
on_segment-Returns f [] h = tt
on_segment-Returns f (s ∷ ss) h = map_ok-Returns _ (f s) (h s)

if-Returns :
    {T : Type 0} (b : Bool) (x y : Outcome Error T)
    → Returns x
    → Returns y
    → Returns (if b then x else y)
if-Returns true x y h g = h
if-Returns false x y h g = g

longest-Returns :
    {t u : Type 0} (a : Found (One t)) (b : Found (One u))
    → Returns a
    → Returns b
    → Returns (longest a b)
longest-Returns (ok (x, n)) (ok (y, m)) h g = if-Returns (leb m n) _ _ tt tt
longest-Returns (ok (x, n)) (err e) h g = tt
longest-Returns (err e) (ok (y, m)) h g = tt
longest-Returns (err e) (err e') h g = tt
longest-Returns panicked b h g = h
longest-Returns (ok (x, n)) panicked h g = g
longest-Returns (err e) panicked h g = g

otherwise-Returns : {T : Type 0} (a b : Found T) → Returns a → Returns b → Returns (otherwise a b)
otherwise-Returns (ok x) b h g = tt
otherwise-Returns (err e) (ok y) h g = tt
otherwise-Returns (err e) (err e') h g = tt
otherwise-Returns (err e) panicked h g = g
otherwise-Returns panicked b h g = h

chain-Returns :
    {T U : Type 0} (a : Outcome Error T) (f : T → Outcome Error U)
    → Returns a
    → ((x : T) → Returns (f x))
    → Returns (chain a f)
chain-Returns (ok x) f h g = g x
chain-Returns (err e) f h g = tt
chain-Returns panicked f h g = h

refusal-Returns : {T : Type 0} (f : Error → Error) (a : Found T) → Returns a → Returns (refusal f a)
refusal-Returns f (ok x) h = tt
refusal-Returns f (err e) h = tt
refusal-Returns f panicked h = h

module _ {Ty : Type 0} {El : Ty → Type 0} (f : (ty : Ty) → List ℕ → Outcome Error (El ty))
    (converts : (ty : Ty) (s : List ℕ) → Returns (f ty s)) where
  match_segments-Returns :
      (cs : List (Component Ty)) (ss : List (List ℕ))
      → NoCatchAll cs
      → Returns (match_segments f cs ss)
  unfolding match_segments
  match_segments-Returns [] ss n = tt
  match_segments-Returns (static s ∷ cs) [] n = tt
  match_segments-Returns (static s ∷ cs) (t ∷ ss) n =
      if-Returns (bytes_eq t (utf8 s)) _ _ (match_segments-Returns cs ss n) tt
  match_segments-Returns (single_param ty ∷ cs) [] n = tt
  match_segments-Returns (single_param ty ∷ cs) (t ∷ ss) n = elim (Outcome-cases (f ty t)) [
    | inl (x, e) ↦ rw (e, match_segments) (map_ok-Returns _ _ (match_segments-Returns cs ss n))
    | inr (inl (y, e)) ↦ rw (e, match_segments) tt
    | inr (inr e) ↦ absurd (subst Returns e (converts ty t))
  ]
  match_segments-Returns (catch_all_param ty ∷ cs) ss n = absurd n

module _ (k : Crates) (request : k.Request) where
  denote-Returns :
      {ts : List (Type 0)} (r : Route ts) (ss : List (List ℕ))
      → Converts r
      → Returns (denote k request r ss)
  unfolding denote
  denote-Returns nothing ss h = tt
  denote-Returns (constant x) ss h = tt
  denote-Returns (literal text) ss h =
      on_segment-Returns _ ss (λ s. if-Returns (bytes_eq s (k.percent_encode text)) _ _ tt tt)
  denote-Returns ending [] h = tt
  denote-Returns ending (s ∷ ss) h = tt
  denote-Returns (parameter f) ss h = on_segment-Returns _ ss (λ s. map_ok-Returns _ (f s) (h s))
  denote-Returns (method_is m) ss h = if-Returns (method_eq (k.method request) m) _ _ tt tt
  denote-Returns (method_among v) ss h = if-Returns (contains v (k.method request)) _ _ tt tt
  denote-Returns (components f cs n) ss h = map_ok-Returns _ _ (match_segments-Returns f h cs ss n)
  denote-Returns (both r q) ss (h, g) =
      chain-Returns (denote k request r ss) _ (denote-Returns r ss h)
        (λ x. map_ok-Returns _ _ (denote-Returns q (drop x.1 ss) g))
  denote-Returns (better r q) ss (h, g) =
      longest-Returns _ _ (denote-Returns r ss h) (denote-Returns q ss g)
  denote-Returns (first r q) ss (h, g) =
      otherwise-Returns _ _ (denote-Returns r ss h) (denote-Returns q ss g)
  denote-Returns (mapped f r) ss h = map_ok-Returns _ _ (denote-Returns r ss h)
  denote-Returns (renamed f r) ss h = refusal-Returns f _ (denote-Returns r ss h)

module _ {k : Crates} (h : HeaderCrate k) {T B : Type 0} (into_response : IntoResponse k T B)
    (request : k.Request) where
  answered :
      (found : Found T)
      → Returns found
      → (response : HttpResponse k (String ⊎ B)) × (answer_to h into_response request found
          ≡ ok (ready response))
  answered (ok (x, n)) r = (_, refl)
  answered (err e) r = (_, refl)
  answered panicked r = absurd r

-- On a request whose path is a slash and a rest, where no conversion of a segment panics, the first
-- poll of the future of an endpoint that is built of `segment`, `eos`, `param`, path literals
-- without a catch-all, the method endpoints, values, `and`, `or`, `or_strict`, `map` and `map_err`
-- is ready with a response: it neither fails, nor panics, nor waits.
pub poll_response-answers :
    {k : Crates} (h : HeaderCrate k) {ck : CookieCrate k} (d : DeltaCrate ck) {Bd B : Type 0}
    {ts : List (Type 0)} (into_response : IntoResponse k (HList ts) B) (r : Route ts)
    (request : k.Request) (body : Bd) (rest : List ℕ)
    → k.path request ≡ slash ∷ rest
    → Converts r
    → let e = compile k Bd r in
      (response : HttpResponse k (String ⊎ B)) × ((poll_response h d e.behaviour into_response
          (dispatch e request body)).0
        ≡ ok (ready response))
poll_response-answers {k} h d into_response r request body rest whole converts =
    let (response, e) =
      answered h into_response request (denote k request r (split rest))
        (denote-Returns k request r (split rest) converts) in
    (response, poll_response-compile h d into_response r request body rest whole ∙ e)
