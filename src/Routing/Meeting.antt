-- ===== src/Routing/Meeting.antt =====
-- src/action.rs, src/endpoint/syntax.rs: what it is for an action to give what is to be found, and
-- the endpoints at the leaves.
use finch_router.Prelude.{
  ℕ, ◌+◌, ◌≡◌, refl, List, ◌∷◌, Option, none, some, Outcome, ok, err, panicked, drop, inl, inr,
  arith,
}
use finch_router.Crates.{Crates}
use finch_router.Error.{Error}
use finch_router.Context.{PreflightContext, ActionContext, path_of}
use finch_router.Action.{
  Preflight, completed, incomplete, ready, map_ok, EndpointAction, OneshotAction, oneshot_preflight,
  oneshot_poll,
}
use finch_router.Cursor.Split.{split}
use finch_router.Cursor.Walk.{next_segment-cases}
use finch_router.Syntax.{next, not_matched_error}
use finch_router.Syntax.Matching.{StandsAt}
use finch_router.Routing.{Found, on_segment}

module _ {k : Crates} {Bd S T : Type 0} (a : EndpointAction k Bd S T) where
  -- The check completed with the output, or the first poll is ready with it and keeps its context.
  abbrev pub Promises : T → Preflight T → S → Type 0
  Promises x (completed y) s = y ≡ x
  Promises x incomplete s =
      (cx : ActionContext k Bd) → (s' : S) × (a.poll_action s cx ≡ (ok (ready x), s', cx))

  -- The check from a state and a context takes so many of these segments and gives an output.
  pub record Delivers (s : S) (cx : PreflightContext k) (ss : List (List ℕ)) (x : T) (n : ℕ)
      : Type 0 where
    pub result : Preflight T
    pub left : S
    pub after : PreflightContext k
    pub rest : List ℕ
    pub checked : a.preflight s cx ≡ (ok result, left, after)
    pub promised : Promises x result left
    pub at : StandsAt after rest
    pub segments : split rest ≡ drop n ss
    pub counted : after.cursor.popped ≡ cx.cursor.popped + n
    pub kept : after.context ≡ cx.context

  abbrev pub Meets : S → PreflightContext k → List (List ℕ) → Found T → Type 0
  Meets s cx ss (ok (x, n)) = Delivers s cx ss x n
  Meets s cx ss (err e) = (a.preflight s cx).0 ≡ err e
  Meets s cx ss panicked = (a.preflight s cx).0 ≡ panicked

module _ {k : Crates} (Bd : Type 0) {A T : Type 0} (act : OneshotAction k A T) where
  abbrev pub leaf : EndpointAction k Bd (Option A) T
  leaf = record { preflight = oneshot_preflight act; poll_action = oneshot_poll act }

  -- An action that leaves the path alone.
  pub still-Meets :
      (s : A) (cx : PreflightContext k) {rest : List ℕ} (r : Outcome Error T)
      → StandsAt cx rest
      → act s cx ≡ (r, cx)
      → Meets leaf (some s) cx (split rest) (map_ok (λ x. (x, 0)) r)
  unfolding oneshot_preflight
  still-Meets s cx {rest} (ok x) at e = record {
    result = completed x;
    left = none;
    after = cx;
    rest = rest;
    checked = ground (arith, e);
    promised = refl;
    at = at;
    segments = refl;
    counted = omega arith;
    kept = refl;
  }
  still-Meets s cx (err x) at e = ground (arith, e)
  still-Meets s cx panicked at e = ground (arith, e)

  module _ (s : A) (cx : PreflightContext k) (rest : List ℕ) where
    popped-Meets :
        (after : PreflightContext k) (later segment : List ℕ) (r : Outcome Error T)
        → StandsAt after later
        → after.cursor.popped ≡ cx.cursor.popped + 1
        → after.context ≡ cx.context
        → act s cx ≡ (r, after)
        → Meets leaf (some s) cx (segment ∷ split later) (map_ok (λ x. (x, 1)) r)
    unfolding oneshot_preflight
    popped-Meets after later segment (ok x) at counted kept acts = record {
      result = completed x;
      left = none;
      after = after;
      rest = later;
      checked = ground (arith, acts);
      promised = refl;
      at = at;
      segments = refl;
      counted = counted;
      kept = kept;
    }
    popped-Meets after later segment (err x) at counted kept acts = ground (arith, acts)
    popped-Meets after later segment panicked at counted kept acts = ground (arith, acts)

    -- An action that looks at the next segment.
    pub segment-Meets :
        (f : List ℕ → Outcome Error T)
        → (next cx ≡ (ok none, cx) → act s cx ≡ (err not_matched_error, cx))
        → ((segment : List ℕ) (after : PreflightContext k)
            → next cx ≡ (ok (some segment), after)
            → act s cx ≡ (f segment, after))
        → StandsAt cx rest
        → Meets leaf (some s) cx (split rest) (on_segment f (split rest))
    unfolding next oneshot_preflight
    segment-Meets f ended popped at = elim (next_segment-cases (path_of cx) cx.cursor rest at) [
      | inl (e, stays) ↦ rw e (ground (arith, ended (ground (arith, stays))))
      | inr p ↦
          let after : PreflightContext k = record cx { cursor = p.cursor } in
          rw p.segments (
            popped-Meets after p.later p.segment (f p.segment) p.at p.counted refl
              (popped p.segment after (ground (arith, p.step))))
    ]
