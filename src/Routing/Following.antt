-- ===== src/Routing/Following.antt =====
-- src/action.rs: an action that goes on as another one.
use finch_router.Prelude.{ℕ, ◌≡◌, ap, List, ok}
use finch_router.Crates.{Crates}
use finch_router.Context.{PreflightContext, ActionContext}
use finch_router.Action.{Preflight, completed, incomplete, ready, map_preflight, EndpointAction}
use finch_router.Routing.Meeting.{Promises, Delivers}

-- An action that goes on as another, with its output mapped, from the state that is kept.
module _ {k : Crates} {Bd S T L U : Type 0} (a : EndpointAction k Bd S T)
    (b : EndpointAction k Bd L U) (f : T → U) (keep done : S → L) where
  abbrev pub left_by : Preflight T → S → L
  left_by (completed _) s = done s
  left_by incomplete s = keep s

  pub goes_on-Delivers :
      (follows : (s s' : S) (x : T) (cx : ActionContext k Bd)
        → a.poll_action s cx ≡ (ok (ready x), s', cx)
        → b.poll_action (keep s) cx ≡ (ok (ready (f x)), keep s', cx))
      (s : S) (l : L) (cx : PreflightContext k) (ss : List (List ℕ)) (x : T) (n : ℕ)
      (d : Delivers a s cx ss x n)
      → b.preflight l cx ≡ (ok (map_preflight f d.result), left_by d.result d.left, d.after)
      → Delivers b l cx ss (f x) n
  goes_on-Delivers follows s l cx ss x n d e = record {
    result = map_preflight f d.result;
    left = left_by d.result d.left;
    after = d.after;
    rest = d.rest;
    checked = e;
    promised = promised d.result d.promised;
    at = d.at;
    segments = d.segments;
    counted = d.counted;
    kept = d.kept;
  }
    where
      promised :
          (p : Preflight T)
          → Promises a x p d.left
          → Promises b (f x) (map_preflight f p) (left_by p d.left)
      promised (completed y) h = ap f h
      promised incomplete h =
          λ cx'. let (s', polls) = h cx' in (keep s', follows d.left s' x cx' polls)
