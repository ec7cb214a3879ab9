-- ===== src/Tests/Bodies.antt =====
-- A body of JSON that is not ready at times.
use text.Mathlib.Text.{◌==◌ as str_eq}
use finch_router.Prelude.{ℕ, refl, List, [], ◌∷◌, none, some, Outcome, String, ok, true, arith}
use finch_router.Common.{one}
use finch_router.Crates.{Crates, get}
use finch_router.Body.Endpoints.{BodyCrate, json}
use finch_router.Ext.Future.Settling.{Resolves}
use finch_router.Service.{poll_apply, dispatch}
use finch_router.Tests.{plain, a_bc}
use finch_router.Common.{combine, One}
use finch_router.Body.{State}
use finch_router.Ext.And as And
use finch_router.Ext.And.{AndAction}
use finch_router.Cursor.Split.{split}
use finch_router.Service.{AppFuture}
use finch_router.Syntax.PathLiteral.{utf8}
use finch_router.Syntax.PathLiteral.Extraction.{match_segments}
use finch_router.Routing.{Route, StateOf, compile, denote, both, literal, parameter}
use finch_router.Routing.Bodies.{and-json-Resolves}
use finch_router.Tests.Paths.{behind_slash, as_it_is}
use finch_router.Tests.Serving.{Queue, poll_queue, queue, queue-Streams}

abbrev typed : Crates
typed = record plain { header = λ _ _. some "application/json" }

abbrev texts : BodyCrate typed
texts = record {
  Mime = String;
  mime_of = λ v. ok v;
  Charset = String;
  charset = λ _. none;
  is_utf8 = λ _. true;
  is_json = λ m. str_eq m "application/json";
  is_form = λ m. str_eq m "application/x-www-form-urlencoded";
  from_utf8 = λ _. ok "text";
}

-- the first byte is the number
abbrev number : List ℕ → Outcome String ℕ
number [] = ok 0
number (b ∷ _) = ok b

-- `segment("a").and(param()).and(json())`
abbrev numbered : Route (List ℕ ∷ [])
numbered = both (literal (97 ∷ [])) (parameter as_it_is)

and-json-Resolves_example :
    let e =
      And.and
        (List ℕ ∷ [])
        (ℕ ∷ [])
        (compile typed Queue numbered)
        (json texts poll_queue 4 number) in
    (fut' : AppFuture typed Queue
      (AndAction (StateOf numbered) (One (List ℕ)) (State Queue) (One ℕ)))
    × Resolves
        (poll_apply e.behaviour)
        (ok (combine (List ℕ ∷ []) (ℕ ∷ []) (one (98 ∷ 99 ∷ [])) (one 1)))
        fut'
        (dispatch e (get, a_bc) queue)
and-json-Resolves_example =
    and-json-Resolves texts poll_queue 4 numbered (get, a_bc) behind_slash number
      (one (98 ∷ 99 ∷ [])) 2 refl (unfold denote split match_segments utf8 combine in refl) refl
      refl refl queue-Streams (omega arith)
