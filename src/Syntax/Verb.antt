-- ===== src/Syntax/Verb.antt =====
-- src/endpoint/syntax/verb.rs: endpoints that check the method of the request, and sets of methods.
-- `bitflags` makes `Methods` a `u32`: `contains` is `bits & other == other`, `from_bits_truncate`
-- keeps the nine defined bits, and no operation here leaves the range of a `u32`.
pub mod Laws
use Prim.Native.Nat.{bit_and, bit_or}
use text.Mathlib.Text.{◌==◌ as str_eq}
use finch_router.Prelude.{
  ℕ, zero, suc, ◌*◌, Bool, true, false, Option, none, some, List, [], ◌∷◌, ok, err, ◌==◌,
  if◌then◌else◌,
}
use finch_router.Crates.{
  Crates, Method, get, post, put, delete, head, options, connect, patch, trace, extension,
}
use finch_router.Error.{method_not_allowed}
use finch_router.Action.{OneshotAction, Endpoint, oneshot_endpoint}

-- the bits of `Methods`
abbrev pub bit : Method → ℕ
bit get = 1
bit post = 2
bit put = 4
bit delete = 8
bit head = 16
bit options = 32
bit connect = 64
bit patch = 128
bit trace = 256
bit (extension _) = 0

-- `Method: PartialEq`
unfoldable pub method_eq : Method → Method → Bool
method_eq (extension a) (extension b) = str_eq a b
method_eq (extension _) _ = false
method_eq _ (extension _) = false
method_eq a b = bit a == bit b

-- `Verbs(Methods)`, by its bits
pub record Verbs : Type 0 where
  pub bits : ℕ

-- `Methods::contains` and `Methods::all`
unfoldable pub contains_bits : ℕ → ℕ → Bool
contains_bits bits other = bit_and bits other == other

abbrev pub all_bits : ℕ
all_bits = 511

-- `Verbs::single`
unfoldable pub single : Method → Option Verbs
single (extension _) = none
single get = some (record { bits = bit get })
single m = some (record { bits = bit m })

-- `Verbs::any`
unfoldable pub any : Verbs
any = record { bits = all_bits }

-- `Verbs::contains`
unfoldable pub contains : Verbs → Method → Bool
unfolding contains_bits
contains v (extension _) = false
contains v get = contains_bits v.bits (bit get)
contains v m = contains_bits v.bits (bit m)

-- `BitOr for Verbs`, and `BitOrAssign`
unfoldable pub bitor : Verbs → Verbs → Verbs
bitor a b = record { bits = bit_or a.bits b.bits }

-- `VerbsIter`
pub record VerbsIter : Type 0 where
  pub allowed : ℕ
  pub cursor : ℕ

unfoldable pub into_iter : Verbs → VerbsIter
into_iter v = record { allowed = v.bits; cursor = bit get }

-- `dump_method!`: the first of the nine methods whose bit is in the mask
abbrev pub methods : List Method
methods = get ∷ post ∷ put ∷ delete ∷ head ∷ options ∷ connect ∷ patch ∷ trace ∷ []

dump_method : ℕ → List Method → Option Method
dump_method masked [] = none
dump_method masked (m ∷ ms) = if contains_bits masked (bit m) then some m else dump_method masked ms

-- `VerbsIter::next`. The fuel bounds the rounds of its loop; the cursor is shifted in each, so
-- nine rounds empty it.
unfoldable pub next_verb : ℕ → VerbsIter → Option (Option Method × VerbsIter)
unfolding dump_method contains_bits
next_verb zero it = none
next_verb (suc fuel) it =
    let masked = bit_and it.allowed it.cursor in
    let cursor = bit_and (it.cursor * 2) all_bits in
    let it' : VerbsIter = record it { cursor = cursor } in
    let rest = next_verb fuel it' in
    if cursor == 0
    then some (none, it')
    else elim (dump_method masked methods) [ some m ↦ some (some m, it') | none ↦ rest ]

-- The methods that a whole iteration yields; `none` where a bound is met.
unfoldable pub collect_verbs : ℕ → VerbsIter → Option (List Method)
unfolding next_verb
collect_verbs zero it = none
collect_verbs (suc fuel) it = elim (next_verb 9 it) [
  | none ↦ none
  | some (none, _) ↦ some []
  | some (some m, it') ↦ elim (collect_verbs fuel it') [ none ↦ none | some ms ↦ some (m ∷ ms) ]
]

module _ {k : Crates} where
  -- `MatchVerbsAction::preflight`
  unfoldable pub verbs_preflight : OneshotAction k Verbs (Unit {0})
  unfolding contains
  verbs_preflight allowed cx =
      if contains allowed (k.method cx.context.request)
      then (ok tt, cx)
      else (err (method_not_allowed "invalid method"), cx)

  -- `preflight` of the actions that `define_verbs!` declares
  unfoldable pub verb_preflight : Method → OneshotAction k (Unit {0}) (Unit {0})
  unfolding method_eq
  verb_preflight m _ cx =
      if method_eq (k.method cx.context.request) m
      then (ok tt, cx)
      else (err (method_not_allowed "invalid method"), cx)

module _ {k : Crates} {Bd : Type 0} where
  -- `verbs`
  unfoldable pub verbs : Verbs → Endpoint k Bd (Option Verbs) (Unit {0})
  unfolding verbs_preflight oneshot_endpoint
  verbs allowed = oneshot_endpoint verbs_preflight allowed

  -- `get`, `post` and the other functions that `define_verbs!` declares
  unfoldable pub verb : Method → Endpoint k Bd (Option (Unit {0})) (Unit {0})
  unfolding verb_preflight oneshot_endpoint
  verb m = oneshot_endpoint (verb_preflight m) tt
