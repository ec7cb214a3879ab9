-- ===== src/Cursor/Split.antt =====
-- The segments of a path, described character by character: what the cursor of src/action.rs is
-- to produce. A slash ends a segment, so a last slash opens no further segment.
use finch_router.Prelude.{
  ℕ, ◌≡◌, refl, ap, ◌∙◌, ◌≢◌, inl, inr, List, [], ◌∷◌, ◌++◌, none, some, length, length-append, ◌<◌,
  take, take-append, suffix?, suffix?-add, suffix?-append, ◌+◌, All, ◌==◌, if◌then◌else◌,
  Bool-cases, Option-cases, arith,
}
use finch_router.Cursor.{slash, find_slash}

abbrev push : ℕ → List (List ℕ) → List (List ℕ)
push c [] = (c ∷ []) ∷ []
push c (s ∷ ss) = (c ∷ s) ∷ ss

unfoldable pub split : List ℕ → List (List ℕ)
split [] = []
split (c ∷ s) = if c == slash then [] ∷ split s else push c (split s)

abbrev pub NoSlash : List ℕ → Type 0
NoSlash s = All (λ c. c ≢ slash) s

-- A path of which every segment ends in a slash.
abbrev pub terminated : List (List ℕ) → List ℕ
terminated [] = []
terminated (s ∷ ss) = s ++ slash ∷ terminated ss

pub split-slash : (seg rest : List ℕ) → NoSlash seg → split (seg ++ slash ∷ rest) ≡ seg ∷ split rest
unfolding split
split-slash [] rest h = refl
split-slash (c ∷ seg) rest (n, h) = ground (arith, split-slash seg rest h)

pub split_one : (c : ℕ) (seg : List ℕ) → NoSlash (c ∷ seg) → split (c ∷ seg) ≡ (c ∷ seg) ∷ []
unfolding split
split_one c [] (n, h) = ground arith
split_one c (d ∷ seg) (n, h) = ground (arith, split_one d seg h)

pub split-terminated : (ss : List (List ℕ)) → All NoSlash ss → split (terminated ss) ≡ ss
split-terminated [] h = unfold split in refl
split-terminated (s ∷ ss) (n, h) =
    split-slash s (terminated ss) n ∙ ap (λ l. s ∷ l) (split-terminated ss h)

push-NoSlash : (c : ℕ) (ss : List (List ℕ)) → c ≢ slash → All NoSlash ss → All NoSlash (push c ss)
push-NoSlash c [] n h = ((n, tt), tt)
push-NoSlash c (s ∷ ss) n (hs, h) = ((n, hs), h)

pub split-NoSlash : (s : List ℕ) → All NoSlash (split s)
unfolding split
split-NoSlash [] = tt
split-NoSlash (c ∷ s) = elim (Bool-cases (c == slash)) [
  | inl e ↦ rw e (tt, split-NoSlash s)
  | inr e ↦ rw e (push-NoSlash c (split s) (ground arith) (split-NoSlash s))
]

-- What `find('/')` returns, as a division of the text.
pub find_slash-none : (s : List ℕ) → find_slash s ≡ none → NoSlash s
unfolding find_slash
find_slash-none [] h = tt
find_slash-none (c ∷ s) h = ground (arith, find_slash-none s)

pub record Division (s : List ℕ) (offset : ℕ) : Type 0 where
  pub segment : List ℕ
  pub rest : List ℕ
  pub whole : s ≡ segment ++ slash ∷ rest
  pub free : NoSlash segment
  pub offset_eq : length segment ≡ offset

pub find_slash-some : (s : List ℕ) (offset : ℕ) → find_slash s ≡ some offset → Division s offset
unfolding find_slash
find_slash-some [] offset h = cc
find_slash-some (c ∷ s) offset h = elim (Bool-cases (c == slash)) [
  | inl e ↦ record {
    segment = [];
    rest = s;
    whole = ground arith;
    free = tt;
    offset_eq = ground arith;
  }
  | inr e ↦ elim (Option-cases (find_slash s)) [
    | inl missed ↦ ground arith
    | inr (o, found) ↦
        let d = find_slash-some s o found in
        record {
          segment = c ∷ d.segment;
          rest = d.rest;
          whole = ap (λ l. c ∷ l) d.whole;
          free = (ground arith, d.free);
          offset_eq = ground (arith, d.offset_eq);
        }
  ]
]

module _ {s : List ℕ} {offset : ℕ} (d : Division s offset) where
  pub take-Division : take offset s ≡ d.segment
  take-Division = rw (d.whole, ← d.offset_eq) (take-append d.segment (slash ∷ d.rest))

  pub suffix?-Division : suffix? (offset + 1) s ≡ some d.rest
  suffix?-Division =
      rw (d.whole, ← d.offset_eq)
        (suffix?-add (length d.segment) (d.segment ++ slash ∷ d.rest) 1
          (suffix?-append d.segment (slash ∷ d.rest)))

  pub split-Division : split s ≡ d.segment ∷ split d.rest
  split-Division = ap split d.whole ∙ split-slash d.segment d.rest d.free

  pub length-Division : length d.rest < length s
  length-Division = omega (arith, ap length d.whole, length-append d.segment (slash ∷ d.rest))
