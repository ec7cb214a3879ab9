-- ===== src/Cookies/Headers.antt =====
-- src/service.rs: what `Context::cookies` reads in Cookie headers that are written as pieces between
-- semicolons, with white space around them.
use mathlib.Core.List.{append-nil, append_assoc}
use finch_router.Prelude.{
  ℕ, String, ◌≡◌, ◌∙◌, refl, ap, sym, List, [], ◌∷◌, ◌++◌, true, false, none, Outcome, ok, err, ◌⊎◌,
  inl, inr, arith, map, ◌==◌, All,
}
use finch_router.Crates.{Crates}
use finch_router.Error.{Error, bad_request}
use finch_router.Context.{Context}
use finch_router.Action.{map_ok}
use finch_router.Cookies.{CookieCrate, split_semicolon, cookie_pieces, cookies}
use finch_router.Cookies.Parsing.{
  cookies_of, append_ok, all_cookies, filled, cookies-eq-all_cookies,
}
use finch_router.Syntax.PathLiteral.{is_whitespace, trim_start, trim_end}

-- a piece, with what stands around it
pub record Padded : Type 0 where
  pub before : List ℕ
  pub piece : List ℕ
  pub after : List ℕ

abbrev raw : Padded → List ℕ
raw q = q.before ++ (q.piece ++ q.after)

-- pieces between semicolons
abbrev pub text : Padded → List Padded → List ℕ
text q [] = raw q
text q (q' ∷ qs) = raw q ++ (59 ∷ text q' qs)

abbrev IsSpace : ℕ → Type 0
IsSpace c = is_whitespace c ≡ true

abbrev IsNoSemicolon : ℕ → Type 0
IsNoSemicolon c = (c == 59) ≡ false

abbrev last : ℕ → List ℕ → ℕ
last c [] = c
last c (d ∷ s) = last d s

-- neither the first character nor the last is white space
abbrev IsTrimmed : List ℕ → Type 0
IsTrimmed [] = Unit
IsTrimmed (c ∷ s) = (is_whitespace c ≡ false) × (is_whitespace (last c s) ≡ false)

-- White space around a piece that has no semicolon and is trimmed.
abbrev pub IsPadded : Padded → Type 0
IsPadded q =
    All IsSpace q.before × All IsSpace q.after × All IsNoSemicolon q.piece × IsTrimmed q.piece

All-append : {A : Type 0} (P : A → Type 0) (xs ys : List A) → All P xs → All P ys → All P (xs ++ ys)
All-append P [] ys h g = g
All-append P (x ∷ xs) ys (p, h) g = (p, All-append P xs ys h g)

space-IsNoSemicolon : (c : ℕ) → IsSpace c → IsNoSemicolon c
space-IsNoSemicolon c h = ground (arith, h)

spaces-IsNoSemicolon : (xs : List ℕ) → All IsSpace xs → All IsNoSemicolon xs
spaces-IsNoSemicolon [] h = tt
spaces-IsNoSemicolon (x ∷ xs) (p, h) = (space-IsNoSemicolon x p, spaces-IsNoSemicolon xs h)

raw-IsNoSemicolon : (q : Padded) → IsPadded q → All IsNoSemicolon (raw q)
raw-IsNoSemicolon q (spaces, spaces', plain, _) =
    All-append IsNoSemicolon q.before (q.piece ++ q.after) (spaces-IsNoSemicolon q.before spaces)
      (All-append IsNoSemicolon q.piece q.after plain (spaces-IsNoSemicolon q.after spaces'))

split_semicolon_last : (xs : List ℕ) → All IsNoSemicolon xs → split_semicolon xs ≡ xs ∷ []
unfolding split_semicolon
split_semicolon_last [] h = refl
split_semicolon_last (x ∷ xs) (p, h) = ground (arith, p, split_semicolon_last xs h)

split_semicolon_next :
    (xs ys : List ℕ)
    → All IsNoSemicolon xs
    → split_semicolon (xs ++ (59 ∷ ys)) ≡ xs ∷ split_semicolon ys
unfolding split_semicolon
split_semicolon_next [] ys h = refl
split_semicolon_next (x ∷ xs) ys (p, h) = ground (arith, p, split_semicolon_next xs ys h)

trim_start-append : (xs ys : List ℕ) → All IsSpace xs → trim_start (xs ++ ys) ≡ trim_start ys
unfolding trim_start
trim_start-append [] ys h = refl
trim_start-append (x ∷ xs) ys (p, h) = ground (arith, p, trim_start-append xs ys h)

trim_end_spaces : (xs : List ℕ) → All IsSpace xs → trim_end xs ≡ []
unfolding trim_end
trim_end_spaces [] h = refl
trim_end_spaces (x ∷ xs) (p, h) = ground (arith, p, trim_end_spaces xs h)

trim_end-append : (xs ys : List ℕ) → All IsSpace ys → trim_end (xs ++ ys) ≡ trim_end xs
unfolding trim_end
trim_end-append [] ys h = trim_end_spaces ys h
trim_end-append (x ∷ xs) ys h = ground (arith, trim_end-append xs ys h)

trim_end_kept : (c : ℕ) (s : List ℕ) → is_whitespace (last c s) ≡ false → trim_end (c ∷ s) ≡ c ∷ s
unfolding trim_end
trim_end_kept c [] h = ground (arith, h)
trim_end_kept c (d ∷ s) h = ground (arith, trim_end_kept d s h)

trim_end_behind :
    (xs : List ℕ) (c : ℕ) (s : List ℕ)
    → is_whitespace (last c s) ≡ false
    → trim_end (xs ++ (c ∷ s)) ≡ xs ++ (c ∷ s)
unfolding trim_end
trim_end_behind [] c s h = trim_end_kept c s h
trim_end_behind (x ∷ []) c s h = ground (arith, trim_end_kept c s h)
trim_end_behind (x ∷ y ∷ xs) c s h = ground (arith, trim_end_behind (y ∷ xs) c s h)

trim_piece :
    (before piece : List ℕ)
    → All IsSpace before
    → IsTrimmed piece
    → trim_start (trim_end (before ++ piece)) ≡ piece
unfolding trim_start
trim_piece before [] h t = rw append-nil (rw (trim_end_spaces before h) refl)
trim_piece before (c ∷ s) h (first, final) =
    rw (trim_end_behind before c s final)
      (rw (trim_start-append before (c ∷ s) h) (ground (arith, first)))

trim_raw : (q : Padded) → IsPadded q → trim_start (trim_end (raw q)) ≡ q.piece
trim_raw q (spaces, spaces', plain, trimmed) =
    ap trim_start (
      ap trim_end (sym (append_assoc q.before q.piece q.after))
      ∙ trim_end-append (q.before ++ q.piece) q.after spaces')
    ∙ trim_piece q.before q.piece spaces trimmed

module _ {k : Crates} (ck : CookieCrate k) where
  cookie_pieces-text :
      (q : Padded) (qs : List Padded)
      → All IsPadded (q ∷ qs)
      → cookie_pieces ck (text q qs) ≡ map (λ q. q.piece) (q ∷ qs)
  unfolding cookie_pieces
  cookie_pieces-text q [] (p, h) =
      rw (split_semicolon_last (raw q) (raw-IsNoSemicolon q p)) (ap (λ s. s ∷ []) (trim_raw q p))
  cookie_pieces-text q (q' ∷ qs) (p, h) =
      rw (split_semicolon_next (raw q) (text q' qs) (raw-IsNoSemicolon q p))
        (rw (trim_raw q p) (ap (λ ps. q.piece ∷ ps) (cookie_pieces-text q' qs h)))

  -- The headers are texts of such pieces, or are no text, with the error that reading them gives.
  abbrev pub Reads : List k.HeaderValue → List (String ⊎ (Padded × List Padded)) → Type 0
  Reads [] [] = Unit
  Reads [] (_ ∷ _) = ⊥
  Reads (_ ∷ _) [] = ⊥
  Reads (h ∷ hs) (inl cause ∷ written) = (ck.to_str h ≡ err cause) × Reads hs written
  Reads (h ∷ hs) (inr (q, qs) ∷ written) =
      (ck.to_str h ≡ ok (text q qs)) × All IsPadded (q ∷ qs) × Reads hs written

  -- the cookies of the pieces, or the first error
  abbrev pub cookies_in : List (String ⊎ (Padded × List Padded)) → Outcome Error (List ck.Cookie)
  cookies_in [] = ok []
  cookies_in (inl cause ∷ written) = err (bad_request cause)
  cookies_in (inr (q, qs) ∷ written) =
      append_ok ck (cookies_of ck (map (λ q. q.piece) (q ∷ qs))) (cookies_in written)

  all_cookies-Reads :
      (hs : List k.HeaderValue) (written : List (String ⊎ (Padded × List Padded)))
      → Reads hs written
      → all_cookies ck hs ≡ cookies_in written
  all_cookies-Reads [] [] r = refl
  all_cookies-Reads [] (_ ∷ _) r = absurd r
  all_cookies-Reads (_ ∷ _) [] r = absurd r
  all_cookies-Reads (h ∷ hs) (inl cause ∷ written) (e, r) = ground (arith, e)
  all_cookies-Reads (h ∷ hs) (inr (q, qs) ∷ written) (e, padded, r) =
      ground (arith, e, cookie_pieces-text q qs padded, all_cookies-Reads hs written r)

  -- Where each Cookie header is a text of pieces between semicolons, which have no semicolon, do not
  -- begin or end with white space, and have any amount of it around them, or is no text, the first call
  -- returns a new jar with the cookies of all pieces of all headers added in order, or, as a bad
  -- request, the first error among the headers and their pieces.
  pub cookies-Reads :
      (cx : Context k) (written : List (String ⊎ (Padded × List Padded)))
      → cx.cookies ≡ none
      → Reads (ck.cookie_headers cx.request) written
      → (cookies ck cx).0 ≡ map_ok (filled ck ck.new_jar) (cookies_in written)
  cookies-Reads cx written first_call reads =
      cookies-eq-all_cookies ck cx first_call
      ∙ ap (map_ok (filled ck ck.new_jar)) (all_cookies-Reads _ written reads)
