-- ===== src/Files/Streaming.antt =====
-- src/output/fs.rs: which chunks `FileStream` gives, from the blocks that reading the file gives.
use finch_router.Prelude.{
  ℕ, zero, suc, ◌+◌, ◌<◌, ◌≤◌, ◌≡◌, refl, sym, List, [], ◌∷◌, ok, length, take, ltb, ◌==◌,
  if◌then◌else◌, Bool-cases, true, false, inl, inr, arith,
}
use finch_router.Action.{ready, not_ready}
use finch_router.Body.Receiving.{Streams, ended, chunk, waiting}
use finch_router.Files.{Tokio, FileStream, reserved, poll_stream, optimal_buf_size, new_stream}

module _ (t : Tokio) (buf_size : ℕ) where
  -- Reading a file from here gives these blocks, none of them empty, and then its end; a read may
  -- not be ready.
  pub data Reads : List (List ℕ) → t.File → t.BytesMut → Type 0 where
    no_more :
        {file file' : t.File} {buf buf' : t.BytesMut}
        → t.read_buf file (reserved t buf_size buf) ≡ (ok (ready 0), (file', buf'))
        → Reads [] file buf
    block :
        {file file' : t.File} {buf buf1 buf' : t.BytesMut} {bytes : List ℕ} {blocks : List (List ℕ)}
        → t.read_buf file (reserved t buf_size buf) ≡ (ok (ready (length bytes)), (file', buf1))
        → 0 < length bytes
        → t.take_frozen buf1 ≡ (bytes, buf')
        → Reads blocks file' buf'
        → Reads (bytes ∷ blocks) file buf
    not_yet :
        {file file' : t.File} {buf buf' : t.BytesMut} {blocks : List (List ℕ)}
        → t.read_buf file (reserved t buf_size buf) ≡ (ok not_ready, (file', buf'))
        → Reads blocks file' buf'
        → Reads blocks file buf

-- The chunks that a stream with this remaining length gives: a block that is longer than what
-- remains is cut to it and is the last, and what remains after a block is its own size.
abbrev pub delivered : ℕ → List (List ℕ) → List (List ℕ)
delivered len [] = []
delivered len (bytes ∷ blocks) =
    let rest = delivered (length bytes) blocks in
    if len == 0 then [] else if ltb len (length bytes) then take len bytes ∷ [] else bytes ∷ rest

delivered-zero : (blocks : List (List ℕ)) → delivered 0 blocks ≡ []
delivered-zero [] = refl
delivered-zero (bytes ∷ blocks) = refl

delivered_cut :
    (len : ℕ) (bytes : List ℕ) (blocks : List (List ℕ))
    → ltb (suc len) (length bytes) ≡ true
    → delivered (suc len) (bytes ∷ blocks) ≡ take (suc len) bytes ∷ []
delivered_cut len bytes blocks h = ground (arith, h)

delivered_whole :
    (len : ℕ) (bytes : List ℕ) (blocks : List (List ℕ))
    → ltb (suc len) (length bytes) ≡ false
    → delivered (suc len) (bytes ∷ blocks) ≡ bytes ∷ delivered (length bytes) blocks
delivered_whole len bytes blocks h = ground (arith, h)

-- No block is longer than the one before it, and the first is not longer than a length.
abbrev pub Shrinking : ℕ → List (List ℕ) → Type 0
Shrinking len [] = Unit
Shrinking len (bytes ∷ blocks) = (0 < len) × (length bytes ≤ len) × Shrinking (length bytes) blocks

delivered-Shrinking :
    (len : ℕ) (blocks : List (List ℕ)) → Shrinking len blocks → delivered len blocks ≡ blocks
delivered-Shrinking len [] h = refl
delivered-Shrinking len (bytes ∷ blocks) (p, q, h) =
    ground (arith, delivered-Shrinking (length bytes) blocks h)

module _ (t : Tokio)
    (split : (n : ℕ) (bytes : List ℕ)
      → n ≤ length bytes
      → t.split_to n bytes ≡ ok (take n bytes)) where
  module _ (buf_size : ℕ) where
    abbrev pub stream_at : t.File → t.BytesMut → ℕ → FileStream t
    stream_at file buf len = record { file = file; buf = buf; buf_size = buf_size; len = len }

    -- Where `split_to` returns the first bytes, a stream over a file gives the chunks that are
    -- delivered from the blocks of the file, and then ends.
    pub stream-Streams :
        {blocks : List (List ℕ)} {file : t.File} {buf : t.BytesMut} (len : ℕ)
        → Reads t buf_size blocks file buf
        → (s' : FileStream t) × Streams
            (poll_stream t)
            s'
            (delivered len blocks)
            (stream_at file buf len)
    unfolding poll_stream
    stream-Streams {blocks = blocks} {file = file} {buf = buf} zero st =
        (stream_at file buf 0, rw (delivered-zero blocks) (ended (ground arith)))
    stream-Streams (suc len) (no_more {file' = file'} {buf' = buf'} e) =
        (stream_at file' buf' (suc len), ended (ground (arith, e)))
    stream-Streams (suc len)
          (block {file' = file'} {buf' = buf'} {bytes = bytes} {blocks = blocks} e p q st) =
        elim (Bool-cases (ltb (suc len) (length bytes))) [
          | inl h ↦ (
            stream_at file' buf' 0,
            rw (delivered_cut len bytes blocks h) (
                chunk {body1 = stream_at file' buf' 0}
                  (ground (arith, e, p, q, h, split (suc len) bytes (ground (arith, h))))
                  (ended (ground arith))),
          )
          | inr h ↦
              let (s', later) = stream-Streams (length bytes) st in
              (
                s',
                rw (delivered_whole len bytes blocks h) (chunk (ground (arith, e, p, q, h)) later),
              )
        ]
    stream-Streams (suc len) (not_yet e st) =
        let (s', later) = stream-Streams (suc len) st in (s', waiting (ground (arith, e)) later)

  module _ (file : t.File) (meta : t.Metadata) where
    -- Where `split_to` returns the first bytes, and the file reads in blocks of which none is longer
    -- than the one before, nor the first than the length of the file, the stream gives exactly these
    -- blocks and ends.
    pub new_stream-Streams :
        (blocks : List (List ℕ))
        → Reads t (optimal_buf_size t meta) blocks file t.new_buf
        → Shrinking (t.file_len meta) blocks
        → (s' : FileStream t) × Streams (poll_stream t) s' blocks (new_stream t file meta)
    unfolding new_stream
    new_stream-Streams blocks st h =
        let (s', streams) = stream-Streams (optimal_buf_size t meta) (t.file_len meta) st in
        (s', rw (sym (delivered-Shrinking (t.file_len meta) blocks h)) streams)

    -- Where `split_to` returns the first bytes, and the file reads in two blocks of which the second
    -- is the longer one, the stream gives of the second only as many bytes as the first has, and
    -- ends: the content is cut short.
    pub new_stream_cuts :
        (first second : List ℕ)
        → Reads t (optimal_buf_size t meta) (first ∷ second ∷ []) file t.new_buf
        → t.file_len meta ≡ length first + length second
        → 0 < length first
        → length first < length second
        → (s' : FileStream t) × Streams
            (poll_stream t)
            s'
            (first ∷ take (length first) second ∷ [])
            (new_stream t file meta)
    unfolding new_stream
    new_stream_cuts first second st e p h =
        let (s', streams) = stream-Streams (optimal_buf_size t meta) (t.file_len meta) st in
        let cut : delivered (t.file_len meta) (first ∷ second ∷ [])
            ≡ first ∷ take (length first) second ∷ [] =
          ground (arith, e, p, h) in
        (s', rw (sym cut) streams)
