-- ===== src/Files.antt =====
-- src/output/fs.rs: opening a file, and streaming its content. The file system and the buffers of
-- `tokio` and `bytes` are parameters.
pub mod Opening
pub mod Streaming
pub mod Serving
pub mod Directory
use finch_router.Prelude.{
  ℕ, List, Option, none, some, Outcome, ok, err, panicked, ltb, ◌==◌, if◌then◌else◌, length,
}
use finch_router.Error.{Error}
use finch_router.Action.{Async, ready, not_ready}

-- What the code calls of `tokio::fs` and of `bytes`. A poll of a future or a read takes its state
-- and returns the state that it leaves.
pub record Tokio : Type 1 where
  pub FilePath : Type 0
  pub File : Type 0
  pub Metadata : Type 0
  pub OpenFuture : Type 0
  pub MetadataFuture : Type 0
  pub open_file : FilePath → OpenFuture
  pub poll_open : OpenFuture → Outcome Error (Async File) × OpenFuture
  pub metadata : File → MetadataFuture
  pub poll_metadata : MetadataFuture → Outcome Error (Async (File × Metadata)) × MetadataFuture
  -- `Metadata::len` and `get_block_size`
  pub file_len : Metadata → ℕ
  pub block_size : Metadata → ℕ
  -- `BytesMut`: a new one, `remaining_mut`, `reserve`, and `take().freeze()` with what is left
  pub BytesMut : Type 0
  pub new_buf : BytesMut
  pub remaining_mut : BytesMut → ℕ
  pub reserve : ℕ → BytesMut → BytesMut
  pub take_frozen : BytesMut → List ℕ × BytesMut
  -- `Bytes::split_to`: the bytes that it returns
  pub split_to : ℕ → List ℕ → Outcome Error (List ℕ)
  -- `AsyncRead::read_buf`, with the file and the buffer that it leaves
  pub read_buf : File → BytesMut → Outcome Error (Async ℕ) × (File × BytesMut)

module _ (t : Tokio) where
  pub record NamedFile : Type 0 where
    pub file : t.File
    pub meta : t.Metadata
    pub path : t.FilePath

  -- `State` of `OpenNamedFile`
  pub data OpenState : Type 0 where
    opening : t.OpenFuture → OpenState
    fetching : t.MetadataFuture → OpenState
    done : OpenState

  pub record OpenNamedFile : Type 0 where
    pub state : OpenState
    pub path : Option t.FilePath

  -- `NamedFile::open`
  unfoldable pub open_named : t.FilePath → OpenNamedFile
  open_named path = record { state = opening (t.open_file path); path = some path }

  -- the rounds of the loop that poll the metadata
  unfoldable pub poll_fetching :
      t.MetadataFuture → Option t.FilePath → Outcome Error (Async NamedFile) × OpenNamedFile
  poll_fetching f path =
      let (r, f') = t.poll_metadata f in
      elim r [
        | ok (ready (file, meta)) ↦ elim path [
          | none ↦ (panicked, record { state = done; path = none })
          | some p ↦ (
            ok (ready (record { file = file; meta = meta; path = p })),
            record { state = done; path = none },
          )
        ]
        | ok not_ready ↦ (ok not_ready, record { state = fetching f'; path = path })
        | err e ↦ (err e, record { state = fetching f'; path = path })
        | panicked ↦ (panicked, record { state = fetching f'; path = path })
      ]

  -- `OpenNamedFile::poll`: the round that opens is followed by one that fetches the metadata, which
  -- returns
  unfoldable pub poll_named : OpenNamedFile → Outcome Error (Async NamedFile) × OpenNamedFile
  unfolding poll_fetching
  poll_named s = elim s.state [
    | opening f ↦
        let (r, f') = t.poll_open f in
        elim r [
          | ok (ready file) ↦ poll_fetching (t.metadata file) s.path
          | ok not_ready ↦ (ok not_ready, record { state = opening f'; path = s.path })
          | err e ↦ (err e, record { state = opening f'; path = s.path })
          | panicked ↦ (panicked, record { state = opening f'; path = s.path })
        ]
    | fetching f ↦ poll_fetching f s.path
    | done ↦ (panicked, s)
  ]

  pub record FileStream : Type 0 where
    pub file : t.File
    pub buf : t.BytesMut
    pub buf_size : ℕ
    pub len : ℕ

  -- `optimal_buf_size`
  unfoldable pub optimal_buf_size : t.Metadata → ℕ
  optimal_buf_size meta =
      let blk_size = t.block_size meta in
      if ltb (t.file_len meta) blk_size then t.file_len meta else blk_size

  -- `FileStream::new`
  unfoldable pub new_stream : t.File → t.Metadata → FileStream
  unfolding optimal_buf_size
  new_stream file meta = record {
    file = file;
    buf = t.new_buf;
    buf_size = optimal_buf_size meta;
    len = t.file_len meta;
  }

  -- the buffer that a read is given
  abbrev pub reserved : ℕ → t.BytesMut → t.BytesMut
  reserved buf_size buf = if ltb (t.remaining_mut buf) buf_size then t.reserve buf_size buf else buf

  -- the chunk of a read of `n` bytes, and the remaining length that is left
  unfoldable pub cut_chunk : ℕ → List ℕ → ℕ → Outcome Error (List ℕ) × ℕ
  cut_chunk n chunk len = if ltb len n then (t.split_to len chunk, 0) else (ok chunk, n)

  -- `FileStream::poll_buf`
  unfoldable pub poll_stream : FileStream → Outcome Error (Async (Option (List ℕ))) × FileStream
  unfolding cut_chunk
  poll_stream s =
      let (r, read) = t.read_buf s.file (reserved s.buf_size s.buf) in
      let s' : FileStream = record s { file = read.0; buf = read.1 } in
      let (chunk, buf') = t.take_frozen read.1 in
      if s.len == 0 then (ok (ready none), s) else elim r [
        | ok not_ready ↦ (ok not_ready, s')
        | err e ↦ (err e, s')
        | panicked ↦ (panicked, s')
        | ok (ready n) ↦
            let (cut, len') = cut_chunk n chunk s.len in
            let sent : FileStream = record s' { buf = buf'; len = len' } in
            if n == 0 then (ok (ready none), s') else elim cut [
              | ok bytes ↦ (ok (ready (some bytes)), sent)
              | err e ↦ (err e, sent)
              | panicked ↦ (panicked, sent)
            ]
      ]
