-- ===== src/Tests/Files.antt =====
-- Opening a file that is not ready at times, and streaming files that are read in blocks.
use finch_router.Prelude.{
  ℕ, zero, suc, refl, List, [], ◌∷◌, ok, length, take, inl, arith, none, ◌≡◌, ◌+◌, ◌%◌, ◌==◌,
}
use finch_router.Action.{ready, not_ready}
use finch_router.Body.Receiving.{Streams}
use finch_router.Ext.Future.Settling.{resolved, pending}
use finch_router.Files.{Tokio, NamedFile, FileStream, poll_stream, new_stream}
use finch_router.Files.Opening.{closed}
use finch_router.Common.{one}
use finch_router.Action.{incomplete}
use finch_router.Action.Runs.{Settles}
use finch_router.Context.{ActionContext}
use finch_router.Files.Serving.{Paths, init, preflight_dir, dir_action, dir}
use finch_router.Files.Directory.{opening_dir, preflight_dir-Settles}
use finch_router.Tests.{plain, request_context, get_a_bc}
use finch_router.Files.Streaming.{no_more, block, new_stream-Streams, new_stream_cuts}

-- A file is the blocks that are left; a path is the rounds that opening takes; metadata are the
-- length and the size of a block.
abbrev blocks_first : List (List ℕ) → List ℕ
blocks_first [] = []
blocks_first (b ∷ _) = b

abbrev blocks_rest : List (List ℕ) → List (List ℕ)
blocks_rest [] = []
blocks_rest (_ ∷ bs) = bs

abbrev disk : Tokio
disk = record {
  FilePath = ℕ;
  File = List (List ℕ);
  Metadata = ℕ × ℕ;
  OpenFuture = ℕ;
  MetadataFuture = List (List ℕ);
  open_file = λ n. n;
  poll_open = λ n. elim n [ zero ↦ (ok (ready ((1 ∷ []) ∷ [])), 0) | suc n' ↦ (ok not_ready, n') ];
  metadata = λ file. file;
  poll_metadata = λ file. (ok (ready (file, (1, 4))), file);
  file_len = λ meta. meta.0;
  block_size = λ meta. meta.1;
  BytesMut = List ℕ;
  new_buf = [];
  remaining_mut = λ _. 0;
  reserve = λ _ buf. buf;
  take_frozen = λ buf. (buf, []);
  split_to = λ n bytes. ok (take n bytes);
  read_buf =
      λ file buf. (ok (ready (length (blocks_first file))), (blocks_rest file, blocks_first file));
}

new_stream-Streams_example :
    (s' : FileStream disk) × Streams
      (poll_stream disk)
      s'
      ((1 ∷ 2 ∷ []) ∷ (3 ∷ []) ∷ [])
      (new_stream disk ((1 ∷ 2 ∷ []) ∷ (3 ∷ []) ∷ []) (3, 2))
new_stream-Streams_example =
    new_stream-Streams disk (λ n bytes h. refl) ((1 ∷ 2 ∷ []) ∷ (3 ∷ []) ∷ []) (3, 2)
      ((1 ∷ 2 ∷ []) ∷ (3 ∷ []) ∷ [])
      (block refl (omega arith) refl (block refl (omega arith) refl (no_more refl)))
      (omega arith, omega arith, (omega arith, omega arith, tt))

-- the last byte is lost
new_stream_cuts_example :
    (s' : FileStream disk) × Streams
      (poll_stream disk)
      s'
      ((1 ∷ []) ∷ (2 ∷ []) ∷ [])
      (new_stream disk ((1 ∷ []) ∷ (2 ∷ 3 ∷ []) ∷ []) (3, 2))
new_stream_cuts_example =
    new_stream_cuts disk (λ n bytes h. refl) ((1 ∷ []) ∷ (2 ∷ 3 ∷ []) ∷ []) (3, 2) (1 ∷ [])
      (2 ∷ 3 ∷ []) (block refl (omega arith) refl (block refl (omega arith) refl (no_more refl)))
      refl (omega arith) (omega arith)

-- paths as numbers: a joined path is a sum, and an even one is a directory
abbrev numbered : Paths disk
numbered = record {
  from_bytes = λ bytes. length bytes;
  join = λ root path. root + path;
  is_dir = λ path. path % 2 == 0;
  index_html = 1;
  utf8_error = λ _. "not UTF-8";
}

abbrev any_context : ActionContext plain (List ℕ)
any_context = record { context = request_context; body = none }

abbrev opened : ℕ → NamedFile disk
opened path = record { file = (1 ∷ []) ∷ []; meta = (1, 4); path = path }

-- the directory 0 serves the rest `a/bc` of four bytes by its index
preflight_dir-Settles_example :
    let (checked, s, px') =
      preflight_dir disk numbered (record { root = 0; state = init }) get_a_bc in
    (checked ≡ ok incomplete)
    × (px'.cursor.pos ≡ 5)
    × Settles
        (dir_action disk numbered)
        (ok (one (opened 5)))
        (opening_dir disk 0 (closed disk))
        any_context
        s
        any_context
unfolding dir
preflight_dir-Settles_example =
    preflight_dir-Settles disk numbered {f' = 0} 0 5 get_a_bc (97 ∷ 47 ∷ 98 ∷ 99 ∷ [])
      (97 ∷ 47 ∷ 98 ∷ 99 ∷ []) any_context refl refl (inl (refl, refl))
      (pending refl (pending refl (pending refl (pending refl (pending refl (resolved refl))))))
      (resolved refl)
