-- ===== src/Files/Opening.antt =====
-- src/output/fs.rs: what opening a named file comes to.
use finch_router.Prelude.{none, some, ok, arith}
use finch_router.Ext.Future.Settling.{Resolves, resolved, pending}
use finch_router.Files.{Tokio, OpenNamedFile, opening, fetching, done, open_named, poll_named}

module _ (t : Tokio) where
  -- the future once it has given a file
  abbrev pub closed : OpenNamedFile t
  closed = record { state = done; path = none }

  fetched-Resolves :
      {file : t.File} {meta : t.Metadata} {m' m : t.MetadataFuture} (path : t.FilePath)
      → Resolves t.poll_metadata (ok (file, meta)) m' m
      → Resolves
          (poll_named t)
          (ok (record { file = file; meta = meta; path = path }))
          closed
          (record { state = fetching m; path = some path })
  unfolding poll_named
  fetched-Resolves path (resolved e) = resolved (ground (arith, e))
  fetched-Resolves path (pending e st) = pending (ground (arith, e)) (fetched-Resolves path st)

  opened-Resolves :
      {file file' : t.File} {meta : t.Metadata} {m' : t.MetadataFuture} {f' f : t.OpenFuture}
      (path : t.FilePath)
      → Resolves t.poll_open (ok file) f' f
      → Resolves t.poll_metadata (ok (file', meta)) m' (t.metadata file)
      → Resolves
          (poll_named t)
          (ok (record { file = file'; meta = meta; path = path }))
          closed
          (record { state = opening f; path = some path })
  unfolding poll_named
  opened-Resolves path (resolved e) (resolved g) = resolved (ground (arith, e, g))
  opened-Resolves path (resolved e) (pending g st) =
      pending (ground (arith, e, g)) (fetched-Resolves path st)
  opened-Resolves path (pending e st) u = pending (ground (arith, e)) (opened-Resolves path st u)

  -- Where opening a path resolves to a file, and its metadata to a file and metadata, `NamedFile::open`
  -- resolves to these, with the path, however often either is not ready.
  pub open_named-Resolves :
      {file file' : t.File} {meta : t.Metadata} {m' : t.MetadataFuture} {f' : t.OpenFuture}
      (path : t.FilePath)
      → Resolves t.poll_open (ok file) f' (t.open_file path)
      → Resolves t.poll_metadata (ok (file', meta)) m' (t.metadata file)
      → Resolves
          (poll_named t)
          (ok (record { file = file'; meta = meta; path = path }))
          closed
          (open_named t path)
  unfolding open_named
  open_named-Resolves path u v = opened-Resolves path u v
