-- ===== src/Files/Directory.antt =====
-- src/endpoints/fs.rs: what serving files comes to.
use finch_router.Prelude.{
  true, false, ◌⊎◌, inl, inr, ◌≡◌, refl, List, ℕ, Option, some, Outcome, ok, arith, suffix?, length,
}
use finch_router.Crates.{Crates}
use finch_router.Error.{Error}
use finch_router.Context.{PreflightContext, ActionContext, path_of}
use finch_router.Cursor.{remaining_path}
use finch_router.Cursor.Walk.{at_end}
use finch_router.Action.{incomplete}
use finch_router.Action.Runs.{Settles, now, later}
use finch_router.Ext.Future.Settling.{Resolves, resolved, pending, wrap}
use finch_router.Files.{Tokio, NamedFile, OpenNamedFile, poll_named, open_named}
use finch_router.Common.{one}
use finch_router.Files.Opening.{closed, open_named-Resolves}
use finch_router.Files.Serving.{
  Paths, FileAction, DirAction, opening, file, file_action, dir_action, dir, preflight_dir, target,
}
use finch_router.Syntax.Matching.{count_lem}

module _ (t : Tokio) where
  -- the action of one file, with the future that opens it
  abbrev pub opening_file : t.FilePath → Option (OpenNamedFile t) → FileAction t
  opening_file path f = record { path = path; opening = f }

  abbrev pub opening_dir : t.FilePath → OpenNamedFile t → DirAction t
  opening_dir root f = record { root = root; state = opening f }

module _ (t : Tokio) (p : Paths t) where
  -- The path that a text is served from: the root joined with it, or the index of that, where it is
  -- a directory.
  abbrev pub IsServed : t.FilePath → List ℕ → t.FilePath → Type 0
  IsServed root decoded path =
      let joined = p.join root (p.from_bytes decoded) in
      ((p.is_dir joined ≡ true) × (path ≡ p.join joined p.index_html))
      ⊎ ((p.is_dir joined ≡ false) × (path ≡ joined))

  target-IsServed :
      (root : t.FilePath) (decoded : List ℕ) {path : t.FilePath}
      → IsServed root decoded path
      → target t p root decoded ≡ path
  unfolding target
  target-IsServed root decoded (inl (e, h)) = ground (arith, e, h)
  target-IsServed root decoded (inr (e, h)) = ground (arith, e, h)

module _ {k : Crates} {Bd : Type 0} (t : Tokio) where
  opening_file-Settles :
      {r : Outcome Error (NamedFile t)} {f' f : OpenNamedFile t} (path : t.FilePath)
      (cx : ActionContext k Bd)
      → Resolves (poll_named t) r f' f
      → Settles
          (file_action t)
          (wrap r)
          (opening_file t path (some f'))
          cx
          (opening_file t path (some f))
          cx
  unfolding file_action
  opening_file-Settles path cx (resolved e) = now (ground (arith, e))
  opening_file-Settles path cx (pending e st) =
      later (ground (arith, e)) (opening_file-Settles path cx st)

  -- Where opening the path resolves, polling the endpoint of that file settles with the same file or
  -- error.
  file-Settles :
      {r : Outcome Error (NamedFile t)} {f' : OpenNamedFile t} (path : t.FilePath)
      (cx : ActionContext k Bd)
      → Resolves (poll_named t) r f' (open_named t path)
      → Settles
          (file {k = k} {Bd = Bd} t path).behaviour
          (wrap r)
          (opening_file t path (some f'))
          cx
          (file {k = k} {Bd = Bd} t path).action
          cx
  unfolding file file_action
  file-Settles path cx (resolved e) = now (ground (arith, e))
  file-Settles path cx (pending e st) = later (ground (arith, e)) (opening_file-Settles path cx st)

  module _ (p : Paths t) where
    dir-Settles :
        {r : Outcome Error (NamedFile t)} {f' f : OpenNamedFile t} (root : t.FilePath)
        (cx : ActionContext k Bd)
        → Resolves (poll_named t) r f' f
        → Settles (dir_action t p) (wrap r) (opening_dir t root f') cx (opening_dir t root f) cx
    unfolding dir_action
    dir-Settles root cx (resolved e) = now (ground (arith, e))
    dir-Settles root cx (pending e st) = later (ground (arith, e)) (dir-Settles root cx st)

    -- From a position inside the path, whose rest decodes to a text, the check of a directory is
    -- incomplete and leaves the cursor at the end. The path that is opened is the root joined with the
    -- text, whatever the text is, or `index.html` behind that, where this is a directory. Where opening
    -- it resolves to a file, and the metadata of this to a file and metadata, polling settles with
    -- these and the path, however often either is not ready, and keeps its context.
    pub preflight_dir-Settles :
        {file file' : t.File} {meta : t.Metadata} {m' : t.MetadataFuture} {f' : t.OpenFuture}
        (root path : t.FilePath) (px : PreflightContext k) (rest decoded : List ℕ)
        (cx : ActionContext k Bd)
        → suffix? px.cursor.pos (path_of px) ≡ some rest
        → k.percent_decode rest ≡ some decoded
        → IsServed t p root decoded path
        → Resolves t.poll_open (ok file) f' (t.open_file path)
        → Resolves t.poll_metadata (ok (file', meta)) m' (t.metadata file)
        → let (checked, s, px') = preflight_dir t p (dir t p {k = k} {Bd = Bd} root).action px in
          (checked ≡ ok incomplete)
          × (px'.cursor.pos ≡ length (path_of px))
          × Settles
              (dir_action t p)
              (ok (one (record { file = file'; meta = meta; path = path })))
              (opening_dir t root (closed t))
              cx
              s
              cx
    unfolding preflight_dir remaining_path dir
    preflight_dir-Settles root path px rest decoded cx at decodes served opens reads =
        let left : preflight_dir t p (dir t p {k = k} {Bd = Bd} root).action px ≡ (
          ok incomplete,
          opening_dir t root (open_named t path),
          record px { cursor = at_end (path_of px) px.cursor rest },
        ) =
          ground
            (arith, at, decodes, count_lem px rest at, target-IsServed t p root decoded served) in
        rw left (refl, refl, dir-Settles root cx (open_named-Resolves t path opens reads))
