-- ===== src/Files/Serving.antt =====
-- src/endpoints/fs.rs: the endpoints for one file and for the files of a directory. The paths of the
-- file system, with what `std::path` does on them, are parameters.
use finch_router.Prelude.{
  ℕ, String, List, Bool, Option, none, some, Outcome, ok, err, panicked, if◌then◌else◌,
}
use finch_router.Common.{One, one}
use finch_router.Crates.{Crates}
use finch_router.Error.{Error, bad_request}
use finch_router.Context.{PreflightContext, ActionContext, path_of}
use finch_router.Cursor.{remaining_path}
use finch_router.Action.{
  Async, incomplete, map_async, map_ok, Checked, Polled, EndpointAction, Endpoint,
}
use finch_router.Body.{default_preflight}
use finch_router.Files.{Tokio, NamedFile, OpenNamedFile, open_named, poll_named}
use finch_router.Syntax.{count}

-- What the code calls of `std::path`, and the text of a `Utf8Error`.
pub record Paths (t : Tokio) : Type 0 where
  -- `PathBuf::from` of a text, and `Path::join`
  pub from_bytes : List ℕ → t.FilePath
  pub join : t.FilePath → t.FilePath → t.FilePath
  -- `Path::is_dir`
  pub is_dir : t.FilePath → Bool
  pub index_html : t.FilePath
  pub utf8_error : List ℕ → String

-- `FileAction`
pub record FileAction (t : Tokio) : Type 0 where
  pub path : t.FilePath
  pub opening : Option (OpenNamedFile t)

-- `dir::State`
pub data DirState (t : Tokio) : Type 0 where
  init : DirState t
  opening : OpenNamedFile t → DirState t

-- `DirAction`
pub record DirAction (t : Tokio) : Type 0 where
  pub root : t.FilePath
  pub state : DirState t

-- `opening.poll().map(|x| x.map(|x| (x,)))`
unfoldable pub poll_opening :
    (t : Tokio) → OpenNamedFile t → Outcome Error (Async (One (NamedFile t))) × OpenNamedFile t
unfolding poll_named
poll_opening t f = let (r, f') = poll_named t f in (map_ok (map_async one) r, f')

module _ {k : Crates} {Bd : Type 0} (t : Tokio) where
  -- `FileAction::poll_action`; the second round of its loop finds `opening` set
  unfoldable pub poll_file :
      FileAction t → ActionContext k Bd → Polled k Bd (FileAction t) (One (NamedFile t))
  unfolding poll_opening open_named
  poll_file s cx =
      let future : OpenNamedFile t = elim s.opening [ some f ↦ f | none ↦ open_named t s.path ] in
      let (r, f') = poll_opening t future in (r, record s { opening = some f' }, cx)

  unfoldable pub file_action : EndpointAction k Bd (FileAction t) (One (NamedFile t))
  unfolding poll_file default_preflight
  file_action = record { preflight = default_preflight; poll_action = poll_file }

  -- `file`, and `Endpoint for File`
  unfoldable pub file : t.FilePath → Endpoint k Bd (FileAction t) (One (NamedFile t))
  unfolding file_action
  file path = record { action = record { path = path; opening = none }; behaviour = file_action }

  -- `DirAction::poll_action`
  unfoldable pub poll_dir :
      DirAction t → ActionContext k Bd → Polled k Bd (DirAction t) (One (NamedFile t))
  unfolding poll_opening
  poll_dir s cx = elim s.state [
    | init ↦ (panicked, s, cx)
    | opening f ↦ let (r, f') = poll_opening t f in (r, record s { state = opening f' }, cx)
  ]

module _ (t : Tokio) (p : Paths t) where
  -- the path that is opened
  unfoldable pub target : t.FilePath → List ℕ → t.FilePath
  target root decoded =
      let path = p.join root (p.from_bytes decoded) in
      if p.is_dir path then p.join path p.index_html else path

  module _ {k : Crates} where
    -- `DirAction::preflight`
    unfoldable pub preflight_dir :
        DirAction t → PreflightContext k → Checked k (DirAction t) (One (NamedFile t))
    unfolding target open_named
    preflight_dir s cx = elim (remaining_path (path_of cx) cx.cursor) [
      | err e ↦ (err e, s, cx)
      | panicked ↦ (panicked, s, cx)
      | ok rest ↦
          let (counted, cx') = count cx in
          elim counted [
            | err e ↦ (err e, s, cx')
            | panicked ↦ (panicked, s, cx')
            | ok _ ↦ elim (k.percent_decode rest) [
              | none ↦ (err (bad_request (p.utf8_error rest)), s, cx')
              | some decoded ↦ (
                ok incomplete,
                record s { state = opening (open_named t (target s.root decoded)) },
                cx',
              )
            ]
          ]
    ]

  module _ {k : Crates} {Bd : Type 0} where
    unfoldable pub dir_action : EndpointAction k Bd (DirAction t) (One (NamedFile t))
    unfolding preflight_dir poll_dir
    dir_action = record { preflight = preflight_dir; poll_action = poll_dir t }

    -- `dir`, and `Endpoint for Dir`
    unfoldable pub dir : t.FilePath → Endpoint k Bd (DirAction t) (One (NamedFile t))
    unfolding dir_action
    dir root = record { action = record { root = root; state = init }; behaviour = dir_action }
