-- ===== src/Drive/Counted.antt =====
-- No file of a run goes uncounted.
use mathlib.Core.Path.{subst}
use archiviste_nocilia.Prelude.{Text, ◌≡◌, Option, none, some, List, [], ◌∷◌, arith}
use archiviste_nocilia.Drive.Sync.{
  StateEntry, SyncContext, Run, Outcome, finished, raised, aborted, process_png, count_one,
  entry_at,
}
use archiviste_nocilia.Drive.Archive.{archive_entry}
use archiviste_nocilia.Drive.Paths.{
  Tab, Tree, DriveFile, build_tab_source_id, tab_path, resolve_tab_collisions,
}
use archiviste_nocilia.Drive.Tabs.{
  process_gslide, drive_path_of, process_tab, process_tabs, process_listed, process_gsheet,
}
use archiviste_nocilia.Drive.Sidecars.{Shelf}
use archiviste_nocilia.Drive.Gdocs.{process_gdoc}
use archiviste_nocilia.Drive.Tallied.{process_gdoc-Covers}
use archiviste_nocilia.Drive.Turns.{
  Turn, archives, slides, image, sheet, document, catch_error, process_turn, process_turns,
}
use archiviste_nocilia.Drive.Covered.{
  Fits, Covers, then_do-Covers, process_png-Covers, process_gslide-Covers, process_tab-Covers,
  archive_at-Covers,
}

catch_error-Covers : (o : Outcome) → Covers o → Covers (catch_error o)
catch_error-Covers (finished ctx) h = h
catch_error-Covers (raised ctx) h = omega arith
catch_error-Covers (aborted ctx) h = h

module _ (run : Run) (tree : Tree) (state : List (Text × StateEntry))
    (fetch : Text → Tab → Option Text) where
  process_tabs-Covers :
      (file : DriveFile) (tabs : List (Tab × Text)) (ctx : SyncContext)
      → Fits ctx.counts
      → Covers (process_tabs run tree state fetch file tabs ctx)
  unfolding process_tabs
  process_tabs-Covers file [] ctx h = h
  process_tabs-Covers file (t ∷ tabs) ctx h =
      let id = build_tab_source_id file.id t.0.sheet_id in
      let folder = drive_path_of file.components file.name in
      then_do-Covers
        (process_tab run id (tab_path tree file t) t.0.title file.name folder (entry_at id state)
          (fetch file.id t.0) ctx)
        (process_tabs run tree state fetch file tabs)
        (process_tab-Covers run id (tab_path tree file t) t.0.title file.name folder
          (entry_at id state) (fetch file.id t.0) ctx h)
        (process_tabs-Covers file tabs)

  process_listed-Covers :
      (file : DriveFile) (ctx : SyncContext) (tabs : Option (List Tab))
      → Fits ctx.counts
      → Covers (process_listed run tree state fetch file ctx tabs)
  process_listed-Covers file ctx none h = omega arith
  process_listed-Covers file ctx (some tabs) h =
      process_tabs-Covers file (resolve_tab_collisions tree.unicode tabs) ctx h

module _ (run : Run) (tree : Tree) (state : List (Text × StateEntry))
    (fetch : Text → Tab → Option Text) (shelf : Shelf) (nfkc : Text → Text) where
  pub process_turn-Covers :
      (t : Turn) (ctx : SyncContext)
      → Fits ctx.counts
      → Covers (process_turn run tree state fetch shelf nfkc t ctx)
  unfolding process_turn archive_entry process_gsheet
  process_turn-Covers (archives key entry) ctx h =
      archive_at-Covers run key entry ctx entry.archived_at h
  process_turn-Covers (slides id name components path body) ctx h =
      catch_error-Covers
        (process_gslide run id name components path (entry_at id state) body (count_one run ctx))
        (process_gslide-Covers run id name components path (entry_at id state) body
          (count_one run ctx) (omega arith))
  process_turn-Covers (image id path drive_md5 download) ctx h =
      catch_error-Covers
        (process_png run id path drive_md5 download (entry_at id state) (count_one run ctx))
        (process_png-Covers run id path drive_md5 download (entry_at id state) (count_one run ctx)
          (omega arith))
  process_turn-Covers (sheet file) ctx h =
      process_listed-Covers run tree state fetch file ctx (tree.tabs file.id) h
  process_turn-Covers (document id name components path doc) ctx h =
      catch_error-Covers
        (process_gdoc run shelf nfkc id name components path (entry_at id state) doc
          (count_one run ctx))
        (process_gdoc-Covers run shelf nfkc id name components path (entry_at id state) doc
          (count_one run ctx) (omega arith))

  process_turns-Covers :
      (ts : List Turn) (ctx : SyncContext)
      → Fits ctx.counts
      → Covers (process_turns run tree state fetch shelf nfkc ts ctx)
  unfolding process_turns
  process_turns-Covers [] ctx h = h
  process_turns-Covers (t ∷ ts) ctx h =
      then_do-Covers (process_turn run tree state fetch shelf nfkc t ctx)
        (process_turns run tree state fetch shelf nfkc ts) (process_turn-Covers t ctx h)
        (process_turns-Covers ts)

-- However the calls of the disk and of Drive end, a run that returns from its turns has a status for every file that
-- its total has, if that was so where it began: the total is at most the created, updated, renamed, archived, unchanged and
-- failed files together.
pub process_turns-counted :
    (run : Run) (tree : Tree) (state : List (Text × StateEntry)) (fetch : Text → Tab → Option Text)
    (shelf : Shelf) (nfkc : Text → Text) (ts : List Turn) (ctx ctx' : SyncContext)
    → Fits ctx.counts
    → process_turns run tree state fetch shelf nfkc ts ctx ≡ finished ctx'
    → Fits ctx'.counts
process_turns-counted run tree state fetch shelf nfkc ts ctx ctx' h e =
    subst Covers e (process_turns-Covers run tree state fetch shelf nfkc ts ctx h)
