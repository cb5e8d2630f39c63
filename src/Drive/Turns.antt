-- ===== src/Drive/Turns.antt =====
-- The turns of one run of `run_sync`: the entries that Drive does not have, then its files.
use archiviste_nocilia.Prelude.{ℕ, Text, Option, List, [], ◌∷◌}
use archiviste_nocilia.Drive.Sync.{
  StateEntry, SyncContext, Run, Outcome, finished, raised, aborted, then_do, count_one, process_png,
  entry_at,
}
use archiviste_nocilia.Drive.Archive.{archive_entry}
use archiviste_nocilia.Drive.Paths.{Tab, Tree, DriveFile}
use archiviste_nocilia.Drive.Docs.{Document}
use archiviste_nocilia.Drive.Sidecars.{Shelf}
use archiviste_nocilia.Drive.Gdocs.{process_gdoc}
use archiviste_nocilia.Drive.Tabs.{count_error, process_gslide, process_gsheet}

-- A turn with what it gets from Drive: the text of a presentation, the bytes of an image, or a
-- document.
pub data Turn : Type 0 where
  archives : Text → StateEntry → Turn
  slides : Text → Text → List Text → Text → Option Text → Turn
  image : Text → Text → Option Text → Option (List ℕ) → Turn
  sheet : DriveFile → Turn
  document : Text → Text → List Text → Text → Option Document → Turn

-- The `except` of `_process_file`
abbrev pub catch_error : Outcome → Outcome
catch_error (finished ctx) = finished ctx
catch_error (raised ctx) = finished (count_error ctx)
catch_error (aborted ctx) = aborted ctx

module _ (run : Run) (tree : Tree) (state : List (Text × StateEntry))
    (fetch : Text → Tab → Option Text) (shelf : Shelf) (nfkc : Text → Text) where
  unfoldable pub process_turn : Turn → SyncContext → Outcome
  unfolding archive_entry process_gslide process_png process_gsheet process_gdoc
  process_turn (archives key entry) ctx = archive_entry run key entry ctx
  process_turn (slides id name components path body) ctx =
      catch_error
        (process_gslide run id name components path (entry_at id state) body (count_one run ctx))
  process_turn (image id path drive_md5 download) ctx =
      catch_error
        (process_png run id path drive_md5 download (entry_at id state) (count_one run ctx))
  process_turn (sheet file) ctx = process_gsheet run tree state fetch file ctx
  process_turn (document id name components path doc) ctx = catch_error (
      process_gdoc run shelf nfkc id name components path (entry_at id state) doc
        (count_one run ctx))

  unfoldable pub process_turns : List Turn → SyncContext → Outcome
  unfolding process_turn
  process_turns [] ctx = finished ctx
  process_turns (t ∷ ts) ctx = then_do (process_turn t ctx) (process_turns ts)
