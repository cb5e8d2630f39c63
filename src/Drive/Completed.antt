-- ===== src/Drive/Completed.antt =====
-- A run that completes has counted all that it met, and saved what it holds.
use archiviste_nocilia.Prelude.{
  ◌≢◌, refl, ℕ, Text, Bool, not, Option, none, some, List, [], ◌∷◌, ◌++◌, either_way, map, arith,
}
use archiviste_nocilia.Prelude.Integers.{read_int}
use archiviste_nocilia.Drive.Sync.{
  StateEntry, SyncContext, Run, Disk, Outcome, finished, raised, aborted,
}
use archiviste_nocilia.Drive.Archive.{archive_entry}
use archiviste_nocilia.Drive.Paths.{
  Mime, DriveFile, Tree, tab_paths, extension, is_sheet, is_taken, resolve_local_path,
}
use archiviste_nocilia.Drive.Slugs.{slugify}
use archiviste_nocilia.Drive.Sidecars.{Shelf}
use archiviste_nocilia.Drive.Turns.{Turn}
use archiviste_nocilia.Drive.Covered.{Fits, IsLeft, Covers, then_do-Covers, archive_at-Covers}
use archiviste_nocilia.Drive.Counted.{process_turn-Covers}
use archiviste_nocilia.Drive.Listing.{Listed, list_folder_recursive}
use archiviste_nocilia.Drive.Whole.{
  tab_text, Remote, StateFile, load_state, save_state, Gids, gids_of, refused, escapes,
  handle_archived, handle_archived_tab, unless_listed, handle_tab_key, handle_key, split_hash,
  turn_of, process_at, process_files, sync_files, save_at_end, sync_listed, sync_loaded, run_sync,
  RunEnd, completed, halted, failed, out_of_fuel, sheet_ids, has_gid, start_on, sort_by,
}

module _ (run : Run) (tree : Tree) (remote : Remote) (shelf : Shelf) (nfkc : Text → Text) where
  archive_entry-Covers :
      (key : Text) (entry : StateEntry) (ctx : SyncContext)
      → Fits ctx.counts
      → Covers (archive_entry run key entry ctx)
  unfolding archive_entry
  archive_entry-Covers key entry ctx h = archive_at-Covers run key entry ctx entry.archived_at h

  module _ (files : List DriveFile) where
    unless_listed-Covers :
        (key : Text) (gid : Bool × ℕ) (entry : StateEntry) (ctx : SyncContext) (gids : Gids)
        → Fits ctx.counts
        → Covers (unless_listed run tree remote shelf nfkc files key gid entry ctx gids)
    unfolding archive_entry
    unless_listed-Covers key gid entry ctx (gids_of gids) h =
        either_way Covers (not (has_gid gid gids)) _ _ (archive_entry-Covers key entry ctx h) h
    unless_listed-Covers key gid entry ctx refused h = h
    unless_listed-Covers key gid entry ctx escapes h = omega arith

    handle_tab_key-Covers :
        (key : Text) (entry : StateEntry) (ctx : SyncContext) (file_id : Text)
        (gid : Option (Bool × ℕ))
        → Fits ctx.counts
        → Covers (handle_tab_key run tree remote shelf nfkc files key entry ctx file_id gid)
    unfolding handle_archived_tab
    handle_tab_key-Covers key entry ctx file_id none h = omega arith
    handle_tab_key-Covers key entry ctx file_id (some gid) h =
        either_way Covers (not (is_taken file_id (map (λ f. f.id) files))) _ _
          (archive_entry-Covers key entry ctx h)
          (either_way Covers (not (is_taken file_id (sheet_ids tree files))) _ _ h
            (unless_listed-Covers key gid entry ctx (remote.gids file_id) h))

    handle_key-Covers :
        (key : Text) (entry : StateEntry) (ctx : SyncContext) (parts : Option (Text × Text))
        → Fits ctx.counts
        → Covers (handle_key run tree remote shelf nfkc files key entry ctx parts)
    unfolding read_int
    handle_key-Covers key entry ctx (some (file_id, gid)) h =
        handle_tab_key-Covers key entry ctx file_id (read_int gid) h
    handle_key-Covers key entry ctx none h =
        either_way Covers (is_taken key (map (λ f. f.id) files)) _ _ h
          (archive_entry-Covers key entry ctx h)

    handle_archived-Covers :
        (state : List (Text × StateEntry)) (ctx : SyncContext)
        → Fits ctx.counts
        → Covers (handle_archived run tree remote shelf nfkc files state ctx)
    unfolding handle_archived
    handle_archived-Covers [] ctx h = h
    handle_archived-Covers (e ∷ state) ctx h =
        then_do-Covers _ _ (handle_key-Covers e.0 e.1 ctx (split_hash e.0) h)
          (handle_archived-Covers state)

  module _ (state : List (Text × StateEntry)) where
    process_at-Covers :
        (file : DriveFile) (mime : Mime) (ctx : SyncContext) (next : Text → SyncContext → Outcome)
        (path : Option Text)
        → Fits ctx.counts
        → ((path : Text) (c : SyncContext) → Fits c.counts → Covers (next path c))
        → Covers (process_at run tree remote shelf nfkc state file mime ctx next path)
    process_at-Covers file mime ctx next none h k = omega arith
    process_at-Covers file mime ctx next (some path) h k =
        then_do-Covers _ (next path)
          (process_turn-Covers run tree state (tab_text remote nfkc) shelf nfkc
            (turn_of run tree remote shelf nfkc file path mime) ctx h)
          (k path)

    process_files-Covers :
        (files : List DriveFile) (taken : List Text) (ctx : SyncContext)
        → Fits ctx.counts
        → Covers (process_files run tree remote shelf nfkc state files taken ctx)
    unfolding process_files
    process_files-Covers [] taken ctx h = h
    process_files-Covers (file ∷ files) taken ctx h =
        either_way Covers (is_sheet tree file.mime) _ _
          (then_do-Covers _ _
            (process_turn-Covers run tree state (tab_text remote nfkc) shelf nfkc (Turn.sheet file)
              ctx h)
            (process_files-Covers files (tab_paths tree file (tree.tabs file.id) ++ taken)))
          (process_at-Covers file file.mime ctx
            (λ path. process_files run tree remote shelf nfkc state files (path ∷ taken))
            (resolve_local_path tree file.components (slugify tree.unicode file.name file.id)
              (extension tree file.mime) taken file.id)
            h (λ path. process_files-Covers files (path ∷ taken)))

-- How a run that completes has counted.
abbrev pub IsCounted : RunEnd → Type 0
IsCounted (completed ctx file) = Fits ctx.counts
IsCounted (halted ctx) = IsLeft ctx.counts
IsCounted (failed ctx) = IsLeft ctx.counts
IsCounted out_of_fuel = ⊥

module _ (run : Run) (tree : Tree) (remote : Remote) (shelf : Shelf) (nfkc : Text → Text)
    (saves : Bool) (disk : Disk) (old : StateFile) where
  save_at_end-IsCounted :
      (o : Outcome) → Covers o → IsCounted (save_at_end run tree remote shelf nfkc saves old o)
  unfolding save_state
  save_at_end-IsCounted (finished ctx) h =
      either_way IsCounted run.dry_run _ _ h (either_way IsCounted saves _ _ h (omega arith))
  save_at_end-IsCounted (raised ctx) h = h
  save_at_end-IsCounted (aborted ctx) h = h

  sync_listed-IsCounted :
      (state : List (Text × StateEntry)) (l : Listed)
      → l ≢ Listed.out_of_fuel
      → IsCounted (sync_listed run tree remote shelf nfkc saves old state disk l)
  unfolding sync_files sort_by
  sync_listed-IsCounted state (Listed.listed files) h =
      let sorted = sort_by (λ f. f.id) files in
      save_at_end-IsCounted (sync_files run tree remote shelf nfkc state sorted (start_on disk)) (
        then_do-Covers _ _
          (handle_archived-Covers run tree remote shelf nfkc sorted state (start_on disk)
            (omega arith))
          (process_files-Covers run tree remote shelf nfkc state sorted []))
  sync_listed-IsCounted state Listed.raised h = omega arith
  sync_listed-IsCounted state Listed.out_of_fuel h = absurd (h refl)

  sync_loaded-IsCounted :
      (fuel : ℕ) (root : Text) (state : Option (List (Text × StateEntry)))
      → list_folder_recursive remote.drive fuel root ≢ Listed.out_of_fuel
      → IsCounted (sync_loaded run tree remote shelf nfkc saves fuel root old disk state)
  sync_loaded-IsCounted fuel root none h = omega arith
  sync_loaded-IsCounted fuel root (some state) h =
      sync_listed-IsCounted state (list_folder_recursive remote.drive fuel root) h

-- If the listing has enough turns, the run of the whole command ends, however the calls of the disk and of Drive do. Where it completes, it has a status for
-- each file and entry that its total has: the total is at most the created, updated, renamed, archived, unchanged and failed
-- ones together, and at least these without the failed ones. A run that an error leaves, whichever it is, lacks at most the one at work.
pub run_sync-IsCounted :
    (run : Run) (tree : Tree) (remote : Remote) (shelf : Shelf) (nfkc : Text → Text) (saves : Bool)
    (fuel : ℕ) (root : Text) (old : StateFile) (disk : Disk)
    → list_folder_recursive remote.drive fuel root ≢ Listed.out_of_fuel
    → IsCounted (run_sync run tree remote shelf nfkc saves fuel root old disk)
unfolding run_sync
run_sync-IsCounted run tree remote shelf nfkc saves fuel root old disk enough =
    sync_loaded-IsCounted run tree remote shelf nfkc saves disk old fuel root (load_state old)
      enough
