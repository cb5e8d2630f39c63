-- ===== src/Drive/Untouched.antt =====
-- A dry run of everything leaves the files and the state file.
use archiviste_nocilia.Prelude.{
  ◌≢◌, ℕ, Text, Bool, not, ◌≡◌, refl, Option, none, some, List, [], ◌∷◌, ◌++◌, either_way, map,
}
use archiviste_nocilia.Prelude.Integers.{read_int}
use archiviste_nocilia.Drive.Sync.{
  StateEntry, SyncContext, Run, Disk, Outcome, finished, raised, aborted, count_one, entry_at,
}
use archiviste_nocilia.Drive.Archive.{archive_entry}
use archiviste_nocilia.Drive.Dry.{dry, process_png-IsForetold}
use archiviste_nocilia.Drive.Paths.{
  Mime, DriveFile, Tree, tab_paths, extension, is_sheet, is_taken, resolve_local_path,
}
use archiviste_nocilia.Drive.Slugs.{slugify}
use archiviste_nocilia.Drive.Sidecars.{Shelf}
use archiviste_nocilia.Drive.Turns.{Turn, archives, slides, image, sheet, document, process_turn}
use archiviste_nocilia.Drive.Listing.{Listed, list_folder_recursive}
use archiviste_nocilia.Drive.Whole.{
  tab_text, Remote, StateFile, load_state, Gids, gids_of, refused, escapes, handle_archived,
  handle_archived_tab, unless_listed, handle_tab_key, handle_key, split_hash, turn_of, process_at,
  process_files, sync_files, save_at_end, sync_listed, sync_loaded, run_sync, RunEnd, completed,
  halted, failed, out_of_fuel, sheet_ids, has_gid, start_on, save_state, sort_by,
}
use archiviste_nocilia.Drive.Leaves.{
  Leaves, then_do-Leaves, catch_error-Leaves, IsForetold-Leaves, archive_entry-Leaves,
  process_gslide-Leaves, process_gsheet-Leaves, process_gdoc-Leaves,
}

module _ (run : Run) (tree : Tree) (remote : Remote) (shelf : Shelf) (nfkc : Text → Text)
    (disk : Disk) where
  process_turn-Leaves :
      (state : List (Text × StateEntry)) (t : Turn) (ctx : SyncContext)
      → ctx.disk ≡ disk
      → Leaves disk (process_turn (dry run) tree state (tab_text remote nfkc) shelf nfkc t ctx)
  unfolding process_turn
  process_turn-Leaves state (archives key entry) ctx h =
      archive_entry-Leaves run disk key entry ctx h
  process_turn-Leaves state (slides id name components path body) ctx h =
      catch_error-Leaves disk _ (
        process_gslide-Leaves run disk id name components path (entry_at id state) body
          (count_one run ctx) h)
  process_turn-Leaves state (image id path drive_md5 download) ctx h = catch_error-Leaves disk _ (
      IsForetold-Leaves disk (count_one run ctx) _ _
        (process_png-IsForetold run id path drive_md5 download (entry_at id state)
          (count_one run ctx))
        h)
  process_turn-Leaves state (sheet file) ctx h =
      process_gsheet-Leaves run disk tree state (tab_text remote nfkc) file ctx h
  process_turn-Leaves state (document id name components path doc) ctx h =
      catch_error-Leaves disk _ (
        process_gdoc-Leaves run disk shelf nfkc id name components path (entry_at id state) doc
          (count_one run ctx) h)

  module _ (files : List DriveFile) where
    unless_listed-Leaves :
        (key : Text) (gid : Bool × ℕ) (entry : StateEntry) (ctx : SyncContext) (gids : Gids)
        → ctx.disk ≡ disk
        → Leaves disk (unless_listed (dry run) tree remote shelf nfkc files key gid entry ctx gids)
    unfolding archive_entry
    unless_listed-Leaves key gid entry ctx (gids_of gids) h =
        either_way (Leaves disk) (not (has_gid gid gids)) _ _
          (archive_entry-Leaves run disk key entry ctx h) h
    unless_listed-Leaves key gid entry ctx refused h = h
    unless_listed-Leaves key gid entry ctx escapes h = h

    handle_archived_tab-Leaves :
        (key file_id : Text) (gid : Bool × ℕ) (entry : StateEntry) (ctx : SyncContext)
        → ctx.disk ≡ disk
        → Leaves disk
            (handle_archived_tab (dry run) tree remote shelf nfkc files key file_id gid entry ctx)
    unfolding handle_archived_tab
    handle_archived_tab-Leaves key file_id gid entry ctx h =
        either_way (Leaves disk) (not (is_taken file_id (map (λ f. f.id) files))) _ _
          (archive_entry-Leaves run disk key entry ctx h)
          (either_way (Leaves disk) (not (is_taken file_id (sheet_ids tree files))) _ _ h
            (unless_listed-Leaves key gid entry ctx (remote.gids file_id) h))

    handle_tab_key-Leaves :
        (key : Text) (entry : StateEntry) (ctx : SyncContext) (file_id : Text)
        (gid : Option (Bool × ℕ))
        → ctx.disk ≡ disk
        → Leaves disk
            (handle_tab_key (dry run) tree remote shelf nfkc files key entry ctx file_id gid)
    handle_tab_key-Leaves key entry ctx file_id none h = h
    handle_tab_key-Leaves key entry ctx file_id (some gid) h =
        handle_archived_tab-Leaves key file_id gid entry ctx h

    handle_key-Leaves :
        (key : Text) (entry : StateEntry) (ctx : SyncContext) (parts : Option (Text × Text))
        → ctx.disk ≡ disk
        → Leaves disk (handle_key (dry run) tree remote shelf nfkc files key entry ctx parts)
    unfolding read_int
    handle_key-Leaves key entry ctx (some (file_id, gid)) h =
        handle_tab_key-Leaves key entry ctx file_id (read_int gid) h
    handle_key-Leaves key entry ctx none h =
        either_way (Leaves disk) (is_taken key (map (λ f. f.id) files)) _ _ h
          (archive_entry-Leaves run disk key entry ctx h)

    handle_archived-Leaves :
        (state : List (Text × StateEntry)) (ctx : SyncContext)
        → ctx.disk ≡ disk
        → Leaves disk (handle_archived (dry run) tree remote shelf nfkc files state ctx)
    unfolding handle_archived
    handle_archived-Leaves [] ctx h = h
    handle_archived-Leaves (e ∷ state) ctx h =
        then_do-Leaves disk _ _ (handle_key-Leaves e.0 e.1 ctx (split_hash e.0) h)
          (handle_archived-Leaves state)

  module _ (state : List (Text × StateEntry)) where
    process_at-Leaves :
        (file : DriveFile) (mime : Mime) (ctx : SyncContext) (next : Text → SyncContext → Outcome)
        (path : Option Text)
        → ctx.disk ≡ disk
        → ((path : Text) (c : SyncContext) → c.disk ≡ disk → Leaves disk (next path c))
        → Leaves disk (process_at (dry run) tree remote shelf nfkc state file mime ctx next path)
    process_at-Leaves file mime ctx next none h k = h
    process_at-Leaves file mime ctx next (some path) h k =
        then_do-Leaves disk _ (next path)
          (process_turn-Leaves state (turn_of (dry run) tree remote shelf nfkc file path mime) ctx
            h)
          (k path)

    process_files-Leaves :
        (files : List DriveFile) (taken : List Text) (ctx : SyncContext)
        → ctx.disk ≡ disk
        → Leaves disk (process_files (dry run) tree remote shelf nfkc state files taken ctx)
    unfolding process_files
    process_files-Leaves [] taken ctx h = h
    process_files-Leaves (file ∷ files) taken ctx h =
        either_way (Leaves disk) (is_sheet tree file.mime) _ _
          (then_do-Leaves disk _ _ (process_turn-Leaves state (Turn.sheet file) ctx h)
            (process_files-Leaves files (tab_paths tree file (tree.tabs file.id) ++ taken)))
          (process_at-Leaves file file.mime ctx
            (λ path. process_files (dry run) tree remote shelf nfkc state files (path ∷ taken))
            (resolve_local_path tree file.components (slugify tree.unicode file.name file.id)
              (extension tree file.mime) taken file.id)
            h (λ path. process_files-Leaves files (path ∷ taken)))

-- How a run ends with the files and the state file as they were.
abbrev pub IsUntouched : Disk → StateFile → RunEnd → Type 0
IsUntouched disk old (completed ctx file) = (ctx.disk ≡ disk) × (file ≡ old)
IsUntouched disk old (halted ctx) = ctx.disk ≡ disk
IsUntouched disk old (failed ctx) = ⊥
IsUntouched disk old out_of_fuel = ⊥

module _ (run : Run) (tree : Tree) (remote : Remote) (shelf : Shelf) (nfkc : Text → Text)
    (saves : Bool) (disk : Disk) (old : StateFile) where
  save_at_end-IsUntouched :
      (o : Outcome)
      → Leaves disk o
      → IsUntouched disk old (save_at_end (dry run) tree remote shelf nfkc saves old o)
  unfolding save_state
  save_at_end-IsUntouched (finished ctx) h = (h, refl)
  save_at_end-IsUntouched (raised ctx) h = h
  save_at_end-IsUntouched (aborted ctx) h = h

  sync_listed-IsUntouched :
      (state : List (Text × StateEntry)) (l : Listed)
      → l ≢ Listed.out_of_fuel
      → IsUntouched disk old (sync_listed (dry run) tree remote shelf nfkc saves old state disk l)
  unfolding sync_files sort_by
  sync_listed-IsUntouched state (Listed.listed files) h =
      let sorted = sort_by (λ f. f.id) files in
      save_at_end-IsUntouched
        (sync_files (dry run) tree remote shelf nfkc state sorted (start_on disk))
        (then_do-Leaves disk _ _
          (handle_archived-Leaves run tree remote shelf nfkc disk sorted state (start_on disk) refl)
          (process_files-Leaves run tree remote shelf nfkc disk state sorted []))
  sync_listed-IsUntouched state Listed.raised h = refl
  sync_listed-IsUntouched state Listed.out_of_fuel h = absurd (h refl)

  sync_loaded-IsUntouched :
      (fuel : ℕ) (root : Text) (state : Option (List (Text × StateEntry)))
      → list_folder_recursive remote.drive fuel root ≢ Listed.out_of_fuel
      → IsUntouched disk old
          (sync_loaded (dry run) tree remote shelf nfkc saves fuel root old disk state)
  sync_loaded-IsUntouched fuel root none h = refl
  sync_loaded-IsUntouched fuel root (some state) h =
      sync_listed-IsUntouched state (list_folder_recursive remote.drive fuel root) h

-- If the listing has enough turns, a dry run of the whole command, with documents and their images, presentations, images, spreadsheets and entries
-- to archive, ends and leaves every file and the state file as they were, if it returns and if an error of Drive or of the disk
-- leaves it; an error of YAML does not.
pub run_sync-IsUntouched :
    (run : Run) (tree : Tree) (remote : Remote) (shelf : Shelf) (nfkc : Text → Text) (saves : Bool)
    (fuel : ℕ) (root : Text) (old : StateFile) (disk : Disk)
    → list_folder_recursive remote.drive fuel root ≢ Listed.out_of_fuel
    → IsUntouched disk old (run_sync (dry run) tree remote shelf nfkc saves fuel root old disk)
unfolding run_sync
run_sync-IsUntouched run tree remote shelf nfkc saves fuel root old disk enough =
    sync_loaded-IsUntouched run tree remote shelf nfkc saves disk old fuel root (load_state old)
      enough
