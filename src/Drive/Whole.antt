-- ===== src/Drive/Whole.antt =====
-- `run_sync` of sync.py as a whole: the state of the last run, what Drive lists, the entries that Drive does not have any more, and the
-- files by their ids. During a run Drive gives one answer to each question. The keys of a state are read as `int` reads ASCII.
use archiviste_nocilia.Prelude.{
  ℕ, Text, Bool, true, false, not, ◌&&◌, ◌||◌, Option, none, some, List, [], ◌∷◌, ◌++◌, map, eqb,
  ltb, if◌then◌else◌,
}
use archiviste_nocilia.Prelude.Integers.{read_int}
use archiviste_nocilia.Drive.Sync.{
  StateEntry, SummaryCounts, SyncContext, Run, Disk, Outcome, finished, raised, aborted, then_do,
  keep_entry,
}
use archiviste_nocilia.Drive.Slugs.{slugify}
use archiviste_nocilia.Drive.Archive.{archive_entry}
use archiviste_nocilia.Drive.Paths.{
  Mime, DriveFile, Tab, Tree, tab_paths, extension, is_sheet, is_taken, resolve_local_path,
  resolve_tab_collisions,
}
use archiviste_nocilia.Drive.Docs.{Document}
use archiviste_nocilia.Drive.Sidecars.{Shelf}
use archiviste_nocilia.Drive.Listing.{Drive, Listed, list_folder_recursive}
use archiviste_nocilia.Drive.Sheets.{fetch_tab_content}
use archiviste_nocilia.Drive.Turns.{Turn, process_turn}

-- The gids of a spreadsheet, a DriveApiError, or another error of the transport.
pub data Gids : Type 0 where
  gids_of : List ℕ → Gids
  refused escapes : Gids

-- What Drive gives for a file: the gids of its tabs, its text, its digest, its bytes, its document, and the values of a tab; and the format characters.
pub record Remote : Type 0 where
  pub drive : Drive
  pub gids : Text → Gids
  pub slides_text : Text → Option Text
  pub drive_md5 : Text → Option Text
  pub download_png : Text → Option (List ℕ)
  pub get_document : Text → Option Document
  pub is_format : ℕ → Bool
  pub sheet_values : Text → Tab → Option (List (List Text))

-- The text of a tab as the loop gets it.
unfoldable pub tab_text : Remote → (Text → Text) → Text → Tab → Option Text
unfolding fetch_tab_content
tab_text remote nfkc id tab =
    fetch_tab_content nfkc remote.is_format id tab (remote.sheet_values id tab)

-- The state file: `load_state` raises on one it cannot read.
pub data StateFile : Type 0 where
  absent corrupted : StateFile
  holds : List (Text × StateEntry) → StateFile

unfoldable pub load_state : StateFile → Option (List (Text × StateEntry))
load_state absent = some []
load_state corrupted = none
load_state (holds state) = some state

-- The order of texts by their code points
abbrev pub text_leb : Text → Text → Bool
text_leb [] t = true
text_leb (c ∷ s) [] = false
text_leb (c ∷ s) (d ∷ t) = let rest = text_leb s t in if eqb c d then rest else ltb c d

module _ {ℓ} {A : Type ℓ} (key : A → Text) where
  abbrev pub insert_by : A → List A → List A
  insert_by a [] = a ∷ []
  insert_by a (b ∷ bs) =
      let rest = insert_by a bs in if text_leb (key a) (key b) then a ∷ b ∷ bs else b ∷ rest

  -- `sorted(..., key=key)`, which is stable.
  unfoldable pub sort_by : List A → List A
  sort_by [] = []
  sort_by (a ∷ rest) = insert_by a (sort_by rest)

-- `save_state`: the keys are sorted.
unfoldable pub save_state : List (Text × StateEntry) → StateFile
unfolding sort_by
save_state state = holds (sort_by (λ e. e.0) state)

-- `key.split("#", 1)`, or `none` without a sign
unfoldable pub split_hash : Text → Option (Text × Text)
split_hash [] = none
split_hash (c ∷ s) = behind (split_hash s)
  where
    onto : Option (Text × Text) → Option (Text × Text)
    onto none = none
    onto (some (id, gid)) = some (c ∷ id, gid)

    behind : Option (Text × Text) → Option (Text × Text)
    behind later = if eqb c b'#' then some ([], s) else onto later

abbrev pub has_number : ℕ → List ℕ → Bool
has_number n [] = false
has_number n (m ∷ ms) = eqb m n || has_number n ms

-- `gid in current_tab_gids[file_id]`
abbrev pub has_gid : Bool × ℕ → List ℕ → Bool
has_gid gid gids = (not gid.0 || eqb gid.1 0) && has_number gid.1 gids

module _ (tree : Tree) where
  abbrev pub sheet_ids : List DriveFile → List Text
  sheet_ids [] = []
  sheet_ids (f ∷ fs) = let rest = sheet_ids fs in if is_sheet tree f.mime then f.id ∷ rest else rest

-- A run returns, with the state file as it is then; an error leaves it, one of YAML for itself.
pub data RunEnd : Type 0 where
  completed : SyncContext → StateFile → RunEnd
  halted failed : SyncContext → RunEnd
  out_of_fuel : RunEnd

abbrev pub no_counts : SummaryCounts
no_counts = record {
  total = 0;
  created = 0;
  updated = 0;
  renamed = 0;
  archived = 0;
  unchanged = 0;
  errors = 0;
  images_written = 0;
  images_failed = 0;
  orphans_removed = 0;
}

abbrev pub start_on : Disk → SyncContext
start_on disk = record { new_state = []; counts = no_counts; disk = disk }

module _ (run : Run) (tree : Tree) (remote : Remote) (shelf : Shelf) (nfkc : Text → Text) where
  module _ (files : List DriveFile) where
    abbrev pub unless_listed : Text → Bool × ℕ → StateEntry → SyncContext → Gids → Outcome
    unfolding archive_entry
    unless_listed key gid entry ctx (gids_of gids) =
        if not (has_gid gid gids)
        then archive_entry run key entry ctx
        else finished (keep_entry key entry ctx)
    unless_listed key gid entry ctx refused = finished (keep_entry key entry ctx)
    unless_listed key gid entry ctx escapes = raised ctx

    -- `_handle_archived_tab`
    unfoldable pub handle_archived_tab : Text → Text → Bool × ℕ → StateEntry → SyncContext → Outcome
    handle_archived_tab key file_id gid entry ctx =
        if not (is_taken file_id (map (λ f. f.id) files))
        then archive_entry run key entry ctx
        else if not (is_taken file_id (sheet_ids tree files))
        then finished (keep_entry key entry ctx)
        else unless_listed key gid entry ctx (remote.gids file_id)

    abbrev pub handle_tab_key : Text → StateEntry → SyncContext → Text → Option (Bool × ℕ) → Outcome
    handle_tab_key key entry ctx file_id none = raised ctx
    handle_tab_key key entry ctx file_id (some gid) = handle_archived_tab key file_id gid entry ctx

    abbrev pub handle_key : Text → StateEntry → SyncContext → Option (Text × Text) → Outcome
    unfolding read_int
    handle_key key entry ctx (some (file_id, gid)) =
        handle_tab_key key entry ctx file_id (read_int gid)
    handle_key key entry ctx none =
        if is_taken key (map (λ f. f.id) files)
        then finished ctx
        else archive_entry run key entry ctx

    -- `_handle_archived`
    unfoldable pub handle_archived : List (Text × StateEntry) → SyncContext → Outcome
    unfolding handle_archived_tab split_hash archive_entry
    handle_archived [] ctx = finished ctx
    handle_archived (e ∷ state) ctx =
        then_do (handle_key e.0 e.1 ctx (split_hash e.0)) (handle_archived state)

  -- What Drive gives to the turn of a file.
  abbrev pub turn_of : DriveFile → Text → Mime → Turn
  turn_of file path Mime.document =
      Turn.document file.id file.name file.components path (remote.get_document file.id)
  turn_of file path Mime.slides =
      Turn.slides file.id file.name file.components path (remote.slides_text file.id)
  turn_of file path Mime.png =
      Turn.image file.id path (remote.drive_md5 file.id) (remote.download_png file.id)
  turn_of file path Mime.sheet = Turn.sheet file

  module _ (state : List (Text × StateEntry)) where
    abbrev pub process_at :
        DriveFile → Mime → SyncContext → (Text → SyncContext → Outcome) → Option Text → Outcome
    process_at file mime ctx next none = raised ctx
    process_at file mime ctx next (some path) =
        then_do
          (process_turn run tree state (tab_text remote nfkc) shelf nfkc (turn_of file path mime)
            ctx)
          (next path)

    -- The loop of `run_sync`; a path outside of the root ends it.
    unfoldable pub process_files : List DriveFile → List Text → SyncContext → Outcome
    unfolding process_turn resolve_local_path resolve_tab_collisions slugify
    process_files [] taken ctx = finished ctx
    process_files (file ∷ files) taken ctx =
        if is_sheet tree file.mime
        then then_do
            (process_turn run tree state (tab_text remote nfkc) shelf nfkc (Turn.sheet file) ctx)
            (process_files files (tab_paths tree file (tree.tabs file.id) ++ taken))
        else process_at file file.mime ctx (λ path. process_files files (path ∷ taken))
            (resolve_local_path tree file.components (slugify tree.unicode file.name file.id)
              (extension tree file.mime) taken file.id)

  -- The end of `run_sync`; a state that cannot be saved leaves the old file.
  abbrev pub save_at_end : Bool → StateFile → Outcome → RunEnd
  unfolding save_state
  save_at_end saves old (finished ctx) =
      if run.dry_run
      then completed ctx old
      else if saves
      then completed ctx (save_state ctx.new_state)
      else halted ctx
  save_at_end saves old (raised ctx) = halted ctx
  save_at_end saves old (aborted ctx) = failed ctx

  -- What follows the listing.
  unfoldable pub sync_files : List (Text × StateEntry) → List DriveFile → SyncContext → Outcome
  unfolding handle_archived process_files
  sync_files state files ctx =
      then_do (handle_archived files state ctx) (process_files state files [])

  abbrev pub sync_listed : Bool → StateFile → List (Text × StateEntry) → Disk → Listed → RunEnd
  unfolding sort_by sync_files
  sync_listed saves old state disk (Listed.listed files) =
      save_at_end saves old (sync_files state (sort_by (λ f. f.id) files) (start_on disk))
  sync_listed saves old state disk Listed.raised = halted (start_on disk)
  sync_listed saves old state disk Listed.out_of_fuel = out_of_fuel

  abbrev pub sync_loaded :
      Bool → ℕ → Text → StateFile → Disk → Option (List (Text × StateEntry)) → RunEnd
  sync_loaded saves fuel root_folder_id old disk none = halted (start_on disk)
  sync_loaded saves fuel root_folder_id old disk (some state) =
      sync_listed saves old state disk (list_folder_recursive remote.drive fuel root_folder_id)

  unfoldable pub run_sync : Bool → ℕ → Text → StateFile → Disk → RunEnd
  unfolding load_state
  run_sync saves fuel root_folder_id old disk =
      sync_loaded saves fuel root_folder_id old disk (load_state old)
