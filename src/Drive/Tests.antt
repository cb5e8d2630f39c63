-- ===== src/Drive/Tests.antt =====
-- Files that are exported again: one whose tier the author has raised, and a run over several.
use archiviste_nocilia.Prelude.{
  ◌≢◌, ℕ, ◌+◌, Option, if◌then◌else◌, ◌⊎◌, Text, true, false, ◌≡◌, refl, none, some, List, [], ◌∷◌,
  ◌++◌, codes, text_eq, strip, arith,
}
use archiviste_nocilia.Prelude.Integers.{read_int}
use archiviste_nocilia.Drive.Sync.{
  StateEntry, SyncContext, Run, Outcome, entry_at, count_unchanged, apply_state,
}
use archiviste_nocilia.Drive.Paths.{
  resolve_tab_collisions, Mime, DriveFile, Tree, Allocation, allocate_paths, plain,
}
use archiviste_nocilia.Drive.Allocated.{AreFresh, allocate_paths-AreFresh}
use archiviste_nocilia.Drive.Dry.{dry, IsForetold, apply_state-IsForetold}
use archiviste_nocilia.Drive.Kept.{apply_state-again}
use archiviste_nocilia.Drive.Images.{Pillow}
use archiviste_nocilia.Drive.Docs.{extract_inline_objects, Document, Structure, Element}
use archiviste_nocilia.Drive.Sidecars.{Shelf, Download}
use archiviste_nocilia.Drive.Listing.{Page, Listed, list_folder_recursive}
use archiviste_nocilia.Drive.Listed.{Content, page_of, files_of, list_folder_recursive_lem}
use archiviste_nocilia.Drive.Whole.{
  tab_text, Remote, Gids, StateFile, RunEnd, run_sync, sync_files, sort_by, save_state,
  handle_archived,
}
use archiviste_nocilia.Drive.Turns.{process_turn}
use archiviste_nocilia.Drive.Gdocs.{process_gdoc}
use archiviste_nocilia.Drive.Untouched.{IsUntouched, run_sync-IsUntouched}
use archiviste_nocilia.Drive.Completed.{IsCounted, run_sync-IsCounted}
use archiviste_nocilia.Ingest.Frontmatter.{
  Loaded, is_access_tier, parsed, parse_frontmatter, split_frontmatter,
}
use archiviste_nocilia.Drive.Frontmatter.{
  Yaml, Dict, lookup, build_ordered, LoadedYaml, script_managed, file_text, write_gdoc,
  read_existing_frontmatter,
}
use archiviste_nocilia.Drive.Fences.{is_front, file_text-roundtrip}
use archiviste_nocilia.Drive.Exported.{value_at, write_gdoc-parse_frontmatter}

abbrev old : Dict
old =
    (codes "access_tier", Yaml.text (codes "author_only"))
    ∷ (codes "note", Yaml.text (codes "Relire."))
    ∷ (codes "title", Yaml.text (codes "Lune"))
    ∷ []

abbrev script : Dict
script =
    script_managed (codes "Lunes") (codes "1a") (codes "cosmos/Lunes")
      (codes "2026-01-01T00:00:00Z")

abbrev new : Dict
new =
    (codes "title", Yaml.text (codes "Lunes"))
    ∷ (codes "source", Yaml.text (codes "gdrive"))
    ∷ (codes "source_id", Yaml.text (codes "1a"))
    ∷ (codes "drive_path", Yaml.text (codes "cosmos/Lunes"))
    ∷ (codes "exported_at", Yaml.text (codes "2026-01-01T00:00:00Z"))
    ∷ (codes "archived", Yaml.flag false)
    ∷ (codes "tags", Yaml.texts [])
    ∷ (codes "access_tier", Yaml.text (codes "author_only"))
    ∷ (codes "note", Yaml.text (codes "Relire."))
    ∷ []

builds : build_ordered old script ≡ new
unfolding build_ordered
builds = refl

abbrev yaml : Text
yaml = codes "title: Lunes\naccess_tier: author_only\nnote: Relire."

-- The body has a rule that looks like a fence.
abbrev body : Text
body = codes "Deux lunes.\n---\nFin."

file_text-roundtrip_example :
    (read_existing_frontmatter (file_text (yaml ++ codes "\n") body) ≡ some yaml)
    × (split_frontmatter (file_text (yaml ++ codes "\n") body) ≡ some (yaml, body))
unfolding is_front
file_text-roundtrip_example = file_text-roundtrip yaml body refl

abbrev dump : Dict → Text
dump d = yaml ++ codes "\n"

abbrev load : Text → Loaded
unfolding build_ordered
load s = Loaded.mapping (λ key. value_at (lookup key (build_ordered old script)))

write_gdoc-parse_frontmatter_example :
    parse_frontmatter load (file_text (yaml ++ codes "\n") body)
    ≡ parsed (record { title = codes "Lunes"; tags = []; access_tier = codes "author_only" }) body
unfolding is_front write_gdoc lookup text_eq is_access_tier strip load
write_gdoc-parse_frontmatter_example =
    write_gdoc-parse_frontmatter (λ s. LoadedYaml.mapping old) dump load (codes "Lunes")
      (codes "1a") (codes "cosmos/Lunes") (codes "2026-01-01T00:00:00Z") body
      (some (codes "access_tier: author_only")) old [] (codes "author_only") yaml
      (file_text (yaml ++ codes "\n") body) refl refl refl refl refl refl refl refl refl

-- A run over one removed file, one presentation, one image that Drive fails to give, and one spreadsheet.
abbrev run : Run
run = record {
  dry_run = false;
  now = codes "2026-01-02T00:00:00Z";
  load = λ s. LoadedYaml.mapping old;
  dump = dump;
  sha256 = λ s. s;
  md5 = λ s. s;
  reads = λ p. true;
  writes = λ p. true;
  renames = λ p q. true;
  torn = λ p. none;
}

abbrev tree : Tree
tree = record {
  unicode = plain;
  root = codes "lore";
  under_root = λ p. true;
  tabs = λ id. some (record { index = 0; sheet_id = 3; title = codes "rois" } ∷ []);
}

abbrev entry : StateEntry
entry = record {
  local_path = codes "lore/lunes.md";
  content_signature = codes "sha256:Une lune.";
  last_exported_at = codes "2026-01-01T00:00:00Z";
  body_hash = codes "Une lune.";
  archived_at = none;
  images = [];
}

abbrev start : SyncContext
start = record {
  new_state = [];
  counts = record {
    total = 0;
    created = 0;
    updated = 0;
    renamed = 0;
    archived = 0;
    unchanged = 0;
    errors = 0;
    images_written = 0;
    images_failed = 0;
    orphans_removed = 0;
  };
  disk = λ p. none;
}

abbrev drive_file : Text → Mime → Text → DriveFile
drive_file id mime name = record { id = id; mime = mime; name = name; components = [] }

abbrev state : List (Text × StateEntry)
state =
    (codes "1a", entry)
    ∷ (codes "3c#3", record entry { local_path = codes "lore/rois.md" })
    ∷ (codes "3c#4", record entry { local_path = codes "lore/vieux.md" })
    ∷ (codes "parti", record entry { local_path = codes "lore/parti.png" })
    ∷ []

abbrev ended : Outcome → SyncContext
ended (Outcome.finished ctx) = ctx
ended (Outcome.raised ctx) = ctx
ended (Outcome.aborted ctx) = ctx

abbrev pillow : Pillow
pillow = record {
  decode = λ raw. some (record { width = 2; height = 2; content = raw });
  resize = λ i w h. i;
  save = λ i. some i.content;
  save_jpeg = λ i. some i.content;
  md5 = λ raw. codes "0123456789abcdef";
}

abbrev doc : Document
doc = record {
  body =
      Structure.paragraph (record {
        style_type = [];
        has_bullet = false;
        elements = Element.inline_object (codes "i1") ∷ [];
      })
      ∷ [];
  inline_objects = (codes "i1", codes "https://images/i1") ∷ [];
  positioned_objects = [];
}

abbrev shelf : Shelf
shelf = record {
  root = codes "lore";
  under_root = λ p. true;
  pillow = pillow;
  fetch_image = λ uri. Download.downloaded (137 ∷ 80 ∷ []) (codes "image/png");
  is_dir = λ d p. false;
  listing = λ d p. [];
  unlinks = λ p. true;
  moves = λ p q. true;
}

-- A folder with a document and a presentation, a spreadsheet and an image beside it, and two pages.
abbrev content : Content
content =
    Content.has_folder (codes "f1") (codes "Cosmos")
      (Content.has_file (codes "1a") Mime.slides (codes "Lunes")
        (Content.has_file (codes "4d") Mime.document (codes "Astres") Content.ends))
      (Content.has_other (
        Content.next_page (codes "p2") (
          Content.has_file (codes "3c") Mime.sheet (codes "Listes")
            (Content.has_file (codes "2b") Mime.png (codes "Ciel") Content.ends))))

-- The pages of this folder.
abbrev shown : Text → Option Text → Option Page
shown id none =
    if text_eq id (codes "root")
    then some (page_of content)
    else some (
        page_of (
          Content.has_file (codes "1a") Mime.slides (codes "Lunes")
            (Content.has_file (codes "4d") Mime.document (codes "Astres") Content.ends)))
shown id (some token) = some (
    page_of (
      Content.has_file (codes "3c") Mime.sheet (codes "Listes")
        (Content.has_file (codes "2b") Mime.png (codes "Ciel") Content.ends)))

list_folder_recursive_lem_example :
    list_folder_recursive shown 3 (codes "root") ≡ Listed.listed (files_of [] content)
unfolding text_eq
list_folder_recursive_lem_example =
    list_folder_recursive_lem shown (codes "root") content 3 refl ((refl, tt), (refl, tt))
      (omega arith)

abbrev remote : Remote
unfolding text_eq
remote = record {
  drive = shown;
  gids = λ id. Gids.gids_of (3 ∷ []);
  slides_text = λ id. some body;
  drive_md5 = λ id. none;
  download_png = λ id. none;
  get_document = λ id. some doc;
  is_format = λ c. false;
  sheet_values = λ id tab. some ((codes "roi" ∷ []) ∷ []);
}

-- The files that the state names, but for one.
abbrev files : Text → Option Text
unfolding text_eq
files p =
    if text_eq p (codes "lore/lunes.md")
    then some body
    else if text_eq p (codes "lore/rois.md")
    then some (file_text (yaml ++ codes "\n") body)
    else none

lists : list_folder_recursive remote.drive 3 (codes "root") ≢ Listed.out_of_fuel
unfolding list_folder_recursive text_eq
lists h = cc

run_sync-IsCounted_example :
    IsCounted
      (run_sync run tree remote shelf (λ s. s) true 3 (codes "root") (StateFile.holds state) files)
run_sync-IsCounted_example =
    run_sync-IsCounted run tree remote shelf (λ s. s) true 3 (codes "root") (StateFile.holds state)
      files lists

run_sync-IsUntouched_example : IsUntouched files (StateFile.holds state) (
    run_sync
      (dry run)
      tree
      remote
      shelf
      (λ s. s)
      true
      3
      (codes "root")
      (StateFile.holds state)
      files)
run_sync-IsUntouched_example =
    run_sync-IsUntouched run tree remote shelf (λ s. s) true 3 (codes "root")
      (StateFile.holds state) files lists

-- The run does return: the document, the presentation and the tab are exported, the image fails, and two entries are archived.
abbrev tallied : RunEnd → ℕ × ℕ × ℕ × ℕ
tallied (RunEnd.completed ctx file) = (
  ctx.counts.total,
  ctx.counts.created + (ctx.counts.updated + ctx.counts.renamed),
  ctx.counts.archived,
  ctx.counts.errors,
)
tallied _ = (0, 0, 0, 0)

completes :
    tallied
      (run_sync run tree remote shelf (λ s. s) true 3 (codes "root") (StateFile.holds state) files)
    ≡ (6, 3, 2, 1)
unfolding run_sync sync_files sort_by list_folder_recursive save_state handle_archived read_int
    process_turn process_gdoc extract_inline_objects resolve_tab_collisions text_eq write_gdoc
    read_existing_frontmatter tab_text
completes = refl

abbrev written : SyncContext
unfolding apply_state
written = ended (
    apply_state run (codes "1a") (codes "lore/lunes.md") (codes "Lunes") (codes "Lunes") body
      (some entry) start)

apply_state-again_example :
    ((e : StateEntry) × (entry_at (codes "1a") written.new_state ≡ some e)
      × (apply_state run
            (codes "1a")
            (codes "lore/lunes.md")
            (codes "Les lunes")
            (codes "cosmos")
            body
            (some e)
            start
          ≡ Outcome.finished (count_unchanged run (codes "1a") e start)))
    × ((written.disk ≡ start.disk)
        ⊎ ((front : Text) × (written.disk (codes "lore/lunes.md") ≡ some (file_text front body))))
unfolding apply_state text_eq write_gdoc
apply_state-again_example =
    apply_state-again run run (codes "1a") (codes "lore/lunes.md") (codes "Lunes") (codes "Lunes")
      body (some entry) start written (codes "Les lunes") (codes "cosmos") start refl refl refl

apply_state-IsForetold_example :
    IsForetold start
      (apply_state
        (dry run)
        (codes "1a")
        (codes "lore/lune.md")
        (codes "Lune")
        (codes "Lune")
        body
        (some entry)
        start)
      (apply_state run
        (codes "1a")
        (codes "lore/lune.md")
        (codes "Lune")
        (codes "Lune")
        body
        (some entry)
        start)
apply_state-IsForetold_example =
    apply_state-IsForetold run (codes "1a") (codes "lore/lune.md") (codes "Lune") (codes "Lune")
      body (some entry) start

-- Two files of one name, the second under its suffix.
abbrev listed : List DriveFile
listed =
    drive_file (codes "1a") Mime.document (codes "lunes")
    ∷ drive_file (codes "2b") Mime.slides (codes "lunes!")
    ∷ drive_file (codes "3c") Mime.sheet (codes "Listes")
    ∷ []

abbrev given : List Allocation
given =
    Allocation.file_at (codes "1a") (codes "lore/lunes.md")
    ∷ Allocation.file_at (codes "2b") (codes "lore/lunes-2b.md")
    ∷ Allocation.tabs_at (codes "3c") (codes "lore/istes--rois.md" ∷ [])
    ∷ []

allocate_paths-AreFresh_example : AreFresh tree listed given []
unfolding allocate_paths text_eq
allocate_paths-AreFresh_example = allocate_paths-AreFresh tree listed [] given refl
