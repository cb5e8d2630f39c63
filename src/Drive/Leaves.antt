-- ===== src/Drive/Leaves.antt =====
-- The turns of a dry run leave the files.
use archiviste_nocilia.Prelude.{
  ℕ, ◌+◌, Text, not, ◌&&◌, ◌≡◌, refl, ◌∙◌, Option, none, some, List, [], ◌∷◌, ◌++◌, text_eq,
  Bool-cases, ltb, inl, inr, either_way, ap, codes,
}
use archiviste_nocilia.Prelude.Decimal.{utf8_length}
use archiviste_nocilia.Drive.Sync.{
  StateEntry, SyncContext, Run, Disk, Outcome, finished, raised, aborted, then_do,
  gdoc_status_and_rename, signature_of, is_unchanged, one_mib, count_one, entry_at,
}
use archiviste_nocilia.Drive.Archive.{archive_entry, archive_at}
use archiviste_nocilia.Drive.Dry.{dry, IsForetold, apply_state-IsForetold}
use archiviste_nocilia.Drive.Tabs.{
  process_gslide, apply_gslide_state, apply_tab_state, process_tab, process_tabs, process_listed,
  process_gsheet, drive_path_of, build_tab_title, escape_slash,
}
use archiviste_nocilia.Drive.Paths.{
  DriveFile, Tab, Tree, build_tab_source_id, tab_path, resolve_tab_collisions,
}
use archiviste_nocilia.Drive.Docs.{Document, extract_inline_objects, render_doc_markdown}
use archiviste_nocilia.Drive.Sidecars.{
  Shelf, Gathered, Gathering, gathered, gather_raised, gather_aborted, process_doc_images,
  resolve_one_image, sidecar_of, stem_of, rename_sidecar,
}
use archiviste_nocilia.Drive.Gdocs.{
  process_gdoc, normalize_body, move_sidecar, clear_orphans, write_doc, write_unless, apply_body,
  after_images, has_same_images,
}
use archiviste_nocilia.Drive.Turns.{catch_error}

abbrev pub Leaves : Disk → Outcome → Type 0
Leaves disk (finished ctx) = ctx.disk ≡ disk
Leaves disk (raised ctx) = ctx.disk ≡ disk
Leaves disk (aborted ctx) = ⊥

pub then_do-Leaves :
    (disk : Disk) (o : Outcome) (next : SyncContext → Outcome)
    → Leaves disk o
    → ((c : SyncContext) → c.disk ≡ disk → Leaves disk (next c))
    → Leaves disk (then_do o next)
then_do-Leaves disk (finished ctx) next h k = k ctx h
then_do-Leaves disk (raised ctx) next h k = h
then_do-Leaves disk (aborted ctx) next h k = h

pub catch_error-Leaves : (disk : Disk) (o : Outcome) → Leaves disk o → Leaves disk (catch_error o)
catch_error-Leaves disk (finished ctx) h = h
catch_error-Leaves disk (raised ctx) h = h
catch_error-Leaves disk (aborted ctx) h = h

-- A call that a real run is foretold by leaves the files.
pub IsForetold-Leaves :
    (disk : Disk) (ctx : SyncContext) (o real : Outcome)
    → IsForetold ctx o real
    → ctx.disk ≡ disk
    → Leaves disk o
IsForetold-Leaves disk ctx (finished c) real (d, n) k = d ∙ k
IsForetold-Leaves disk ctx (raised c) real (d, n) k = d ∙ k
IsForetold-Leaves disk ctx (aborted c) real h k = absurd h

-- The images of a dry run are not downloaded, so the context stays as it is.
abbrev Keeps : SyncContext → Gathering → Type 0
Keeps ctx (gathered g) = g.ctx ≡ ctx
Keeps ctx (gather_raised c) = c ≡ ctx
Keeps ctx (gather_aborted c) = ⊥

process_doc_images-Keeps :
    (run : Run) (shelf : Shelf) (slug : Text) (components : List Text) (index : ℕ)
    (objects : List (Text × Text)) (g : Gathered)
    → Keeps g.ctx (process_doc_images (dry run) shelf slug components index objects g)
unfolding process_doc_images resolve_one_image
process_doc_images-Keeps run shelf slug components index [] g = refl
process_doc_images-Keeps run shelf slug components index (o ∷ objects) g =
    process_doc_images-Keeps run shelf slug components (index + 1) objects _

module _ (run : Run) (disk : Disk) where
  status-Leaves :
      (path : Text) (existing : Option StateEntry) (ctx : SyncContext)
      → ctx.disk ≡ disk
      → Leaves disk (gdoc_status_and_rename (dry run) path existing ctx)
  unfolding gdoc_status_and_rename
  status-Leaves path none ctx h = h
  status-Leaves path (some e) ctx h =
      either_way (Leaves disk) (not (text_eq e.local_path path)) _ _ h h

  pub archive_entry-Leaves :
      (key : Text) (entry : StateEntry) (ctx : SyncContext)
      → ctx.disk ≡ disk
      → Leaves disk (archive_entry (dry run) key entry ctx)
  unfolding archive_entry
  archive_entry-Leaves key entry ctx h = by_date entry.archived_at
    where
      by_date : (at : Option Text) → Leaves disk (archive_at (dry run) key entry ctx at)
      by_date none = h
      by_date (some at) = h

  pub process_gslide-Leaves :
      (id name : Text) (components : List Text) (path : Text) (existing : Option StateEntry)
      (body : Option Text) (ctx : SyncContext)
      → ctx.disk ≡ disk
      → Leaves disk (process_gslide (dry run) id name components path existing body ctx)
  unfolding process_gslide apply_gslide_state
  process_gslide-Leaves id name components path existing none ctx h = h
  process_gslide-Leaves id name components path existing (some body) ctx h =
      either_way (Leaves disk) (ltb (one_mib run) (utf8_length body)) _ _ h (
        IsForetold-Leaves disk ctx _ _
          (apply_state-IsForetold run id path name (drive_path_of components name) body existing
            ctx)
          h)

  process_tab-Leaves :
      (source_id path title name folder : Text) (existing : Option StateEntry) (body : Option Text)
      (ctx : SyncContext)
      → ctx.disk ≡ disk
      → Leaves disk (process_tab (dry run) source_id path title name folder existing body ctx)
  unfolding apply_tab_state
  process_tab-Leaves source_id path title name folder existing none ctx h = h
  process_tab-Leaves source_id path title name folder existing (some body) ctx h =
      either_way (Leaves disk) (ltb (one_mib run) (utf8_length body)) _ _ h (
        IsForetold-Leaves disk ctx _ _
          (apply_state-IsForetold run source_id path (build_tab_title name title)
            (folder ++ (codes "/" ++ escape_slash title)) body existing (count_one run ctx))
          h)

  module _ (tree : Tree) (state : List (Text × StateEntry)) (fetch : Text → Tab → Option Text)
      (file : DriveFile) where
    process_tabs-Leaves :
        (tabs : List (Tab × Text)) (ctx : SyncContext)
        → ctx.disk ≡ disk
        → Leaves disk (process_tabs (dry run) tree state fetch file tabs ctx)
    unfolding process_tabs
    process_tabs-Leaves [] ctx h = h
    process_tabs-Leaves (t ∷ tabs) ctx h =
        then_do-Leaves disk _ (process_tabs (dry run) tree state fetch file tabs)
          (process_tab-Leaves (build_tab_source_id file.id t.0.sheet_id) (tab_path tree file t)
            t.0.title file.name (drive_path_of file.components file.name)
            (entry_at (build_tab_source_id file.id t.0.sheet_id) state) (fetch file.id t.0) ctx h)
          (process_tabs-Leaves tabs)

    pub process_gsheet-Leaves :
        (ctx : SyncContext)
        → ctx.disk ≡ disk
        → Leaves disk (process_gsheet (dry run) tree state fetch file ctx)
    unfolding process_gsheet
    process_gsheet-Leaves ctx h = by_tabs (tree.tabs file.id)
      where
        by_tabs :
            (tabs : Option (List Tab))
            → Leaves disk (process_listed (dry run) tree state fetch file ctx tabs)
        by_tabs none = h
        by_tabs (some tabs) = process_tabs-Leaves (resolve_tab_collisions tree.unicode tabs) ctx h

  module _ (shelf : Shelf) (nfkc : Text → Text) (id name : Text) (components : List Text)
      (path : Text) where
    clear_orphans-Leaves :
        (manifest : List (Text × Text)) (existing : Option StateEntry) (ctx : SyncContext)
        → ctx.disk ≡ disk
        → Leaves disk
            (clear_orphans (dry run) shelf nfkc id name components path manifest existing ctx)
    unfolding sidecar_of
    clear_orphans-Leaves manifest existing ctx h =
        either_way (Leaves disk) (shelf.is_dir ctx.disk (sidecar_of path)) _ _ h h

    write_doc-Leaves :
        (body : Text) (manifest : List (Text × Text)) (existing : Option StateEntry)
        (ctx : SyncContext)
        → ctx.disk ≡ disk
        → Leaves disk
            (write_doc (dry run) shelf nfkc id name components path body manifest existing ctx)
    write_doc-Leaves body manifest existing ctx h =
        then_do-Leaves disk _ _ (status-Leaves path existing ctx h)
          (λ c k. then_do-Leaves disk _ _ (clear_orphans-Leaves manifest existing c k) (λ d m. m))

    write_unless-Leaves :
        (body : Text) (manifest : List (Text × Text)) (existing : Option StateEntry)
        (ctx : SyncContext)
        → ctx.disk ≡ disk
        → Leaves disk
            (write_unless (dry run) shelf nfkc id name components path body manifest existing ctx)
    write_unless-Leaves body manifest none ctx h = write_doc-Leaves body manifest none ctx h
    write_unless-Leaves body manifest (some e) ctx h =
        either_way (Leaves disk)
          (is_unchanged (dry run) path (signature_of (dry run) body) (some e)
            && has_same_images (dry run) shelf nfkc id name components path (some e) manifest)
          _ _ h (write_doc-Leaves body manifest (some e) ctx h)

    apply_body-Leaves :
        (existing : Option StateEntry) (manifest : List (Text × Text)) (ctx : SyncContext)
        (body : Text)
        → ctx.disk ≡ disk
        → Leaves disk
            (apply_body (dry run) shelf nfkc id name components path existing manifest ctx body)
    unfolding utf8_length
    apply_body-Leaves existing manifest ctx body h =
        either_way (Leaves disk) (ltb (one_mib run) (utf8_length body)) _ _ h
          (write_unless-Leaves body manifest existing ctx h)

    after_images-Leaves :
        (doc : Document) (existing : Option StateEntry) (ctx : SyncContext) (g : Gathering)
        → Keeps ctx g
        → ctx.disk ≡ disk
        → Leaves disk (after_images (dry run) shelf nfkc id name components path doc existing g)
    unfolding render_doc_markdown normalize_body
    after_images-Leaves doc existing ctx (gathered g) same h =
        apply_body-Leaves existing g.manifest g.ctx
          (normalize_body nfkc (render_doc_markdown doc g.resolutions)) (ap (λ c. c.disk) same ∙ h)
    after_images-Leaves doc existing ctx (gather_raised c) same h = ap (λ c. c.disk) same ∙ h
    after_images-Leaves doc existing ctx (gather_aborted c) same h = absurd same

    move_sidecar-Leaves :
        (existing : Option StateEntry) (ctx : SyncContext)
        → ctx.disk ≡ disk
        → Leaves disk (move_sidecar (dry run) shelf nfkc id name components path existing ctx)
    unfolding rename_sidecar
    move_sidecar-Leaves none ctx h = h
    move_sidecar-Leaves (some e) ctx h = elim (Bool-cases (text_eq e.local_path path)) [
      | inl t ↦ rw t h
      | inr t ↦ rw t h
    ]

    pub process_gdoc-Leaves :
        (existing : Option StateEntry) (doc : Option Document) (ctx : SyncContext)
        → ctx.disk ≡ disk
        → Leaves disk (process_gdoc (dry run) shelf nfkc id name components path existing doc ctx)
    unfolding process_gdoc extract_inline_objects
    process_gdoc-Leaves existing none ctx h = h
    process_gdoc-Leaves existing (some doc) ctx h =
        then_do-Leaves disk _ _ (move_sidecar-Leaves existing ctx h) (λ c k.
          after_images-Leaves doc existing c
            (process_doc_images (dry run) shelf (stem_of path) components 0
              (extract_inline_objects doc)
              (record { ctx = c; resolutions = []; manifest = []; md5_to_rel_path = [] }))
            (process_doc_images-Keeps run shelf (stem_of path) components 0
              (extract_inline_objects doc)
              (record { ctx = c; resolutions = []; manifest = []; md5_to_rel_path = [] }))
            k)
