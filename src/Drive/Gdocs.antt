-- ===== src/Drive/Gdocs.antt =====
-- `_process_gdoc` of sync.py: a Google Doc with its images.
use archiviste_nocilia.Prelude.{
  ℕ, ◌+◌, Text, Bool, true, false, not, ◌&&◌, ◌||◌, Option, none, some, List, [], ◌∷◌, filter, eqb,
  leb, ltb, text_eq, if◌then◌else◌,
}
use archiviste_nocilia.Prelude.Decimal.{utf8_length}
use archiviste_nocilia.Drive.Assoc.{keys_in, has_at}
use archiviste_nocilia.Drive.Docs.{Document, extract_inline_objects, render_doc_markdown}
use archiviste_nocilia.Drive.Sync.{
  StateEntry, SyncContext, Run, Disk, Outcome, finished, raised, aborted, then_do,
  gdoc_status_and_rename, signature_of, fresh_entry, is_unchanged, count_unchanged, write_and_keep,
  one_mib,
}
use archiviste_nocilia.Drive.Sidecars.{
  Shelf, Gathering, gathered, gather_raised, gather_aborted, process_doc_images, rename_sidecar,
  remove_orphans, stem_of, sidecar_of,
}
use archiviste_nocilia.Drive.Tabs.{count_error, drive_path_of}

-- `normalize_body` of gdrive_export/normalize.py, with NFKC as a parameter
abbrev pub is_kept : ℕ → Bool
is_kept c = eqb c 9 || (eqb c 10 || not (leb c 31))

unfoldable pub normalize_body : (Text → Text) → Text → Text
normalize_body nfkc body = filter is_kept (nfkc body)

-- The number of entries of the old manifest that the new one lacks.
abbrev pub missing_from : List (Text × Text) → List (Text × Text) → ℕ
missing_from [] kept = 0
missing_from (e ∷ es) kept =
    let rest = missing_from es kept in if has_at e.0 kept then rest else rest + 1

abbrev pub images_of : Option StateEntry → List (Text × Text)
images_of none = []
images_of (some e) = e.images

module _ (run : Run) (shelf : Shelf) (nfkc : Text → Text) (file_id name : Text)
    (components : List Text) (path : Text) where
  abbrev pub moved_sidecar : SyncContext → Option Disk → Outcome
  moved_sidecar ctx none = raised ctx
  moved_sidecar ctx (some disk) = finished (record ctx { disk = disk })

  -- The sidecar of a document that got another path
  abbrev pub move_sidecar : Option StateEntry → SyncContext → Outcome
  unfolding rename_sidecar
  move_sidecar none ctx = finished ctx
  move_sidecar (some e) ctx =
      if not (text_eq e.local_path path) && not run.dry_run
      then moved_sidecar ctx (rename_sidecar run shelf e.local_path path ctx.disk)
      else finished ctx

  abbrev pub has_same_images : Option StateEntry → List (Text × Text) → Bool
  has_same_images none manifest = false
  has_same_images (some e) manifest = keys_in e.images manifest && keys_in manifest e.images

  abbrev pub count_orphans : ℕ → SyncContext → SyncContext
  count_orphans n ctx = record ctx {
    counts = record ctx.counts { orphans_removed = ctx.counts.orphans_removed + n };
  }

  -- The end of `cleanup_orphans`; an error of it loses the count.
  abbrev pub cleaned : SyncContext → Disk × ℕ × Bool → Outcome
  cleaned ctx (disk, removed, true) = finished (count_orphans removed (record ctx { disk = disk }))
  cleaned ctx (disk, removed, false) = raised (record ctx { disk = disk })

  abbrev pub cleanup_orphans : List (Text × Text) → SyncContext → Outcome
  unfolding sidecar_of
  cleanup_orphans manifest ctx =
      let dir = sidecar_of path in
      if not (shelf.under_root dir)
      then raised ctx
      else if not (shelf.is_dir ctx.disk dir)
      then finished ctx
      else cleaned ctx
          (remove_orphans run shelf dir manifest (shelf.listing ctx.disk dir) ctx.disk 0)

  -- The orphans of a dry run are only counted.
  abbrev pub clear_orphans : List (Text × Text) → Option StateEntry → SyncContext → Outcome
  unfolding sidecar_of
  clear_orphans manifest existing ctx =
      if run.dry_run
      then (if shelf.is_dir ctx.disk (sidecar_of path)
          then finished (count_orphans (missing_from (images_of existing) manifest) ctx)
          else finished ctx)
      else cleanup_orphans manifest ctx

  abbrev pub doc_entry : Text → List (Text × Text) → StateEntry
  doc_entry body manifest =
      record (fresh_entry run path (signature_of run body) (run.sha256 body)) { images = manifest }

  abbrev pub write_doc : Text → List (Text × Text) → Option StateEntry → SyncContext → Outcome
  write_doc body manifest existing ctx =
      then_do (gdoc_status_and_rename run path existing ctx) (λ c.
        then_do (clear_orphans manifest existing c) (
          write_and_keep run file_id path name (drive_path_of components name) body
            (doc_entry body manifest) existing))

  abbrev pub write_unless : Text → List (Text × Text) → Option StateEntry → SyncContext → Outcome
  write_unless body manifest none ctx = write_doc body manifest none ctx
  write_unless body manifest (some e) ctx =
      if is_unchanged run path (signature_of run body) (some e) && has_same_images (some e) manifest
      then finished (count_unchanged run file_id e ctx)
      else write_doc body manifest (some e) ctx

  -- From the rendered and normalized body on
  abbrev pub apply_body : Option StateEntry → List (Text × Text) → SyncContext → Text → Outcome
  unfolding utf8_length
  apply_body existing manifest ctx body =
      if ltb (one_mib run) (utf8_length body)
      then finished (count_error ctx)
      else write_unless body manifest existing ctx

  abbrev pub after_images : Document → Option StateEntry → Gathering → Outcome
  unfolding render_doc_markdown normalize_body
  after_images doc existing (gathered g) =
      apply_body existing g.manifest g.ctx
        (normalize_body nfkc (render_doc_markdown doc g.resolutions))
  after_images doc existing (gather_raised ctx) = raised ctx
  after_images doc existing (gather_aborted ctx) = aborted ctx

  abbrev pub with_document : Document → Option StateEntry → SyncContext → Outcome
  unfolding process_doc_images extract_inline_objects stem_of
  with_document doc existing ctx = then_do (move_sidecar existing ctx) (λ c.
      after_images doc existing (
        process_doc_images run shelf (stem_of path) components 0 (extract_inline_objects doc)
          (record { ctx = c; resolutions = []; manifest = []; md5_to_rel_path = [] })))

  unfoldable pub process_gdoc : Option StateEntry → Option Document → SyncContext → Outcome
  unfolding gdoc_status_and_rename process_doc_images render_doc_markdown normalize_body sidecar_of
      rename_sidecar
  process_gdoc existing none ctx = raised ctx
  process_gdoc existing (some doc) ctx = with_document doc existing ctx
