-- ===== src/Drive/Sync.antt =====
-- scripts/gdrive_export/sync.py, rename.py and state.py: an exported file against the state of the last
-- run, from its rendered body on. The lines of the log are left out.
use archiviste_nocilia.Prelude.{
  ℕ, ◌+◌, ◌*◌, Text, Bool, true, false, not, ◌&&◌, Option, none, some, List, [], ◌∷◌, ◌++◌, text_eq,
  ltb, if◌then◌else◌, codes, length,
}
use archiviste_nocilia.Drive.Frontmatter.{Dict, LoadedYaml, write_gdoc, read_existing_frontmatter}

pub record StateEntry : Type 0 where
  pub local_path : Text
  pub content_signature : Text
  pub last_exported_at : Text
  pub body_hash : Text
  pub archived_at : Option Text
  pub images : List (Text × Text)

pub record SummaryCounts : Type 0 where
  pub total : ℕ
  pub created : ℕ
  pub updated : ℕ
  pub renamed : ℕ
  pub archived : ℕ
  pub unchanged : ℕ
  pub errors : ℕ
  pub images_written : ℕ
  pub images_failed : ℕ
  pub orphans_removed : ℕ

-- The files below the root: text, or the bytes of an image.
abbrev pub Disk : Type 0
Disk = Text → Option (List ℕ)

abbrev pub set_file : Text → Option (List ℕ) → Disk → Disk
set_file path content disk = λ q. if text_eq path q then content else disk q

-- What a run changes.
pub record SyncContext : Type 0 where
  pub new_state : List (Text × StateEntry)
  pub counts : SummaryCounts
  pub disk : Disk

-- What a run has: its mode, its clock, YAML, the digests, and which calls of the disk work. A write that
-- fails leaves what `torn` says.
pub record Run : Type 0 where
  pub dry_run : Bool
  pub now : Text
  pub load : Text → LoadedYaml
  pub dump : Dict → Text
  pub sha256 : Text → Text
  pub md5 : List ℕ → Text
  pub reads : Text → Bool
  pub writes : Text → Bool
  pub renames : Text → Text → Bool
  pub torn : Text → Option (List ℕ)

-- A call that returns, one that raises what `_process_file` catches, and one that raises another error, of YAML or of the
-- transport, which ends the run. Behind each stands what it leaves.
pub data Outcome : Type 0 where
  finished raised aborted : SyncContext → Outcome

abbrev pub then_do : Outcome → (SyncContext → Outcome) → Outcome
then_do (finished ctx) next = next ctx
then_do (raised ctx) next = raised ctx
then_do (aborted ctx) next = aborted ctx

-- `ctx.new_state[key] = entry`
abbrev pub set_entry : Text → StateEntry → List (Text × StateEntry) → List (Text × StateEntry)
set_entry key entry [] = (key, entry) ∷ []
set_entry key entry (e ∷ es) =
    if text_eq e.0 key then (key, entry) ∷ es else e ∷ set_entry key entry es

abbrev pub entry_at : Text → List (Text × StateEntry) → Option StateEntry
entry_at key [] = none
entry_at key (e ∷ es) = if text_eq e.0 key then some e.1 else entry_at key es

abbrev pub keep_entry : Text → StateEntry → SyncContext → SyncContext
keep_entry key entry ctx = record ctx { new_state = set_entry key entry ctx.new_state }

abbrev pub exists : Option (List ℕ) → Bool
exists none = false
exists (some _) = true

module _ (run : Run) where
  -- `rename_local_file`; `none` is an OSError.
  unfoldable pub rename_local_file : Text → Text → Disk → Option Disk
  rename_local_file old new disk =
      if not (exists (disk old))
      then none
      else if exists (disk new)
      then none
      else if run.renames old new
      then some (set_file new (disk old) (set_file old none disk))
      else none

  abbrev pub renamed_on : SyncContext → Option Disk → Outcome
  renamed_on ctx none = raised ctx
  renamed_on ctx (some disk) = finished (record ctx { disk = disk })

  -- `_gdoc_status_and_rename`
  unfoldable pub gdoc_status_and_rename : Text → Option StateEntry → SyncContext → Outcome
  unfolding rename_local_file
  gdoc_status_and_rename path none ctx =
      finished (record ctx { counts = record ctx.counts { created = ctx.counts.created + 1 } })
  gdoc_status_and_rename path (some e) ctx =
      if not (text_eq e.local_path path)
      then (let ctx' = record ctx {
        counts = record ctx.counts { renamed = ctx.counts.renamed + 1 };
      } in
          if run.dry_run
          then finished ctx'
          else renamed_on ctx' (rename_local_file e.local_path path ctx.disk))
      else finished (record ctx { counts = record ctx.counts { updated = ctx.counts.updated + 1 } })

  -- The file is written, or an OSError is raised.
  abbrev pub write_file : Text → List ℕ → SyncContext → Outcome
  write_file path content ctx =
      if run.writes path
      then finished (record ctx { disk = set_file path (some content) ctx.disk })
      else raised (record ctx { disk = set_file path (run.torn path) ctx.disk })

  abbrev pub write_text : Text → SyncContext → Option Text → Outcome
  write_text path ctx none = aborted ctx
  write_text path ctx (some content) = write_file path content ctx

  -- `_read_existing_frontmatter`, which raises a ValueError on a file that is not UTF-8.
  abbrev pub old_frontmatter : Text → Option (List ℕ) → Option (Option Text)
  old_frontmatter path none = some none
  old_frontmatter path (some content) =
      if run.reads path then some (read_existing_frontmatter content) else none

  abbrev pub write_over :
      Text → Text → Text → Text → Text → SyncContext → Option (Option Text) → Outcome
  write_over path title source_id drive_path body ctx none = raised ctx
  write_over path title source_id drive_path body ctx (some old_fm) =
      write_text path ctx
        (write_gdoc run.load run.dump title source_id drive_path run.now body old_fm)

  abbrev pub signature_of : Text → Text
  signature_of body = codes "sha256:" ++ run.sha256 body

  abbrev pub fresh_entry : Text → Text → Text → StateEntry
  fresh_entry path signature body_hash = record {
    local_path = path;
    content_signature = signature;
    last_exported_at = run.now;
    body_hash = body_hash;
    archived_at = none;
    images = [];
  }

  abbrev pub or_fresh : Option StateEntry → StateEntry → StateEntry
  or_fresh none fresh = fresh
  or_fresh (some e) fresh = e

  abbrev pub is_unchanged : Text → Text → Option StateEntry → Bool
  is_unchanged path signature none = false
  is_unchanged path signature (some e) =
      text_eq e.content_signature signature && text_eq e.local_path path

  abbrev pub count_unchanged : Text → StateEntry → SyncContext → SyncContext
  count_unchanged key e ctx =
      keep_entry key e
        (record ctx { counts = record ctx.counts { unchanged = ctx.counts.unchanged + 1 } })

  -- What follows the status: the file and its entry, or the entry of a dry run.
  abbrev pub write_and_keep :
      Text → Text → Text → Text → Text → StateEntry → Option StateEntry → SyncContext → Outcome
  write_and_keep key path title drive_path body fresh existing ctx =
      if run.dry_run
      then finished (keep_entry key (or_fresh existing fresh) ctx)
      else then_do
          (write_over path title key drive_path body ctx (old_frontmatter path (ctx.disk path)))
          (λ ctx'. finished (keep_entry key fresh ctx'))

  -- What `_apply_gslide_state` and `_apply_tab_state` have in common.
  abbrev pub apply_status :
      Text → Text → Text → Text → Text → Option StateEntry → SyncContext → Outcome
  apply_status key path title drive_path body existing ctx =
      then_do (gdoc_status_and_rename path existing ctx) (
        write_and_keep key path title drive_path body
          (fresh_entry path (signature_of body) (run.sha256 body)) existing)

  unfoldable pub apply_state :
      Text → Text → Text → Text → Text → Option StateEntry → SyncContext → Outcome
  unfolding gdoc_status_and_rename
  apply_state key path title drive_path body none ctx =
      apply_status key path title drive_path body none ctx
  apply_state key path title drive_path body (some e) ctx =
      if is_unchanged path (signature_of body) (some e)
      then finished (count_unchanged key e ctx)
      else apply_status key path title drive_path body (some e) ctx

  abbrev pub count_one : SyncContext → SyncContext
  count_one ctx = record ctx { counts = record ctx.counts { total = ctx.counts.total + 1 } }

  abbrev pub one_mib : ℕ
  one_mib = 1024 * 1024

  -- `_process_png`: the image is downloaded if Drive has no digest or a new one.
  abbrev pub png_signature : Text → Text
  png_signature digest = codes "md5:" ++ digest

  abbrev pub png_entry : Text → Text → StateEntry
  png_entry path signature = fresh_entry path signature []

  abbrev pub write_png : Text → Text → List ℕ → Text → Option StateEntry → SyncContext → Outcome
  write_png key path bytes signature existing ctx =
      if run.dry_run
      then finished (keep_entry key (or_fresh existing (png_entry path signature)) ctx)
      else then_do (write_file path bytes ctx)
          (λ ctx'. finished (keep_entry key (png_entry path signature) ctx'))

  abbrev pub png_changed : Text → Text → List ℕ → Text → Option StateEntry → SyncContext → Outcome
  png_changed key path bytes signature existing ctx =
      then_do (gdoc_status_and_rename path existing ctx)
        (write_png key path bytes signature existing)

  abbrev pub png_unless : Text → Text → Option StateEntry → SyncContext → Outcome → Outcome
  png_unless key signature none ctx changed = changed
  png_unless key signature (some e) ctx changed =
      if text_eq e.content_signature signature
      then finished (count_unchanged key e ctx)
      else changed

  abbrev pub png_downloaded :
      Text → Text → Option Text → Option StateEntry → SyncContext → Option (List ℕ) → Outcome
  png_downloaded key path drive_md5 existing ctx none = raised ctx
  png_downloaded key path drive_md5 existing ctx (some bytes) =
      if ltb one_mib (length bytes)
      then finished (record ctx { counts = record ctx.counts { errors = ctx.counts.errors + 1 } })
      else png_checked drive_md5
    where
      png_checked : Option Text → Outcome
      png_checked none =
          let signature = png_signature (run.md5 bytes) in
          png_unless key signature existing ctx (png_changed key path bytes signature existing ctx)
      png_checked (some digest) = png_changed key path bytes (png_signature digest) existing ctx

  unfoldable pub process_png :
      Text → Text → Option Text → Option (List ℕ) → Option StateEntry → SyncContext → Outcome
  unfolding gdoc_status_and_rename
  process_png key path none download existing ctx =
      png_downloaded key path none existing ctx download
  process_png key path (some digest) download existing ctx =
      png_unless key (png_signature digest) existing ctx
        (png_downloaded key path (some digest) existing ctx download)
