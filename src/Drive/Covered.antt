-- ===== src/Drive/Covered.antt =====
-- The files that one call counts, against its statuses.
use mathlib.Core.Path.{subst}
use archiviste_nocilia.Prelude.{
  ℕ, Bool, true, false, ◌+◌, ◌≤◌, Text, sym, Option, none, some, List, ◌++◌, codes, text_eq,
  if◌then◌else◌, Bool-cases, arith, ltb, length, inl, inr,
}
use archiviste_nocilia.Prelude.Decimal.{utf8_length}
use archiviste_nocilia.Drive.Sync.{
  StateEntry, SummaryCounts, SyncContext, Run, Disk, Outcome, finished, raised, aborted, then_do,
  rename_local_file, renamed_on, gdoc_status_and_rename, signature_of, fresh_entry, is_unchanged,
  write_and_keep, apply_state, one_mib, png_signature, png_changed, png_unless, png_downloaded,
  write_png, process_png, count_one,
}
use archiviste_nocilia.Drive.Archive.{
  is_markdown, set_archived, archived_on, archive_at, set_archived_frontmatter,
}
use archiviste_nocilia.Drive.Dry.{
  HasCounts, then_do-HasCounts, write_and_keep-HasCounts, write_png-HasCounts, renamed_on-HasCounts,
}
use archiviste_nocilia.Drive.Tabs.{
  apply_gslide_state, process_gslide, build_tab_title, escape_slash, drive_path_of, apply_tab_state,
  process_tab,
}

-- The files that have ended well, and the statuses of all files.
abbrev pub good : SummaryCounts → ℕ
good c = c.created + (c.updated + (c.renamed + (c.archived + c.unchanged)))

abbrev pub statuses : SummaryCounts → ℕ
statuses c = good c + c.errors

-- Every file of the total has a status, and the good ones are files of it.
abbrev pub Fits : SummaryCounts → Type 0
Fits c = (good c ≤ c.total) × (c.total ≤ statuses c)

-- The same with one file at work, which has no good status yet.
abbrev pub IsAtWork : SummaryCounts → Type 0
IsAtWork c = (good c + 1 ≤ c.total) × (c.total ≤ statuses c + 1)

-- With one file at work, which may have a status.
abbrev pub IsLeft : SummaryCounts → Type 0
IsLeft c = (good c ≤ c.total) × (c.total ≤ statuses c + 1)

-- A call that returns has counted every file, one that raises may lack the one at work.
abbrev pub Covers : Outcome → Type 0
Covers (finished ctx) = Fits ctx.counts
Covers (raised ctx) = IsLeft ctx.counts
Covers (aborted ctx) = IsLeft ctx.counts

Fits-IsLeft : (c : SummaryCounts) → Fits c → IsLeft c
Fits-IsLeft c (few, all) = (few, omega arith)

HasCounts-Covers :
    (counts : SummaryCounts) (o : Outcome) → HasCounts counts o → Fits counts → Covers o
HasCounts-Covers counts (finished ctx) h k = subst Fits (sym h) k
HasCounts-Covers counts (raised ctx) h k = subst IsLeft (sym h) (Fits-IsLeft counts k)
HasCounts-Covers counts (aborted ctx) h k = subst IsLeft (sym h) (Fits-IsLeft counts k)

pub then_do-Covers :
    (o : Outcome) (next : SyncContext → Outcome)
    → Covers o
    → ((c : SyncContext) → Fits c.counts → Covers (next c))
    → Covers (then_do o next)
then_do-Covers (finished ctx) next h k = k ctx h
then_do-Covers (raised ctx) next h k = h
then_do-Covers (aborted ctx) next h k = h

module _ (run : Run) where
  -- A status makes up for the file at work, and what follows counts nothing.
  pub status-Covers :
      (path : Text) (existing : Option StateEntry) (ctx : SyncContext)
      (next : SyncContext → Outcome)
      → IsAtWork ctx.counts
      → ((c : SyncContext) → HasCounts c.counts (next c))
      → Covers (then_do (gdoc_status_and_rename run path existing ctx) next)
  unfolding gdoc_status_and_rename
  status-Covers path none ctx next h k =
      let c = record ctx { counts = record ctx.counts { created = ctx.counts.created + 1 } } in
      HasCounts-Covers c.counts (next c) (k c) (omega arith)
  status-Covers path (some e) ctx next h k = elim (Bool-cases (text_eq e.local_path path)) [
    | inl same ↦ rw same (
        let c = record ctx { counts = record ctx.counts { updated = ctx.counts.updated + 1 } } in
        HasCounts-Covers c.counts (next c) (k c) (omega arith))
    | inr moved ↦ rw moved (
        let c = record ctx { counts = record ctx.counts { renamed = ctx.counts.renamed + 1 } } in
        let disk = rename_local_file run e.local_path path ctx.disk in
        elim (Bool-cases run.dry_run) [
          | inl d ↦ rw d (HasCounts-Covers c.counts (next c) (k c) (omega arith))
          | inr d ↦ rw d (
              HasCounts-Covers c.counts (then_do (renamed_on run c disk) next)
                (then_do-HasCounts c.counts (renamed_on run c disk) next
                  (renamed_on-HasCounts run c disk)
                  (λ c' q. subst (λ n. HasCounts n (next c')) q (k c')))
                (omega arith))
        ])
  ]

  apply_state-Covers :
      (key path title drive_path body : Text) (existing : Option StateEntry) (ctx : SyncContext)
      → IsAtWork ctx.counts
      → Covers (apply_state run key path title drive_path body existing ctx)
  unfolding apply_state
  apply_state-Covers key path title drive_path body none ctx h =
      status-Covers path none ctx
        (write_and_keep run key path title drive_path body
          (fresh_entry run path (signature_of run body) (run.sha256 body)) none)
        h
        (write_and_keep-HasCounts run key path title drive_path body
          (fresh_entry run path (signature_of run body) (run.sha256 body)) none)
  apply_state-Covers key path title drive_path body (some e) ctx h =
      elim (Bool-cases (is_unchanged run path (signature_of run body) (some e))) [
        | inl u ↦ rw u (omega arith)
        | inr u ↦ rw u (
            status-Covers path (some e) ctx
              (write_and_keep run key path title drive_path body
                (fresh_entry run path (signature_of run body) (run.sha256 body)) (some e))
              h
              (write_and_keep-HasCounts run key path title drive_path body
                (fresh_entry run path (signature_of run body) (run.sha256 body)) (some e)))
      ]

  png_changed-Covers :
      (key path : Text) (bytes : List ℕ) (signature : Text) (existing : Option StateEntry)
      (ctx : SyncContext)
      → IsAtWork ctx.counts
      → Covers (png_changed run key path bytes signature existing ctx)
  png_changed-Covers key path bytes signature existing ctx h =
      status-Covers path existing ctx (write_png run key path bytes signature existing) h
        (write_png-HasCounts run key path bytes signature existing)

  png_unless-Covers :
      (key signature : Text) (existing : Option StateEntry) (ctx : SyncContext) (changed : Outcome)
      → IsAtWork ctx.counts
      → Covers changed
      → Covers (png_unless run key signature existing ctx changed)
  png_unless-Covers key signature none ctx changed h k = k
  png_unless-Covers key signature (some e) ctx changed h k =
      elim (Bool-cases (text_eq e.content_signature signature)) [
        | inl s ↦ rw s (omega arith)
        | inr s ↦ rw s k
      ]

  png_downloaded-Covers :
      (key path : Text) (drive_md5 : Option Text) (existing : Option StateEntry) (ctx : SyncContext)
      (download : Option (List ℕ))
      → IsAtWork ctx.counts
      → Covers (png_downloaded run key path drive_md5 existing ctx download)
  png_downloaded-Covers key path drive_md5 existing ctx none h = omega arith
  png_downloaded-Covers key path none existing ctx (some bytes) h =
      elim (Bool-cases (ltb (one_mib run) (length bytes))) [
        | inl l ↦ rw l (omega arith)
        | inr l ↦ rw l (
            png_unless-Covers key (png_signature run (run.md5 bytes)) existing ctx
              (png_changed run key path bytes (png_signature run (run.md5 bytes)) existing ctx) h
              (png_changed-Covers key path bytes (png_signature run (run.md5 bytes)) existing ctx
                h))
      ]
  png_downloaded-Covers key path (some digest) existing ctx (some bytes) h =
      elim (Bool-cases (ltb (one_mib run) (length bytes))) [
        | inl l ↦ rw l (omega arith)
        | inr l ↦ rw l (png_changed-Covers key path bytes (png_signature run digest) existing ctx h)
      ]

  pub process_png-Covers :
      (key path : Text) (drive_md5 : Option Text) (download : Option (List ℕ))
      (existing : Option StateEntry) (ctx : SyncContext)
      → IsAtWork ctx.counts
      → Covers (process_png run key path drive_md5 download existing ctx)
  unfolding process_png
  process_png-Covers key path none download existing ctx h =
      png_downloaded-Covers key path none existing ctx download h
  process_png-Covers key path (some digest) download existing ctx h =
      png_unless-Covers key (png_signature run digest) existing ctx
        (png_downloaded run key path (some digest) existing ctx download) h
        (png_downloaded-Covers key path (some digest) existing ctx download h)

  pub process_gslide-Covers :
      (id name : Text) (components : List Text) (path : Text) (existing : Option StateEntry)
      (body : Option Text) (ctx : SyncContext)
      → IsAtWork ctx.counts
      → Covers (process_gslide run id name components path existing body ctx)
  unfolding process_gslide apply_gslide_state
  process_gslide-Covers id name components path existing none ctx h = omega arith
  process_gslide-Covers id name components path existing (some body) ctx h =
      elim (Bool-cases (ltb (one_mib run) (utf8_length body))) [
        | inl l ↦ rw l (omega arith)
        | inr l ↦
            rw l
              (apply_state-Covers id path name (drive_path_of components name) body existing ctx h)
      ]

  pub process_tab-Covers :
      (source_id path title name folder : Text) (existing : Option StateEntry) (body : Option Text)
      (ctx : SyncContext)
      → Fits ctx.counts
      → Covers (process_tab run source_id path title name folder existing body ctx)
  unfolding apply_tab_state
  process_tab-Covers source_id path title name folder existing none ctx h = omega arith
  process_tab-Covers source_id path title name folder existing (some body) ctx h =
      elim (Bool-cases (ltb (one_mib run) (utf8_length body))) [
        | inl l ↦ rw l (omega arith)
        | inr l ↦ rw l (
            apply_state-Covers source_id path (build_tab_title name title)
              (folder ++ (codes "/" ++ escape_slash title)) body existing (count_one run ctx)
              (omega arith))
      ]

  archived_on-Covers :
      (key : Text) (entry : StateEntry) (ctx : SyncContext) (disk : Disk × Bool)
      → Fits ctx.counts
      → Covers (archived_on run key entry ctx disk)
  archived_on-Covers key entry ctx (disk, false) h = omega arith
  archived_on-Covers key entry ctx (disk, true) h = omega arith

  pub archive_at-Covers :
      (key : Text) (entry : StateEntry) (ctx : SyncContext) (at : Option Text)
      → Fits ctx.counts
      → Covers (archive_at run key entry ctx at)
  unfolding set_archived_frontmatter
  archive_at-Covers key entry ctx (some at) h = omega arith
  archive_at-Covers key entry ctx none h = elim (Bool-cases run.dry_run) [
    | inl d ↦ rw d (omega arith)
    | inr d ↦ rw d (
        archived_on-Covers key entry ctx
          (if is_markdown entry.local_path
            then set_archived run entry.local_path ctx.disk (ctx.disk entry.local_path)
            else (ctx.disk, true))
          h)
  ]
