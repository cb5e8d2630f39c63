-- ===== src/Drive/Dry.antt =====
-- A dry run counts what the run would count and leaves the disk.
use mathlib.Core.Path.{subst}
use archiviste_nocilia.Prelude.{
  ℕ, ◌+◌, Text, true, ◌≡◌, refl, Option, none, some, List, text_eq, Bool-cases, sym, ◌∙◌, ltb,
  length, inl, inr,
}
use archiviste_nocilia.Drive.Frontmatter.{write_gdoc}
use archiviste_nocilia.Drive.Sync.{
  StateEntry, SummaryCounts, SyncContext, Run, Disk, Outcome, finished, raised, aborted, then_do,
  rename_local_file, renamed_on, gdoc_status_and_rename, write_file, write_text, old_frontmatter,
  write_over, signature_of, is_unchanged, write_and_keep, apply_status, apply_state, one_mib,
  png_signature, png_changed, png_unless, png_downloaded, write_png, process_png, keep_entry,
  fresh_entry, or_fresh, png_entry, png_entry,
}

-- The same run as a dry one.
abbrev pub dry : Run → Run
dry run = record run { dry_run = true }

-- The counts that a call leaves, however it ends.
abbrev pub HasCounts : SummaryCounts → Outcome → Type 0
HasCounts counts (finished ctx) = ctx.counts ≡ counts
HasCounts counts (raised ctx) = ctx.counts ≡ counts
HasCounts counts (aborted ctx) = ctx.counts ≡ counts

-- The dry call returns, with the disk as it was, and the call itself has the same counts.
abbrev pub IsForetold : SyncContext → Outcome → Outcome → Type 0
IsForetold ctx (finished foretold) real =
    (foretold.disk ≡ ctx.disk) × HasCounts foretold.counts real
IsForetold ctx (raised foretold) real = (foretold.disk ≡ ctx.disk) × (real ≡ raised foretold)
IsForetold ctx (aborted foretold) real = ⊥

pub then_do-HasCounts :
    (counts : SummaryCounts) (o : Outcome) (next : SyncContext → Outcome)
    → HasCounts counts o
    → ((ctx : SyncContext) → ctx.counts ≡ counts → HasCounts counts (next ctx))
    → HasCounts counts (then_do o next)
then_do-HasCounts counts (finished ctx) next h k = k ctx h
then_do-HasCounts counts (raised ctx) next h k = h
then_do-HasCounts counts (aborted ctx) next h k = h

module _ (run : Run) where
  write_file-HasCounts :
      (path : Text) (content : List ℕ) (ctx : SyncContext)
      → HasCounts ctx.counts (write_file run path content ctx)
  write_file-HasCounts path content ctx = elim (Bool-cases (run.writes path)) [
    | inl e ↦ rw e refl
    | inr e ↦ rw e refl
  ]

  write_text-HasCounts :
      (path : Text) (ctx : SyncContext) (content : Option Text)
      → HasCounts ctx.counts (write_text run path ctx content)
  write_text-HasCounts path ctx none = refl
  write_text-HasCounts path ctx (some content) = write_file-HasCounts path content ctx

  write_over-HasCounts :
      (path title key drive_path body : Text) (ctx : SyncContext) (old : Option (Option Text))
      → HasCounts ctx.counts (write_over run path title key drive_path body ctx old)
  write_over-HasCounts path title key drive_path body ctx none = refl
  write_over-HasCounts path title key drive_path body ctx (some old_fm) =
      write_text-HasCounts path ctx
        (write_gdoc run.load run.dump title key drive_path run.now body old_fm)

  pub renamed_on-HasCounts :
      (ctx : SyncContext) (disk : Option Disk) → HasCounts ctx.counts (renamed_on run ctx disk)
  renamed_on-HasCounts ctx none = refl
  renamed_on-HasCounts ctx (some disk) = refl

  -- What follows the status counts nothing.
  pub write_and_keep-HasCounts :
      (key path title drive_path body : Text) (fresh : StateEntry) (existing : Option StateEntry)
      (c : SyncContext)
      → HasCounts c.counts (write_and_keep run key path title drive_path body fresh existing c)
  write_and_keep-HasCounts key path title drive_path body fresh existing c =
      elim (Bool-cases run.dry_run) [
        | inl d ↦ rw d refl
        | inr d ↦ rw d (
            then_do-HasCounts c.counts
              (write_over run path title key drive_path body c
                (old_frontmatter run path (c.disk path)))
              (λ ctx'. finished (keep_entry key fresh ctx'))
              (write_over-HasCounts path title key drive_path body c
                (old_frontmatter run path (c.disk path)))
              (λ c' q. q))
      ]

  pub write_png-HasCounts :
      (key path : Text) (bytes : List ℕ) (signature : Text) (existing : Option StateEntry)
      (c : SyncContext)
      → HasCounts c.counts (write_png run key path bytes signature existing c)
  write_png-HasCounts key path bytes signature existing c = elim (Bool-cases run.dry_run) [
    | inl d ↦ rw d refl
    | inr d ↦ rw d (
        then_do-HasCounts c.counts (write_file run path bytes c)
          (λ ctx'. finished (keep_entry key (png_entry run path signature) ctx'))
          (write_file-HasCounts path bytes c) (λ c' q. q))
  ]

  -- A step that counts nothing, behind the status, in the dry run and in the run.
  Foretells : (SyncContext → Outcome) → Type 0
  Foretells foretells =
      (c : SyncContext)
      → (d : SyncContext) × (foretells c ≡ finished d) × (d.disk ≡ c.disk) × (d.counts ≡ c.counts)

  IsForetold-step :
      (ctx c : SyncContext) (foretells : SyncContext → Outcome) (real : Outcome)
      → Foretells foretells
      → c.disk ≡ ctx.disk
      → HasCounts c.counts real
      → IsForetold ctx (foretells c) real
  unfolding Foretells
  IsForetold-step ctx c foretells real h same counts =
      let (d, e, p, q) = h c in
      subst (λ o. IsForetold ctx o real) (sym e)
        (p ∙ same, subst (λ n. HasCounts n real) (sym q) counts)

  status-IsForetold :
      (path : Text) (existing : Option StateEntry) (ctx : SyncContext)
      (foretells next : SyncContext → Outcome)
      → Foretells foretells
      → ((c : SyncContext) → HasCounts c.counts (next c))
      → IsForetold ctx
          (then_do (gdoc_status_and_rename (dry run) path existing ctx) foretells)
          (then_do (gdoc_status_and_rename run path existing ctx) next)
  unfolding gdoc_status_and_rename
  status-IsForetold path none ctx foretells next h k =
      let c = record ctx { counts = record ctx.counts { created = ctx.counts.created + 1 } } in
      IsForetold-step ctx c foretells (next c) h refl (k c)
  status-IsForetold path (some e) ctx foretells next h k =
      elim (Bool-cases (text_eq e.local_path path)) [
        | inl same ↦ rw same (
            let c = record ctx {
              counts = record ctx.counts { updated = ctx.counts.updated + 1 };
            } in
            IsForetold-step ctx c foretells (next c) h refl (k c))
        | inr moved ↦ rw moved (
            let c = record ctx {
              counts = record ctx.counts { renamed = ctx.counts.renamed + 1 };
            } in
            elim (Bool-cases run.dry_run) [
              | inl d ↦ rw d (IsForetold-step ctx c foretells (next c) h refl (k c))
              | inr d ↦ rw d (
                  IsForetold-step ctx c foretells
                    (then_do (renamed_on run c (rename_local_file run e.local_path path ctx.disk))
                      next)
                    h refl
                    (then_do-HasCounts c.counts
                      (renamed_on run c (rename_local_file run e.local_path path ctx.disk)) next
                      (renamed_on-HasCounts c (rename_local_file run e.local_path path ctx.disk))
                      (λ c' q. subst (λ n. HasCounts n (next c')) q (k c'))))
            ])
      ]

  apply_status-IsForetold :
      (key path title drive_path body : Text) (existing : Option StateEntry) (ctx : SyncContext)
      → IsForetold ctx
          (apply_status (dry run) key path title drive_path body existing ctx)
          (apply_status run key path title drive_path body existing ctx)
  unfolding Foretells
  apply_status-IsForetold key path title drive_path body existing ctx =
      let fresh = fresh_entry run path (signature_of run body) (run.sha256 body) in
      status-IsForetold path existing ctx
        (write_and_keep (dry run) key path title drive_path body fresh existing)
        (write_and_keep run key path title drive_path body fresh existing)
        (λ c. (keep_entry key (or_fresh run existing fresh) c, refl, refl, refl))
        (write_and_keep-HasCounts key path title drive_path body fresh existing)

  -- The same way on both sides is foretold.
  same-IsForetold :
      (ctx : SyncContext) (o : Outcome) (d : SyncContext)
      → o ≡ finished d
      → d.disk ≡ ctx.disk
      → IsForetold ctx o o
  same-IsForetold ctx o d e same = subst (λ x. IsForetold ctx x x) (sym e) (same, refl)

  png_changed-IsForetold :
      (key path : Text) (bytes : List ℕ) (signature : Text) (existing : Option StateEntry)
      (ctx : SyncContext)
      → IsForetold ctx
          (png_changed (dry run) key path bytes signature existing ctx)
          (png_changed run key path bytes signature existing ctx)
  unfolding Foretells
  png_changed-IsForetold key path bytes signature existing ctx =
      let fresh = png_entry run path signature in
      status-IsForetold path existing ctx (write_png (dry run) key path bytes signature existing)
        (write_png run key path bytes signature existing)
        (λ c. (keep_entry key (or_fresh run existing fresh) c, refl, refl, refl))
        (write_png-HasCounts key path bytes signature existing)

  png_unless-IsForetold :
      (key signature : Text) (existing : Option StateEntry) (ctx : SyncContext)
      (foretold real : Outcome)
      → IsForetold ctx foretold real
      → IsForetold ctx
          (png_unless (dry run) key signature existing ctx foretold)
          (png_unless run key signature existing ctx real)
  png_unless-IsForetold key signature none ctx foretold real h = h
  png_unless-IsForetold key signature (some e) ctx foretold real h =
      elim (Bool-cases (text_eq e.content_signature signature)) [
        | inl s ↦ rw s (refl, refl)
        | inr s ↦ rw s h
      ]

  png_downloaded-IsForetold :
      (key path : Text) (drive_md5 : Option Text) (existing : Option StateEntry) (ctx : SyncContext)
      (download : Option (List ℕ))
      → IsForetold ctx
          (png_downloaded (dry run) key path drive_md5 existing ctx download)
          (png_downloaded run key path drive_md5 existing ctx download)
  png_downloaded-IsForetold key path drive_md5 existing ctx none = (refl, refl)
  png_downloaded-IsForetold key path none existing ctx (some bytes) =
      elim (Bool-cases (ltb (one_mib run) (length bytes))) [
        | inl l ↦ rw l (refl, refl)
        | inr l ↦ rw l (
            png_unless-IsForetold key (png_signature run (run.md5 bytes)) existing ctx
              (png_changed (dry run) key path bytes (png_signature run (run.md5 bytes)) existing
                ctx)
              (png_changed run key path bytes (png_signature run (run.md5 bytes)) existing ctx)
              (png_changed-IsForetold key path bytes (png_signature run (run.md5 bytes)) existing
                ctx))
      ]
  png_downloaded-IsForetold key path (some digest) existing ctx (some bytes) =
      elim (Bool-cases (ltb (one_mib run) (length bytes))) [
        | inl l ↦ rw l (refl, refl)
        | inr l ↦
            rw l (png_changed-IsForetold key path bytes (png_signature run digest) existing ctx)
      ]

-- The dry run of a rendered file writes nothing and has the counts of the run, where this is not
-- ended by an error of YAML: what it tells to be created, updated, renamed or unchanged is what the run
-- counts so, even if a rename or a write fails then.
pub apply_state-IsForetold :
    (run : Run) (key path title drive_path body : Text) (existing : Option StateEntry)
    (ctx : SyncContext)
    → IsForetold ctx
        (apply_state (dry run) key path title drive_path body existing ctx)
        (apply_state run key path title drive_path body existing ctx)
unfolding apply_state
apply_state-IsForetold run key path title drive_path body none ctx =
    apply_status-IsForetold run key path title drive_path body none ctx
apply_state-IsForetold run key path title drive_path body (some e) ctx =
    elim (Bool-cases (is_unchanged run path (signature_of run body) (some e))) [
      | inl u ↦ rw u (refl, refl)
      | inr u ↦ rw u (apply_status-IsForetold run key path title drive_path body (some e) ctx)
    ]

-- The dry run of an image writes nothing and has the counts of the run, or both raise with the counts as
-- they were.
pub process_png-IsForetold :
    (run : Run) (key path : Text) (drive_md5 : Option Text) (download : Option (List ℕ))
    (existing : Option StateEntry) (ctx : SyncContext)
    → IsForetold ctx
        (process_png (dry run) key path drive_md5 download existing ctx)
        (process_png run key path drive_md5 download existing ctx)
unfolding process_png
process_png-IsForetold run key path none download existing ctx =
    png_downloaded-IsForetold run key path none existing ctx download
process_png-IsForetold run key path (some digest) download existing ctx =
    png_unless-IsForetold run key (png_signature run digest) existing ctx
      (png_downloaded (dry run) key path (some digest) existing ctx download)
      (png_downloaded run key path (some digest) existing ctx download)
      (png_downloaded-IsForetold run key path (some digest) existing ctx download)
