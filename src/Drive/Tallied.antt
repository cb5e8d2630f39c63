-- ===== src/Drive/Tallied.antt =====
-- A Google Doc is counted once too, whatever its images do.
use mathlib.Core.Path.{subst}
use archiviste_nocilia.Prelude.{
  ℕ, ◌+◌, Text, Bool, true, false, not, ◌&&◌, ◌≡◌, refl, ◌∙◌, Option, none, some, List, [], ◌∷◌,
  text_eq, arith, ltb, either_way,
}
use archiviste_nocilia.Prelude.Decimal.{utf8_length}
use archiviste_nocilia.Drive.Assoc.{get_at}
use archiviste_nocilia.Drive.Docs.{Document, extract_inline_objects, render_doc_markdown}
use archiviste_nocilia.Drive.Images.{
  CompressedImage, Compressed, compressed, oversized, undecodable, save_error, compress_image,
  compute_image_path, before_dot,
}
use archiviste_nocilia.Drive.Sync.{
  StateEntry, SummaryCounts, SyncContext, Run, Disk, Outcome, finished, raised, aborted, then_do,
  gdoc_status_and_rename, signature_of, is_unchanged, one_mib,
}
use archiviste_nocilia.Drive.Sidecars.{
  Shelf, Download, downloaded, refused, network_error, escapes, Gathered, Gathering, gathered,
  gather_raised, gather_aborted, write_image, register_new, register, take_download,
  resolve_one_image, process_doc_images, rename_sidecar, remove_orphans, stem_of, sidecar_of,
  then_gather,
}
use archiviste_nocilia.Drive.Gdocs.{
  normalize_body, moved_sidecar, move_sidecar, has_same_images, cleaned, clear_orphans, doc_entry,
  write_doc, write_unless, apply_body, after_images, process_gdoc,
}
use archiviste_nocilia.Drive.Tabs.{drive_path_of}
use archiviste_nocilia.Drive.Dry.{HasCounts, write_and_keep-HasCounts}
use archiviste_nocilia.Drive.Covered.{good, Fits, IsAtWork, Covers, then_do-Covers, status-Covers}

-- The total, the good files and the errors are as they were; the counts of images may differ.
abbrev pub SameTally : SummaryCounts → SummaryCounts → Type 0
SameTally a b = (a.total ≡ b.total) × ((good a ≡ good b) × (a.errors ≡ b.errors))

abbrev pub Tallies : SummaryCounts → Outcome → Type 0
Tallies counts (finished ctx) = SameTally ctx.counts counts
Tallies counts (raised ctx) = SameTally ctx.counts counts
Tallies counts (aborted ctx) = SameTally ctx.counts counts

HasCounts-Tallies : (counts : SummaryCounts) (o : Outcome) → HasCounts counts o → Tallies counts o
HasCounts-Tallies counts (finished ctx) h =
    subst (λ c. SameTally ctx.counts c) h (refl, (refl, refl))
HasCounts-Tallies counts (raised ctx) h = subst (λ c. SameTally ctx.counts c) h (refl, (refl, refl))
HasCounts-Tallies counts (aborted ctx) h =
    subst (λ c. SameTally ctx.counts c) h (refl, (refl, refl))

Tallies-Covers : (counts : SummaryCounts) (o : Outcome) → Tallies counts o → Fits counts → Covers o
Tallies-Covers counts (finished ctx) (t, s) h = omega arith
Tallies-Covers counts (raised ctx) (t, s) h = omega arith
Tallies-Covers counts (aborted ctx) (t, s) h = omega arith

then_do-Tallies :
    (counts : SummaryCounts) (o : Outcome) (next : SyncContext → Outcome)
    → Tallies counts o
    → ((c : SyncContext) → Tallies c.counts (next c))
    → Tallies counts (then_do o next)
then_do-Tallies counts (finished ctx) next (t, (s, e)) k = moved (next ctx) (k ctx)
  where
    moved : (o : Outcome) → Tallies ctx.counts o → Tallies counts o
    moved (finished c) (t', (s', e')) = (t' ∙ t, (s' ∙ s, e' ∙ e))
    moved (raised c) (t', (s', e')) = (t' ∙ t, (s' ∙ s, e' ∙ e))
    moved (aborted c) (t', (s', e')) = (t' ∙ t, (s' ∙ s, e' ∙ e))
then_do-Tallies counts (raised ctx) next h k = h
then_do-Tallies counts (aborted ctx) next h k = h

-- A step that tallies, in front of one that counts the file at work.
then_do-Pending :
    (counts : SummaryCounts) (o : Outcome) (next : SyncContext → Outcome)
    → Tallies counts o
    → IsAtWork counts
    → ((c : SyncContext) → IsAtWork c.counts → Covers (next c))
    → Covers (then_do o next)
then_do-Pending counts (finished ctx) next (t, s) h k = k ctx (omega arith)
then_do-Pending counts (raised ctx) next (t, s) h k = omega arith
then_do-Pending counts (aborted ctx) next (t, s) h k = omega arith

-- The same for the loop over the images.
abbrev Gathers : SummaryCounts → Gathering → Type 0
Gathers counts (gathered g) = SameTally g.ctx.counts counts
Gathers counts (gather_raised ctx) = SameTally ctx.counts counts
Gathers counts (gather_aborted ctx) = SameTally ctx.counts counts

module _ (run : Run) (shelf : Shelf) (slug : Text) (components : List Text) where
  write_image-Gathers :
      (id : Text) (image : CompressedImage) (g : Gathered) (path : Option Text)
      → Gathers g.ctx.counts (write_image run shelf slug components id image g path)
  write_image-Gathers id image g none = (refl, (refl, refl))
  write_image-Gathers id image g (some path) =
      either_way (Gathers g.ctx.counts) (run.writes path) _ _ (refl, (refl, refl))
        (refl, (refl, refl))

  register_new-Gathers :
      (id : Text) (image : CompressedImage) (g : Gathered) (known : Option Text)
      → Gathers g.ctx.counts (register_new run shelf slug components id image g known)
  unfolding compute_image_path
  register_new-Gathers id image g (some path) = (refl, (refl, refl))
  register_new-Gathers id image g none = write_image-Gathers id image g (
      compute_image_path shelf.under_root shelf.root components slug image.md5_hex_12
        image.ext_final)

  register-Gathers :
      (id : Text) (g : Gathered) (c : Compressed)
      → Gathers g.ctx.counts (register run shelf slug components id g c)
  unfolding compute_image_path
  register-Gathers id g (compressed image) =
      register_new-Gathers id image g (get_at image.md5_hex_12 g.md5_to_rel_path)
  register-Gathers id g (oversized size) = (refl, (refl, refl))
  register-Gathers id g undecodable = (refl, (refl, refl))
  register-Gathers id g save_error = (refl, (refl, refl))

  take_download-Gathers :
      (id : Text) (g : Gathered) (d : Download)
      → Gathers g.ctx.counts (take_download run shelf slug components id g d)
  unfolding compute_image_path compress_image
  take_download-Gathers id g (downloaded raw mime) =
      register-Gathers id g (compress_image shelf.pillow raw mime)
  take_download-Gathers id g refused = (refl, (refl, refl))
  take_download-Gathers id g network_error = (refl, (refl, refl))
  take_download-Gathers id g escapes = (refl, (refl, refl))

  resolve_one_image-Gathers :
      (index : ℕ) (id uri : Text) (g : Gathered)
      → Gathers g.ctx.counts (resolve_one_image run shelf slug components index id uri g)
  unfolding resolve_one_image
  resolve_one_image-Gathers index id uri g =
      either_way (Gathers g.ctx.counts) run.dry_run _ _ (refl, (refl, refl))
        (take_download-Gathers id g (shelf.fetch_image uri))

  onward-Gathers :
      (counts : SummaryCounts) (h : Gathered) (r : Gathering)
      → SameTally h.ctx.counts counts
      → Gathers h.ctx.counts r
      → Gathers counts r
  onward-Gathers counts h (gathered k) (t, (s, e)) (t', (s', e')) = (t' ∙ t, (s' ∙ s, e' ∙ e))
  onward-Gathers counts h (gather_raised c) (t, (s, e)) (t', (s', e')) = (t' ∙ t, (s' ∙ s, e' ∙ e))
  onward-Gathers counts h (gather_aborted c) (t, (s, e)) (t', (s', e')) = (t' ∙ t, (s' ∙ s, e' ∙ e))

  then_gather-Gathers :
      (counts : SummaryCounts) (r : Gathering) (next : Gathered → Gathering)
      → Gathers counts r
      → ((h : Gathered) → Gathers h.ctx.counts (next h))
      → Gathers counts (then_gather run shelf slug components r next)
  then_gather-Gathers counts (gathered h) next same k = onward-Gathers counts h (next h) same (k h)
  then_gather-Gathers counts (gather_raised c) next same k = same
  then_gather-Gathers counts (gather_aborted c) next same k = same

  process_doc_images-Gathers :
      (index : ℕ) (objects : List (Text × Text)) (g : Gathered)
      → Gathers g.ctx.counts (process_doc_images run shelf slug components index objects g)
  unfolding process_doc_images
  process_doc_images-Gathers index [] g = (refl, (refl, refl))
  process_doc_images-Gathers index (o ∷ objects) g =
      then_gather-Gathers g.ctx.counts (resolve_one_image run shelf slug components index o.0 o.1 g)
        _ (resolve_one_image-Gathers index o.0 o.1 g)
        (λ h. process_doc_images-Gathers (index + 1) objects h)

module _ (run : Run) (shelf : Shelf) (nfkc : Text → Text) (id name : Text) (components : List Text)
    (path : Text) where
  moved_sidecar-Tallies :
      (ctx : SyncContext) (disk : Option Disk)
      → Tallies ctx.counts (moved_sidecar run shelf nfkc id name components path ctx disk)
  moved_sidecar-Tallies ctx none = (refl, (refl, refl))
  moved_sidecar-Tallies ctx (some disk) = (refl, (refl, refl))

  move_sidecar-Tallies :
      (existing : Option StateEntry) (ctx : SyncContext)
      → Tallies ctx.counts (move_sidecar run shelf nfkc id name components path existing ctx)
  unfolding rename_sidecar
  move_sidecar-Tallies none ctx = (refl, (refl, refl))
  move_sidecar-Tallies (some e) ctx =
      either_way (Tallies ctx.counts) (not (text_eq e.local_path path) && not run.dry_run) _ _
        (moved_sidecar-Tallies ctx (rename_sidecar run shelf e.local_path path ctx.disk))
        (refl, (refl, refl))

  cleaned-Tallies :
      (ctx : SyncContext) (r : Disk × ℕ × Bool)
      → Tallies ctx.counts (cleaned run shelf nfkc id name components path ctx r)
  cleaned-Tallies ctx (disk, removed, true) = (refl, (refl, refl))
  cleaned-Tallies ctx (disk, removed, false) = (refl, (refl, refl))

  clear_orphans-Tallies :
      (manifest : List (Text × Text)) (existing : Option StateEntry) (ctx : SyncContext)
      → Tallies ctx.counts
          (clear_orphans run shelf nfkc id name components path manifest existing ctx)
  unfolding sidecar_of before_dot
  clear_orphans-Tallies manifest existing ctx =
      let dir = sidecar_of path in
      let P = Tallies ctx.counts in
      either_way P run.dry_run _ _
        (either_way P (shelf.is_dir ctx.disk dir) _ _ (refl, (refl, refl)) (refl, (refl, refl)))
        (either_way P (not (shelf.under_root dir)) _ _ (refl, (refl, refl))
          (either_way P (not (shelf.is_dir ctx.disk dir)) _ _ (refl, (refl, refl))
            (cleaned-Tallies ctx
              (remove_orphans run shelf dir manifest (shelf.listing ctx.disk dir) ctx.disk 0))))

  write_doc-Covers :
      (body : Text) (manifest : List (Text × Text)) (existing : Option StateEntry)
      (ctx : SyncContext)
      → IsAtWork ctx.counts
      → Covers (write_doc run shelf nfkc id name components path body manifest existing ctx)
  write_doc-Covers body manifest existing ctx h =
      then_do-Covers (gdoc_status_and_rename run path existing ctx) _
        (alone (gdoc_status_and_rename run path existing ctx)
          (status-Covers run path existing ctx (λ c. finished c) h (λ c. refl)))
        (λ c k.
          Tallies-Covers c.counts _
            (then_do-Tallies c.counts
              (clear_orphans run shelf nfkc id name components path manifest existing c) _
              (clear_orphans-Tallies manifest existing c)
              (λ d. HasCounts-Tallies d.counts _ (
                write_and_keep-HasCounts run id path name (drive_path_of components name) body
                  (doc_entry run shelf nfkc id name components path body manifest) existing d)))
            k)
    where
      alone : (o : Outcome) → Covers (then_do o (λ c. finished c)) → Covers o
      alone (finished c) k = k
      alone (raised c) k = k
      alone (aborted c) k = k

  write_unless-Covers :
      (body : Text) (manifest : List (Text × Text)) (existing : Option StateEntry)
      (ctx : SyncContext)
      → IsAtWork ctx.counts
      → Covers (write_unless run shelf nfkc id name components path body manifest existing ctx)
  write_unless-Covers body manifest none ctx h = write_doc-Covers body manifest none ctx h
  write_unless-Covers body manifest (some e) ctx h =
      either_way Covers
        (is_unchanged run path (signature_of run body) (some e)
          && has_same_images run shelf nfkc id name components path (some e) manifest)
        _ _ (omega arith) (write_doc-Covers body manifest (some e) ctx h)

  apply_body-Covers :
      (existing : Option StateEntry) (manifest : List (Text × Text)) (ctx : SyncContext)
      (body : Text)
      → IsAtWork ctx.counts
      → Covers (apply_body run shelf nfkc id name components path existing manifest ctx body)
  unfolding utf8_length
  apply_body-Covers existing manifest ctx body h =
      either_way Covers (ltb (one_mib run) (utf8_length body)) _ _ (omega arith)
        (write_unless-Covers body manifest existing ctx h)

  after_images-Covers :
      (doc : Document) (existing : Option StateEntry) (counts : SummaryCounts) (g : Gathering)
      → IsAtWork counts
      → Gathers counts g
      → Covers (after_images run shelf nfkc id name components path doc existing g)
  unfolding render_doc_markdown normalize_body
  after_images-Covers doc existing counts (gathered g) h (t, s) =
      apply_body-Covers existing g.manifest g.ctx
        (normalize_body nfkc (render_doc_markdown doc g.resolutions)) (omega arith)
  after_images-Covers doc existing counts (gather_raised ctx) h (t, s) = omega arith
  after_images-Covers doc existing counts (gather_aborted ctx) h (t, s) = omega arith

  pub process_gdoc-Covers :
      (existing : Option StateEntry) (doc : Option Document) (ctx : SyncContext)
      → IsAtWork ctx.counts
      → Covers (process_gdoc run shelf nfkc id name components path existing doc ctx)
  unfolding process_gdoc extract_inline_objects
  process_gdoc-Covers existing none ctx h = omega arith
  process_gdoc-Covers existing (some doc) ctx h =
      then_do-Pending ctx.counts (move_sidecar run shelf nfkc id name components path existing ctx)
        _ (move_sidecar-Tallies existing ctx) h
        (λ c k.
          after_images-Covers doc existing c.counts
            (process_doc_images run shelf (stem_of path) components 0 (extract_inline_objects doc)
              (record { ctx = c; resolutions = []; manifest = []; md5_to_rel_path = [] }))
            k
            (process_doc_images-Gathers run shelf (stem_of path) components 0
              (extract_inline_objects doc)
              (record { ctx = c; resolutions = []; manifest = []; md5_to_rel_path = [] })))
