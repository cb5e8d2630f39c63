-- ===== src/Drive/Sidecars.antt =====
-- The files beside a document: its sidecar directory with the images, as `rename_sidecar` and `cleanup_orphans` of images.py and
-- `_process_doc_images` of sync.py treat it.
use archiviste_nocilia.Prelude.{
  ℕ, ◌+◌, Text, Bool, true, false, not, Option, none, some, List, [], ◌∷◌, ◌++◌, eqb, ltb,
  if◌then◌else◌, codes, length,
}
use archiviste_nocilia.Prelude.Decimal.{show_nat}
use archiviste_nocilia.Drive.Assoc.{set_at, get_at, has_at}
use archiviste_nocilia.Drive.Frontmatter.{drop_prefix}
use archiviste_nocilia.Drive.Images.{
  Pillow, CompressedImage, Compressed, compressed, oversized, undecodable, save_error,
  compress_image, compute_image_path, before_dot,
}
use archiviste_nocilia.Drive.Docs.{ImageResolution, ok, failed, Resolutions, join_with}
use archiviste_nocilia.Drive.Sync.{SyncContext, Run, Disk, set_file}

-- How the download of an image ends: its bytes and type, a DriveApiError, an OSError, or an error of the transport that is neither.
pub data Download : Type 0 where
  downloaded : List ℕ → Text → Download
  refused network_error escapes : Download

-- What the work on the images of a document needs besides the run.
pub record Shelf : Type 0 where
  pub root : Text
  pub under_root : Text → Bool
  pub pillow : Pillow
  pub fetch_image : Text → Download
  pub is_dir : Disk → Text → Bool
  pub listing : Disk → Text → List Text
  pub unlinks : Text → Bool
  pub moves : Text → Text → Bool

-- `path.parent` and `path.name`: what is before and behind the last slash
unfoldable pub split_name : Text → Text × Text
split_name [] = ([], [])
split_name (c ∷ s) = join (split_name s)
  where
    join : Text × Text → Text × Text
    join ([], name) = if eqb c b'/' then (c ∷ [], name) else ([], c ∷ name)
    join (d ∷ parent, name) = (c ∷ d ∷ parent, name)

-- `path.stem`: the name up to its last dot
abbrev pub stem_from : Text → Option Text
stem_from [] = none
stem_from (c ∷ s) = or_here (stem_from s)
  where
    or_here : Option Text → Option Text
    or_here (some stem) = some (c ∷ stem)
    or_here none = if eqb c b'.' then some [] else none

abbrev pub stem_or : Text → Option Text → Text
stem_or name none = name
stem_or name (some stem) = stem

unfoldable pub stem_of : Text → Text
unfolding split_name
stem_of path = let name = (split_name path).1 in stem_or name (stem_from name)

-- `path.parent / f"{path.stem}.images"`; the parent ends in its slash
unfoldable pub sidecar_of : Text → Text
unfolding split_name stem_of
sidecar_of path = (split_name path).0 ++ (stem_of path ++ codes ".images")

-- A directory with what is in it gets another name.
abbrev pub move_dir : Text → Text → Disk → Disk
unfolding drop_prefix
move_dir old new disk =
    λ q. pick q (drop_prefix (new ++ codes "/") q) (drop_prefix (old ++ codes "/") q)
  where
    pick : Text → Option Text → Option Text → Option (List ℕ)
    pick q (some rest) _ = disk (old ++ (codes "/" ++ rest))
    pick q none (some rest) = none
    pick q none none = disk q

-- What the loop over the images of a document gathers.
pub record Gathered : Type 0 where
  pub ctx : SyncContext
  pub resolutions : Resolutions
  pub manifest : List (Text × Text)
  pub md5_to_rel_path : List (Text × Text)

-- The loop returns, or an error leaves it: one that `_process_file` catches, or not.
pub data Gathering : Type 0 where
  gathered : Gathered → Gathering
  gather_raised gather_aborted : SyncContext → Gathering

module _ (run : Run) (shelf : Shelf) where
  -- `rename_sidecar`; `none` is an OSError.
  unfoldable pub rename_sidecar : Text → Text → Disk → Option Disk
  unfolding sidecar_of drop_prefix
  rename_sidecar old new disk =
      if not (shelf.is_dir disk (sidecar_of old))
      then some disk
      else if shelf.moves (sidecar_of old) (sidecar_of new)
      then some (move_dir (sidecar_of old) (sidecar_of new) disk)
      else none

  -- The loop of `cleanup_orphans`: the disk and the files removed, and whether an OSError ended it.
  abbrev pub remove_orphans : Text → List (Text × Text) → List Text → Disk → ℕ → Disk × ℕ × Bool
  unfolding before_dot
  remove_orphans dir kept [] disk removed = (disk, removed, true)
  remove_orphans dir kept (name ∷ names) disk removed =
      let path = dir ++ (codes "/" ++ name) in
      let next = remove_orphans dir kept names disk removed in
      let gone = remove_orphans dir kept names (set_file path none disk) (removed + 1) in
      if has_at (before_dot name) kept
      then next
      else if shelf.unlinks path
      then gone
      else (disk, removed, false)

  abbrev pub zero_pad : Text → Text
  zero_pad s = if ltb (length s) 4 then pad (length s) s else s
    where
      pad : ℕ → Text → Text
      pad n s =
          if eqb n 1 then codes "000" ++ s else if eqb n 2 then codes "00" ++ s else codes "0" ++ s

  abbrev pub count_failed : SyncContext → SyncContext
  count_failed ctx = record ctx {
    counts = record ctx.counts { images_failed = ctx.counts.images_failed + 1 };
  }

  abbrev pub resolve_as : Text → ImageResolution → Gathered → Gathered
  resolve_as id r g = record g { resolutions = set_at id r g.resolutions }

  abbrev pub fail_as : Text → ImageResolution → Gathered → Gathering
  fail_as id r g =
      gathered (record g { resolutions = set_at id r g.resolutions; ctx = count_failed g.ctx })

  module _ (doc_slug : Text) (components : List Text) where
    abbrev pub rel_path : CompressedImage → Text
    rel_path image =
        doc_slug ++ (codes ".images/" ++ (image.md5_hex_12 ++ (codes "." ++ image.ext_final)))

    abbrev pub count_written : SyncContext → SyncContext
    count_written ctx = record ctx {
      counts = record ctx.counts { images_written = ctx.counts.images_written + 1 };
    }

    abbrev pub write_image : Text → CompressedImage → Gathered → Option Text → Gathering
    write_image id image g none = fail_as id failed g
    write_image id image g (some path) =
        if run.writes path
        then gathered (record {
          ctx =
              count_written
                (record g.ctx { disk = set_file path (some image.bytes_final) g.ctx.disk });
          resolutions = set_at id (ok (rel_path image)) g.resolutions;
          manifest =
              set_at image.md5_hex_12 (join_with (codes "/") (components ++ rel_path image ∷ []))
                g.manifest;
          md5_to_rel_path = set_at image.md5_hex_12 (rel_path image) g.md5_to_rel_path;
        })
        else fail_as id failed
            (record g { ctx = record g.ctx { disk = set_file path (run.torn path) g.ctx.disk } })

    -- An image that the document has already is not written again.
    abbrev pub register_new : Text → CompressedImage → Gathered → Option Text → Gathering
    unfolding compute_image_path
    register_new id image g (some path) = gathered (resolve_as id (ok path) g)
    register_new id image g none = write_image id image g (
        compute_image_path shelf.under_root shelf.root components doc_slug image.md5_hex_12
          image.ext_final)

    -- `_compress_and_register`
    abbrev pub register : Text → Gathered → Compressed → Gathering
    unfolding compute_image_path
    register id g (oversized size) = fail_as id ImageResolution.oversized g
    register id g undecodable = fail_as id failed g
    register id g save_error = gather_raised g.ctx
    register id g (compressed image) =
        register_new id image g (get_at image.md5_hex_12 g.md5_to_rel_path)

    abbrev pub take_download : Text → Gathered → Download → Gathering
    unfolding compress_image compute_image_path
    take_download id g (downloaded raw mime) = register id g (compress_image shelf.pillow raw mime)
    take_download id g refused = fail_as id failed g
    take_download id g network_error = fail_as id failed g
    take_download id g escapes = gather_aborted g.ctx

    -- `_resolve_one_image`
    unfoldable pub resolve_one_image : ℕ → Text → Text → Gathered → Gathering
    unfolding compress_image compute_image_path show_nat
    resolve_one_image index id uri g =
        if run.dry_run
        then gathered (
            resolve_as id
              (ok (
                doc_slug
                ++ (codes ".images/dryrun-" ++ (zero_pad (show_nat index) ++ codes ".png"))))
              g)
        else take_download id g (shelf.fetch_image uri)

    abbrev pub then_gather : Gathering → (Gathered → Gathering) → Gathering
    then_gather (gathered g) next = next g
    then_gather (gather_raised ctx) next = gather_raised ctx
    then_gather (gather_aborted ctx) next = gather_aborted ctx

    unfoldable pub process_doc_images : ℕ → List (Text × Text) → Gathered → Gathering
    unfolding resolve_one_image
    process_doc_images index [] g = gathered g
    process_doc_images index (o ∷ objects) g =
        then_gather (resolve_one_image index o.0 o.1 g) (process_doc_images (index + 1) objects)
