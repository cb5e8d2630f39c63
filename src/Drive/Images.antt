-- ===== src/Drive/Images.antt =====
-- scripts/gdrive_export/images.py: an image of a document, made small enough, and its place. Pillow and the digest are
-- parameters; a format that Pillow cannot write is an OSError.
use archiviste_nocilia.Prelude.{
  ℕ, zero, suc, ◌+◌, ◌*◌, ◌/◌, ◌%◌, max, Text, Bool, true, false, not, ◌&&◌, ◌||◌, Option, none,
  some, List, [], ◌∷◌, ◌++◌, take, length, leb, ltb, eqb, text_eq, if◌then◌else◌, codes,
}
use archiviste_nocilia.Drive.Paths.{join_path}

-- An image that is open, with what Pillow holds of it.
pub record Image : Type 0 where
  pub width : ℕ
  pub height : ℕ
  pub content : List ℕ

pub record Pillow : Type 0 where
  pub decode : List ℕ → Option Image
  pub resize : Image → ℕ → ℕ → Image
  pub save : Image → Option (List ℕ)
  pub save_jpeg : Image → Option (List ℕ)
  pub md5 : List ℕ → Text

pub record CompressedImage : Type 0 where
  pub bytes_final : List ℕ
  pub ext_final : Text
  pub md5_hex_12 : Text

-- How `compress_image` ends; `save_error` is an OSError that it lets through.
pub data Compressed : Type 0 where
  compressed : CompressedImage → Compressed
  oversized : ℕ → Compressed
  undecodable save_error : Compressed

abbrev pub max_dim : ℕ
max_dim = 2048

abbrev pub max_bytes_after : ℕ
max_bytes_after = 5 * 1024 * 1024

-- `_MIME_TO_EXT`
unfoldable pub mime_to_ext : Text → Option Text
unfolding text_eq
mime_to_ext mime =
    if text_eq mime (codes "image/png")
    then some (codes "png")
    else if text_eq mime (codes "image/jpeg")
    then some (codes "jpg")
    else if text_eq mime (codes "image/gif")
    then some (codes "gif")
    else if text_eq mime (codes "image/webp")
    then some (codes "webp")
    else none

-- `round(a / b)`, a half to the even side; `b` is not 0.
abbrev pub round_div : ℕ → ℕ → ℕ
round_div a b =
    let q = a / b in
    let twice = 2 * (a % b) in
    if ltb twice b then q else if ltb b twice then q + 1 else if eqb (q % 2) 0 then q else q + 1

abbrev pub new_size : ℕ → ℕ → ℕ × ℕ
new_size width height =
    if leb height width
    then (max_dim, max 1 (round_div (max_dim * height) width))
    else (max 1 (round_div (max_dim * width) height), max_dim)

-- Bytes, their type and the image, or `none` for an OSError.
abbrev pub saved : Text → Image → Option (List ℕ) → Option (List ℕ × Text × Image)
saved mime image none = none
saved mime image (some bytes) = some (bytes, mime, image)

module _ (pillow : Pillow) where
  unfoldable pub stage_resize : Image → List ℕ → Text → Option (List ℕ × Text × Image)
  stage_resize image raw src_mime =
      if leb (max image.width image.height) max_dim
      then some (raw, src_mime, image)
      else (let (w, h) = new_size image.width image.height in
          let resized = pillow.resize image w h in saved src_mime resized (pillow.save resized))

  abbrev pub as_jpeg : Option (List ℕ) → Option (List ℕ × Text)
  as_jpeg none = none
  as_jpeg (some bytes) = some (bytes, codes "image/jpeg")

  unfoldable pub stage_jpeg : Image → List ℕ → Text → Option (List ℕ × Text)
  stage_jpeg image bytes mime =
      if leb (length bytes) max_bytes_after
      then some (bytes, mime)
      else as_jpeg (pillow.save_jpeg image)

  abbrev pub ext_or_jpg : Option Text → Text
  ext_or_jpg none = codes "jpg"
  ext_or_jpg (some ext) = ext

  abbrev pub checked_size : Option (List ℕ × Text) → Compressed
  checked_size none = save_error
  checked_size (some (bytes, mime)) =
      if ltb max_bytes_after (length bytes)
      then oversized (length bytes)
      else compressed (record {
        bytes_final = bytes;
        ext_final = ext_or_jpg (mime_to_ext mime);
        md5_hex_12 = take 12 (pillow.md5 bytes);
      })

  abbrev pub after_resize : Option (List ℕ × Text × Image) → Compressed
  after_resize none = save_error
  after_resize (some (bytes, mime, image)) = checked_size (stage_jpeg image bytes mime)

  abbrev pub after_decode : List ℕ → Text → Option Image → Compressed
  after_decode raw src_mime none = undecodable
  after_decode raw src_mime (some image) = after_resize (stage_resize image raw src_mime)

  abbrev pub of_known_mime : List ℕ → Text → Option Text → Compressed
  of_known_mime raw src_mime none = undecodable
  of_known_mime raw src_mime (some ext) = after_decode raw src_mime (pillow.decode raw)

  unfoldable pub compress_image : List ℕ → Text → Compressed
  unfolding stage_resize stage_jpeg mime_to_ext
  compress_image raw src_mime = of_known_mime raw src_mime (mime_to_ext src_mime)

-- `[0-9a-f]{12}`
unfoldable pub is_md5_hex : ℕ → Text → Bool
is_md5_hex zero [] = true
is_md5_hex zero (c ∷ s) = false
is_md5_hex (suc n) [] = false
is_md5_hex (suc n) (c ∷ s) = ((leb 48 c && leb c 57) || (leb 97 c && leb c 102)) && is_md5_hex n s

-- `compute_image_path`; `none` is a ValueError. The folders are the names of Drive as they are.
unfoldable pub compute_image_path :
    (Text → Bool) → Text → List Text → Text → Text → Text → Option Text
unfolding is_md5_hex
compute_image_path under_root lore_root drive_components doc_slug md5_hex ext =
    let path =
      join_path lore_root (drive_components ++ (doc_slug ++ codes ".images") ∷ [])
        (md5_hex ++ (codes "." ++ ext)) in
    if not (is_md5_hex 12 md5_hex) then none else if under_root path then some path else none

-- The part of a name in front of its first dot
unfoldable pub before_dot : Text → Text
before_dot [] = []
before_dot (c ∷ s) = let rest = before_dot s in if eqb c b'.' then [] else c ∷ rest
