-- ===== src/Drive/Listed.antt =====
-- The listing of a tree ends, with the files of the tree.
use archiviste_nocilia.Prelude.{
  ℕ, zero, suc, ◌+◌, ◌<◌, ◌≤◌, Text, ◌≡◌, refl, Option, none, some, List, [], ◌∷◌, ◌++◌, arith,
}
use archiviste_nocilia.Drive.Paths.{Mime, DriveFile}
use archiviste_nocilia.Drive.Listing.{
  Item, folder, file, skipped, Page, Drive, listed, list_page, list_pages, list_folder_recursive,
}

-- What is in a folder, in the order of its pages.
pub data Content : Type 0 where
  ends : Content
  has_folder : Text → Text → Content → Content → Content
  has_file : Text → Mime → Text → Content → Content
  has_other : Content → Content
  next_page : Text → Content → Content

-- The first page
abbrev pub items_of : Content → List Item
items_of ends = []
items_of (has_folder id name inner rest) = folder id name ∷ items_of rest
items_of (has_file id mime name rest) = file id mime name ∷ items_of rest
items_of (has_other rest) = skipped ∷ items_of rest
items_of (next_page token rest) = []

abbrev pub token_of : Content → Option Text
token_of ends = none
token_of (has_folder id name inner rest) = token_of rest
token_of (has_file id mime name rest) = token_of rest
token_of (has_other rest) = token_of rest
token_of (next_page token rest) = some token

abbrev pub page_of : Content → Page
page_of c = record { items = items_of c; next_token = token_of c }

-- Drive shows what is behind the first page: the folders on it, and the next pages.
abbrev pub Shows : Drive → Text → Content → Type 0
Shows drive id ends = Unit
Shows drive id (has_folder inner_id name inner rest) =
    ((drive inner_id none ≡ some (page_of inner)) × Shows drive inner_id inner)
    × Shows drive id rest
Shows drive id (has_file file_id mime name rest) = Shows drive id rest
Shows drive id (has_other rest) = Shows drive id rest
Shows drive id (next_page token rest) =
    (drive id (some token) ≡ some (page_of rest)) × Shows drive id rest

-- The files of a tree, with the names of the folders above them.
abbrev pub files_of : List Text → Content → List DriveFile
files_of components ends = []
files_of components (has_folder id name inner rest) =
    files_of (components ++ name ∷ []) inner ++ files_of components rest
files_of components (has_file id mime name rest) =
    record { id = id; mime = mime; name = name; components = components } ∷ files_of components rest
files_of components (has_other rest) = files_of components rest
files_of components (next_page token rest) = files_of components rest

-- The folders and the pages of a tree.
abbrev pub weight : Content → ℕ
weight ends = 0
weight (has_folder id name inner rest) = suc (weight inner + weight rest)
weight (has_file id mime name rest) = weight rest
weight (has_other rest) = weight rest
weight (next_page token rest) = suc (weight rest)

shown_page :
    (drive : Drive) (n : ℕ) (id : Text) (components : List Text) (c : Content)
    → Shows drive id c
    → weight c ≤ n
    → list_page
        (λ inner path. list_pages drive n inner path none)
        (λ next. list_pages drive n id components (some next))
        components
        (some (page_of c))
      ≡ listed (files_of components c)
unfolding list_pages
shown_page drive n id components ends h fuel = refl
shown_page drive n id components (has_file file_id mime name rest) h fuel =
    rw (shown_page drive n id components rest h fuel) refl
shown_page drive n id components (has_other rest) h fuel =
    shown_page drive n id components rest h fuel
shown_page drive zero id components (has_folder inner_id name inner rest) h fuel =
    absurd (omega arith)
shown_page drive (suc n) id components (has_folder inner_id name inner rest) ((page, deep), h)
      fuel =
    rw page (
      rw (shown_page drive n inner_id (components ++ name ∷ []) inner deep (omega arith))
        (rw (shown_page drive (suc n) id components rest h (omega arith)) refl))
shown_page drive zero id components (next_page token rest) h fuel = absurd (omega arith)
shown_page drive (suc n) id components (next_page token rest) (page, h) fuel =
    rw page (shown_page drive n id components rest h (omega arith))

-- Where Drive shows a tree at the root, the listing ends as soon as it has more turns than the tree has folders and next pages, and it gives
-- all files of the tree of the four kinds, in order, each with the names of the folders from the root to it.
pub list_folder_recursive_lem :
    (drive : Drive) (root : Text) (c : Content) (fuel : ℕ)
    → drive root none ≡ some (page_of c)
    → Shows drive root c
    → weight c < fuel
    → list_folder_recursive drive fuel root ≡ listed (files_of [] c)
unfolding list_folder_recursive
list_folder_recursive_lem drive root c zero page h fuel = absurd (omega arith)
list_folder_recursive_lem drive root c (suc n) page h fuel =
    rw page (shown_page drive n root [] c h (omega arith))
