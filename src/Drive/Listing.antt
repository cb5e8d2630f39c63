-- ===== src/Drive/Listing.antt =====
-- `list_folder_recursive` of scripts/gdrive_export/drive_client.py, on fuel. Drive is a function from a folder and a page
-- token to a page. A folder that Drive shows is a tree, its pages in order; one that is its own descendant is none.
use archiviste_nocilia.Prelude.{ℕ, zero, suc, Text, Option, none, some, List, [], ◌∷◌, ◌++◌}
use archiviste_nocilia.Drive.Paths.{Mime, DriveFile}

-- A file of a page: a folder, a file of one of the four kinds, or another one.
pub data Item : Type 0 where
  folder : Text → Text → Item
  file : Text → Mime → Text → Item
  skipped : Item

pub record Page : Type 0 where
  pub items : List Item
  pub next_token : Option Text

-- `_list_page`, or `none` for an HttpError
abbrev pub Drive : Type 0
Drive = Text → Option Text → Option Page

pub data Listed : Type 0 where
  listed : List DriveFile → Listed
  raised out_of_fuel : Listed

abbrev pub prepend : List DriveFile → Listed → Listed
prepend files (listed more) = listed (files ++ more)
prepend files raised = raised
prepend files out_of_fuel = out_of_fuel

abbrev pub extend : Listed → Listed → Listed
extend (listed files) later = prepend files later
extend raised later = raised
extend out_of_fuel later = out_of_fuel

module _ (down : Text → List Text → Listed) (components : List Text) where
  -- The loop over the files of a page, with what comes behind it.
  abbrev pub list_items : List Item → Listed → Listed
  list_items [] later = later
  list_items (folder id name ∷ items) later =
      extend (down id (components ++ name ∷ [])) (list_items items later)
  list_items (file id mime name ∷ items) later =
      prepend (record { id = id; mime = mime; name = name; components = components } ∷ [])
        (list_items items later)
  list_items (skipped ∷ items) later = list_items items later

abbrev pub list_page :
    (Text → List Text → Listed) → (Text → Listed) → List Text → Option Page → Listed
list_page down follow components none = raised
list_page down follow components (some page) =
    list_items down components page.items (after page.next_token)
  where
    after : Option Text → Listed
    after none = listed []
    after (some token) = follow token

unfoldable pub list_pages : Drive → ℕ → Text → List Text → Option Text → Listed
list_pages drive zero id components token = out_of_fuel
list_pages drive (suc n) id components token =
    list_page (λ inner path. list_pages drive n inner path none)
      (λ next. list_pages drive n id components (some next)) components (drive id token)

-- `list_folder_recursive(root_folder_id)`
unfoldable pub list_folder_recursive : Drive → ℕ → Text → Listed
unfolding list_pages
list_folder_recursive drive fuel root = list_pages drive fuel root [] none
