-- ===== src/Drive/Paths.antt =====
-- paths.py, `resolve_tab_collisions` of gsheet_renderer.py, and the loop of `run_sync` as far as it gives
-- each file of Drive its path. Drive, Unicode and the links of the disk are parameters.
use archiviste_nocilia.Prelude.{
  ℕ, Text, Bool, true, false, not, ◌||◌, Option, none, some, List, [], ◌∷◌, ◌++◌, map, take, leb,
  text_eq, if◌then◌else◌, codes, ◌>>=◌, ◌≡◌, refl,
}
use archiviste_nocilia.Prelude.Decimal.{show_nat}
use archiviste_nocilia.Drive.Slugs.{Unicode, slugify}

-- `path in taken_paths`
abbrev pub is_taken : Text → List Text → Bool
is_taken path [] = false
is_taken path (p ∷ ps) = text_eq p path || is_taken path ps

-- `root.joinpath(*folders) / name`
abbrev pub join_path : Text → List Text → Text → Text
join_path root [] name = root ++ (codes "/" ++ name)
join_path root (f ∷ fs) name = join_path (root ++ (codes "/" ++ f)) fs name

-- A tab of a spreadsheet.
pub record Tab : Type 0 where
  pub index : ℕ
  pub sheet_id : ℕ
  pub title : Text

-- `sorted(tabs, key=lambda t: int(t["index"]))`
abbrev pub insert_tab : Tab → List Tab → List Tab
insert_tab t [] = t ∷ []
insert_tab t (x ∷ xs) =
    let rest = insert_tab t xs in if leb t.index x.index then t ∷ x ∷ xs else x ∷ rest

abbrev pub sort_tabs : List Tab → List Tab
sort_tabs [] = []
sort_tabs (t ∷ ts) = insert_tab t (sort_tabs ts)

-- `build_tab_source_id`
unfoldable pub build_tab_source_id : Text → ℕ → Text
unfolding show_nat
build_tab_source_id file_id gid = file_id ++ (codes "#" ++ show_nat gid)

module _ (u : Unicode) where
  abbrev pub assign_slugs : List Text → List Tab → List (Tab × Text)
  assign_slugs seen [] = []
  assign_slugs seen (t ∷ ts) =
      let base = slugify u t.title (show_nat t.sheet_id) in
      let fresh = assign_slugs (base ∷ seen) ts in
      let again = assign_slugs seen ts in
      if not (is_taken base seen)
      then (t, base) ∷ fresh
      else (t, base ++ (codes "-" ++ show_nat t.sheet_id)) ∷ again

  unfoldable pub resolve_tab_collisions : List Tab → List (Tab × Text)
  unfolding slugify show_nat
  resolve_tab_collisions tabs = assign_slugs [] (sort_tabs tabs)

pub data Mime : Type 0 where
  document slides png sheet : Mime

pub record DriveFile : Type 0 where
  pub id : Text
  pub mime : Mime
  pub name : Text
  pub components : List Text

-- What a file of Drive gets: a path, or the paths of its tabs.
pub data Allocation : Type 0 where
  file_at : Text → Text → Allocation
  tabs_at : Text → List Text → Allocation

-- What the loop needs: the root, whether a path stays below it when links are followed, and the tabs of a
-- spreadsheet, or `none` where Drive fails.
pub record Tree : Type 0 where
  pub unicode : Unicode
  pub root : Text
  pub under_root : Text → Bool
  pub tabs : Text → Option (List Tab)

module _ (tree : Tree) where
  abbrev pub slug_folders : Text → List Text → List Text
  slug_folders id components = map (λ c. slugify tree.unicode c id) components

  -- `none` is a ValueError.
  unfoldable pub resolve_local_path : List Text → Text → Text → List Text → Text → Option Text
  unfolding slugify
  resolve_local_path components slug ext taken id =
      let folders = slug_folders id components in
      let safe_slug = slugify tree.unicode slug id in
      let candidate = join_path tree.root folders (safe_slug ++ ext) in
      let suffixed = join_path tree.root folders ((safe_slug ++ (codes "-" ++ take 8 id)) ++ ext) in
      if not (tree.under_root candidate)
      then none
      else if not (is_taken candidate taken)
      then some candidate
      else if not (tree.under_root suffixed)
      then none
      else if is_taken suffixed taken
      then none
      else some suffixed

  -- The paths of the tabs in `_process_gsheet`
  abbrev pub tab_path : DriveFile → Tab × Text → Text
  tab_path file tab =
      join_path tree.root (slug_folders file.id file.components)
        (slugify tree.unicode file.name file.id ++ (codes "--" ++ (tab.1 ++ codes ".md")))

  abbrev pub tab_paths : DriveFile → Option (List Tab) → List Text
  tab_paths file none = []
  tab_paths file (some tabs) = map (tab_path file) (resolve_tab_collisions tree.unicode tabs)

  abbrev pub extension : Mime → Text
  extension Mime.document = codes ".md"
  extension Mime.slides = codes ".md"
  extension Mime.png = codes ".png"
  extension Mime.sheet = []

  abbrev pub is_sheet : Mime → Bool
  is_sheet Mime.sheet = true
  is_sheet Mime.document = false
  is_sheet Mime.slides = false
  is_sheet Mime.png = false

  -- The paths in the order in which the loop of `run_sync` adds them; a ValueError leaves the run.
  unfoldable pub allocate_paths : List DriveFile → List Text → Option (List Allocation)
  unfolding resolve_local_path resolve_tab_collisions
  allocate_paths [] taken = some []
  allocate_paths (file ∷ files) taken =
      let paths = tab_paths file (tree.tabs file.id) in
      let rest = allocate_paths files (paths ++ taken) in
      if is_sheet file.mime
      then (rest >>= λ more. some (tabs_at file.id paths ∷ more))
      else (resolve_local_path file.components (slugify tree.unicode file.name file.id)
            (extension file.mime) taken file.id
          >>= λ path.
              (allocate_paths files (path ∷ taken) >>= λ more. some (file_at file.id path ∷ more)))

-- Two tabs of one spreadsheet can get one slug, and with it one file.
abbrev pub plain : Unicode
plain = record { nfkd = λ s. s; is_mn = λ c. false; lower = λ s. s }

abbrev tab : ℕ → ℕ → Text → Tab
tab index sheet_id title = record { index = index; sheet_id = sheet_id; title = title }

one_slug :
    map
      (λ t. t.1)
      (resolve_tab_collisions plain
        (tab 0 1 (codes "a") ∷ tab 1 7 (codes "a") ∷ tab 2 9 (codes "a-7") ∷ []))
    ≡ codes "a" ∷ codes "a-7" ∷ codes "a-7" ∷ []
unfolding resolve_tab_collisions text_eq
one_slug = refl
