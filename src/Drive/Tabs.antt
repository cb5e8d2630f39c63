-- ===== src/Drive/Tabs.antt =====
-- `_apply_gslide_state`, `_apply_tab_state` and `_process_gsheet` of sync.py: the presentations and the tabs of a spreadsheet,
-- from their rendered text on.
use archiviste_nocilia.Prelude.{
  ◌+◌, Text, Option, none, some, List, [], ◌∷◌, ◌++◌, eqb, ltb, if◌then◌else◌, codes,
}
use archiviste_nocilia.Prelude.Decimal.{utf8_length}
use archiviste_nocilia.Drive.Sync.{
  StateEntry, SyncContext, Run, Outcome, finished, raised, then_do, entry_at, apply_state,
  count_one, one_mib,
}
use archiviste_nocilia.Drive.Paths.{
  Tab, Tree, DriveFile, build_tab_source_id, tab_path, resolve_tab_collisions,
}

-- `"/".join([*components, name])`
unfoldable pub drive_path_of : List Text → Text → Text
drive_path_of [] name = name
drive_path_of (c ∷ components) name = c ++ (codes "/" ++ drive_path_of components name)

-- `tab_title.replace("/", "\\/")`
unfoldable pub escape_slash : Text → Text
escape_slash [] = []
escape_slash (c ∷ s) =
    let rest = escape_slash s in if eqb c b'/' then codes "\\/" ++ rest else c ∷ rest

unfoldable pub build_tab_title : Text → Text → Text
build_tab_title workbook_title tab_title = workbook_title ++ (codes " — " ++ tab_title)

abbrev pub count_error : SyncContext → SyncContext
count_error ctx = record ctx { counts = record ctx.counts { errors = ctx.counts.errors + 1 } }

module _ (run : Run) where
  unfoldable pub apply_gslide_state :
      Text → Text → List Text → Text → Option StateEntry → Text → SyncContext → Outcome
  unfolding apply_state drive_path_of
  apply_gslide_state file_id name components path existing body ctx =
      apply_state run file_id path name (drive_path_of components name) body existing ctx

  -- `_process_gslide`, behind the rendering
  unfoldable pub process_gslide :
      Text → Text → List Text → Text → Option StateEntry → Option Text → SyncContext → Outcome
  unfolding apply_gslide_state utf8_length
  process_gslide file_id name components path existing none ctx = raised ctx
  process_gslide file_id name components path existing (some body) ctx =
      if ltb (one_mib run) (utf8_length body)
      then finished (count_error ctx)
      else apply_gslide_state file_id name components path existing body ctx

  unfoldable pub apply_tab_state :
      Text → Text → Text → Text → Text → Text → Option StateEntry → SyncContext → Outcome
  unfolding apply_state build_tab_title escape_slash
  apply_tab_state source_id path body tab_title name drive_path_prefix existing ctx =
      apply_state run source_id path (build_tab_title name tab_title)
        (drive_path_prefix ++ (codes "/" ++ escape_slash tab_title)) body existing
        (count_one run ctx)

  -- One turn of the loop over the tabs; `none` is a failed fetch.
  abbrev pub process_tab :
      Text → Text → Text → Text → Text → Option StateEntry → Option Text → SyncContext → Outcome
  process_tab source_id path tab_title name drive_path_prefix existing none ctx =
      finished (count_error (count_one run ctx))
  process_tab source_id path tab_title name drive_path_prefix existing (some body) ctx =
      if ltb (one_mib run) (utf8_length body)
      then finished (count_error (count_one run ctx))
      else apply_tab_state source_id path body tab_title name drive_path_prefix existing ctx

  module _ (tree : Tree) (state : List (Text × StateEntry)) (fetch : Text → Tab → Option Text)
      (file : DriveFile) where
    -- Nothing catches an error of a write here, so it ends the loop and, behind it, the run.
    unfoldable pub process_tabs : List (Tab × Text) → SyncContext → Outcome
    unfolding apply_tab_state utf8_length build_tab_source_id drive_path_of
    process_tabs [] ctx = finished ctx
    process_tabs (t ∷ tabs) ctx =
        then_do
          (process_tab (build_tab_source_id file.id t.0.sheet_id) (tab_path tree file t) t.0.title
            file.name (drive_path_of file.components file.name)
            (entry_at (build_tab_source_id file.id t.0.sheet_id) state) (fetch file.id t.0) ctx)
          (process_tabs tabs)

    abbrev pub process_listed : SyncContext → Option (List Tab) → Outcome
    process_listed ctx none = finished (count_error (count_one run ctx))
    process_listed ctx (some tabs) = process_tabs (resolve_tab_collisions tree.unicode tabs) ctx

    unfoldable pub process_gsheet : SyncContext → Outcome
    unfolding process_tabs resolve_tab_collisions
    process_gsheet ctx = process_listed ctx (tree.tabs file.id)
