-- ===== src/Drive/Archive.antt =====
-- `_archive_entry` and `_set_archived_frontmatter` of sync.py: a file that Drive does not have any more.
use archiviste_nocilia.Prelude.{
  ℕ, ◌+◌, Text, Bool, true, false, ◌||◌, Option, none, some, List, [], ◌∷◌, text_eq, if◌then◌else◌,
  codes,
}
use archiviste_nocilia.Drive.Frontmatter.{
  Yaml, set_key, LoadedYaml, yaml_error, nothing, not_mapping, mapping, file_text, drop_prefix,
  split_fence,
}
use archiviste_nocilia.Drive.Sync.{
  StateEntry, SyncContext, Run, Disk, set_file, Outcome, finished, raised, keep_entry,
}

-- `local_path.suffix == ".md"`
unfoldable pub is_markdown : Text → Bool
unfolding text_eq
is_markdown [] = false
is_markdown (c ∷ s) = text_eq (c ∷ s) (codes ".md") || is_markdown s

module _ (run : Run) where
  -- The text that is to be written, or `none` for an error.
  abbrev pub archived_dict : Text → LoadedYaml → Option Text
  archived_dict body yaml_error = none
  archived_dict body nothing = some (
      file_text
        (run.dump
          ((codes "archived", Yaml.flag true) ∷ (codes "archived_at", Yaml.text run.now) ∷ []))
        body)
  archived_dict body not_mapping = none
  archived_dict body (mapping d) = some (
      file_text
        (run.dump (
          set_key (codes "archived_at") (Yaml.text run.now)
            (set_key (codes "archived") (Yaml.flag true) d)))
        body)

  abbrev pub archived_split : Option (Text × Text) → Option Text
  archived_split none = none
  archived_split (some (yaml, body)) = archived_dict body (run.load yaml)

  -- The file with that text, and whether no error came; a write that fails leaves a torn file.
  abbrev pub written_archived : Text → Disk → Option Text → Disk × Bool
  written_archived path disk none = (disk, false)
  written_archived path disk (some content) =
      if run.writes path
      then (set_file path (some content) disk, true)
      else (set_file path (run.torn path) disk, false)

  -- A file without a frontmatter is not written.
  abbrev pub archived_rest : Text → Disk → Option Text → Disk × Bool
  archived_rest path disk none = (disk, true)
  archived_rest path disk (some rest) =
      written_archived path disk (archived_split (split_fence rest))

  -- `_set_archived_frontmatter`
  unfoldable pub set_archived_frontmatter : Text → Disk → Text → Disk × Bool
  unfolding drop_prefix split_fence set_key file_text
  set_archived_frontmatter path disk content =
      if run.reads path
      then archived_rest path disk (drop_prefix (codes "---\n") content)
      else (disk, false)

  abbrev pub set_archived : Text → Disk → Option (List ℕ) → Disk × Bool
  unfolding set_archived_frontmatter
  set_archived path disk none = (disk, true)
  set_archived path disk (some content) = set_archived_frontmatter path disk content

  abbrev pub count_archived : SyncContext → SyncContext
  count_archived ctx = record ctx {
    counts = record ctx.counts { total = ctx.counts.total + 1; archived = ctx.counts.archived + 1 };
  }

  -- An error of the file leaves the run with the entry in the total only.
  abbrev pub archived_on : Text → StateEntry → SyncContext → Disk × Bool → Outcome
  archived_on key entry ctx (disk, false) =
      raised
        (record ctx { disk = disk; counts = record ctx.counts { total = ctx.counts.total + 1 } })
  archived_on key entry ctx (disk, true) = finished (
      keep_entry key (record entry { archived_at = some run.now })
        (record (count_archived ctx) { disk = disk }))

  abbrev pub archive_fresh : Text → StateEntry → SyncContext → Outcome
  archive_fresh key entry ctx =
      if run.dry_run
      then finished (keep_entry key entry (count_archived ctx))
      else archived_on key entry ctx (
          if is_markdown entry.local_path
          then set_archived entry.local_path ctx.disk (ctx.disk entry.local_path)
          else (ctx.disk, true))

  abbrev pub archive_at : Text → StateEntry → SyncContext → Option Text → Outcome
  archive_at key entry ctx none = archive_fresh key entry ctx
  archive_at key entry ctx (some at) = finished (
      keep_entry key entry (record ctx {
        counts = record ctx.counts {
          total = ctx.counts.total + 1;
          unchanged = ctx.counts.unchanged + 1;
        };
      }))

  -- `_archive_entry`: an error leaves the run, since nothing catches it.
  unfoldable pub archive_entry : Text → StateEntry → SyncContext → Outcome
  unfolding is_markdown set_archived_frontmatter
  archive_entry key entry ctx = archive_at key entry ctx entry.archived_at
