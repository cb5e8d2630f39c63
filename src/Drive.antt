-- ===== src/Drive.antt =====
-- scripts/gdrive_export/: the export of the Drive folder into the corpus.
pub mod Frontmatter
pub mod Merge
pub mod Fences
pub mod Exported
pub mod Sync
pub mod Archive
pub mod Dry
pub mod Kept
pub mod Slugs
pub mod Slugged
pub mod Paths
pub mod Allocated
pub mod Tabs
pub mod Gdocs
pub mod Assoc
pub mod Images
pub mod Docs
pub mod Sidecars
pub mod Listing
pub mod Listed
pub mod Turns
pub mod Covered
pub mod Tallied
pub mod Counted
pub mod Sheets
pub mod Leaves
pub mod Whole
pub mod Untouched
pub mod Completed
mod Tests
