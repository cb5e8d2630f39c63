-- ===== src/Ingest.antt =====
-- workers/src/archiviste_workers/ingest/: a Markdown file, its frontmatter, and the rows that it gives in
-- `documents` and `chunks`. The splitter, the embedder, the YAML reader, the digest and NFKC are parameters.
pub mod Frontmatter
pub mod Pipeline
pub mod Rows
pub mod Invariant
pub mod Digests
pub mod Settled
pub mod Again
mod Tests
use archiviste_nocilia.Prelude.{
  ℕ, ◌+◌, String, Text, Bool, true, false, not, ◌&&◌, ◌||◌, Option, none, some, List, [], ◌∷◌, ◌++◌,
  map, filter, text_eq, eqb, leb, if◌then◌else◌,
}

-- `DocumentRecord`
pub record DocumentRecord : Type 0 where
  pub source_path : Text
  pub title : Text
  pub tags : List Text
  pub access_tier : Text
  pub content_hash : Text

-- A row of `documents`.
pub record Document : Type 0 where
  pub id : ℕ
  pub fields : DocumentRecord

-- `ChunkRecord`, and a row of `chunks`.
pub record ChunkRecord (V : Type 0) : Type 0 where
  pub ord : ℕ
  pub text : Text
  pub embedding : V

pub record ChunkRow (V : Type 0) : Type 0 where
  pub document_id : ℕ
  pub chunk : ChunkRecord V

pub record Db (V : Type 0) : Type 0 where
  pub documents : List Document
  pub chunks : List (ChunkRow V)

-- `fetch_existing`
unfoldable pub fetch_existing : Text → List Document → Option Document
fetch_existing path [] = none
fetch_existing path (d ∷ ds) =
    if text_eq d.fields.source_path path then some d else fetch_existing path ds

-- `UPDATE documents ... WHERE id = $1`, which keeps the path
unfoldable pub update_documents : ℕ → DocumentRecord → List Document → List Document
update_documents id doc [] = []
update_documents id doc (d ∷ ds) =
    (if eqb d.id id
      then record { id = d.id; fields = record doc { source_path = d.fields.source_path } }
      else d)
    ∷ update_documents id doc ds

module _ {V : Type 0} where
  abbrev pub row_of : ℕ → ChunkRecord V → ChunkRow V
  row_of id c = record { document_id = id; chunk = c }

  -- `_insert_chunks`
  abbrev pub insert_chunks : ℕ → List (ChunkRecord V) → List (ChunkRow V) → List (ChunkRow V)
  insert_chunks id chunks rows = rows ++ map (row_of id) chunks

  unfoldable pub insert_document_with_chunks :
      ℕ → DocumentRecord → List (ChunkRecord V) → Db V → Db V
  insert_document_with_chunks id doc chunks db = record {
    documents = db.documents ++ record { id = id; fields = doc } ∷ [];
    chunks = insert_chunks id chunks db.chunks;
  }

  -- `DELETE FROM chunks WHERE document_id = $1`
  abbrev pub is_of : ℕ → ChunkRow V → Bool
  is_of id row = eqb row.document_id id

  unfoldable pub update_document_replace_chunks :
      ℕ → DocumentRecord → List (ChunkRecord V) → Db V → Db V
  unfolding update_documents
  update_document_replace_chunks id doc chunks db = record {
    documents = update_documents id doc db.documents;
    chunks = insert_chunks id chunks (filter (λ row. not (is_of id row)) db.chunks);
  }
