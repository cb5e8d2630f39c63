-- ===== src/Ingest/Pipeline.antt =====
-- ingest/pipeline.py and the loop of ingest/cli.py. `none` is an exception that leaves the function; that of one file
-- leaves the tables as they were before this file.
use archiviste_nocilia.Prelude.{
  ℕ, ◌+◌, ◌*◌, Text, Bool, false, Option, none, some, List, [], ◌∷◌, text_eq, ltb, eqb,
  if◌then◌else◌, ◌>>=◌, length, is_empty,
}
use archiviste_nocilia.Ingest.{
  DocumentRecord, Document, ChunkRecord, Db, fetch_existing, insert_document_with_chunks,
  update_document_replace_chunks,
}
use archiviste_nocilia.Ingest.Frontmatter.{
  Loaded, Frontmatter, parsed, invalid, raises, ParsedFile, parse_frontmatter, normalize_body,
}

pub data ProcessStatus : Type 0 where
  inserted updated skipped failed : ProcessStatus

pub record ProcessResult : Type 0 where
  pub relative_path : Text
  pub status : ProcessStatus
  pub chunks_count : ℕ

-- A file: its path below the root, its size and its text, where these can be read.
pub record File : Type 0 where
  pub relative : Text
  pub size : Option ℕ
  pub raw : Option Text

-- What the pipeline calls. A digest and NFKC are functions; an embedder may raise; the database may
-- fail on the read, and on the transaction that writes.
pub record PipelineDeps (V : Type 0) : Type 0 where
  pub load_yaml : Text → Loaded
  pub nfkc : Text → Text
  pub digest : Text → Text
  pub split_text : Text → List Text
  pub encode_batch : List Text → Option (List V)
  pub reads : Bool
  pub writes : Bool
  -- the id that the table gives a new document
  pub new_id : List Document → ℕ

abbrev pub max_file_size_bytes : ℕ
max_file_size_bytes = 1024 * 1024

abbrev pub failure : Text → ProcessResult
failure relative = record { relative_path = relative; status = failed; chunks_count = 0 }

module _ {V : Type 0} where
  -- `enumerate(zip(texts, embeddings, strict=True))`
  unfoldable pub zip_from : ℕ → List Text → List V → Option (List (ChunkRecord V))
  zip_from n [] [] = some []
  zip_from n (t ∷ ts) (v ∷ vs) = do
    rest ← zip_from (n + 1) ts vs
    some (record { ord = n; text = t; embedding = v } ∷ rest)
  zip_from n [] (v ∷ vs) = none
  zip_from n (t ∷ ts) [] = none

  module _ (deps : PipelineDeps V) where
    unfoldable pub build_chunk_records : Text → Option (List (ChunkRecord V))
    unfolding zip_from
    build_chunk_records normalized =
        let texts = deps.split_text normalized in
        if is_empty texts then some [] else (deps.encode_batch texts >>= zip_from 0 texts)

    abbrev pub write_chunks :
        DocumentRecord → Option Document → Db V → List (ChunkRecord V) → Db V × ProcessResult
    write_chunks doc none db chunks =
        if deps.writes
        then (
          insert_document_with_chunks (deps.new_id db.documents) doc chunks db,
          record {
            relative_path = doc.source_path;
            status = inserted;
            chunks_count = length chunks;
          },
        )
        else (db, failure doc.source_path)
    write_chunks doc (some existing) db chunks =
        if deps.writes
        then (
          update_document_replace_chunks existing.id doc chunks db,
          record {
            relative_path = doc.source_path;
            status = updated;
            chunks_count = length chunks;
          },
        )
        else (db, failure doc.source_path)

    abbrev pub is_unchanged : Text → Option Document → Bool
    is_unchanged content_hash none = false
    is_unchanged content_hash (some d) = text_eq d.fields.content_hash content_hash

    abbrev pub document_of : Text → Frontmatter → Text → DocumentRecord
    document_of relative f normalized = record {
      source_path = relative;
      title = f.title;
      tags = f.tags;
      access_tier = f.access_tier;
      content_hash = deps.digest normalized;
    }

    abbrev pub persist_found :
        Text → Frontmatter → Text → Db V → Option Document → Option (Db V × ProcessResult)
    persist_found relative f normalized db existing =
        if is_unchanged (deps.digest normalized) existing
        then some (db, record { relative_path = relative; status = skipped; chunks_count = 0 })
        else (build_chunk_records normalized >>= λ chunks.
            some (write_chunks (document_of relative f normalized) existing db chunks))

    -- `_persist`
    unfoldable pub persist : Text → Frontmatter → Text → Db V → Option (Db V × ProcessResult)
    unfolding fetch_existing build_chunk_records insert_document_with_chunks
        update_document_replace_chunks
    persist relative f normalized db =
        if deps.reads
        then persist_found relative f normalized db (fetch_existing relative db.documents)
        else none

    abbrev pub process_parsed : Text → Db V → ParsedFile → Option (Db V × ProcessResult)
    process_parsed relative db (parsed f body) =
        persist relative f (normalize_body deps.nfkc body) db
    process_parsed relative db invalid = some (db, failure relative)
    process_parsed relative db raises = none

    abbrev pub process_text : Text → Db V → Option Text → Option (Db V × ProcessResult)
    process_text relative db none = some (db, failure relative)
    process_text relative db (some raw) =
        process_parsed relative db (parse_frontmatter deps.load_yaml raw)

    abbrev pub process_sized : File → Db V → Option ℕ → Option (Db V × ProcessResult)
    process_sized file db none = some (db, failure file.relative)
    process_sized file db (some size) =
        if ltb max_file_size_bytes size
        then some (db, failure file.relative)
        else process_text file.relative db file.raw

    unfoldable pub process_file : File → Db V → Option (Db V × ProcessResult)
    unfolding persist parse_frontmatter normalize_body
    process_file file db = process_sized file db file.size

    abbrev pub with_result :
        ProcessResult → Db V × Option (List ProcessResult) → Db V × Option (List ProcessResult)
    with_result r (db, none) = (db, none)
    with_result r (db, some results) = (db, some (r ∷ results))

    -- An exception of a file ends the run; what the files before it have written stays.
    abbrev pub then_file :
        Db V
        → Option (Db V × ProcessResult)
        → (Db V → Db V × Option (List ProcessResult))
        → Db V × Option (List ProcessResult)
    then_file db none next = (db, none)
    then_file db (some (written, r)) next = with_result r (next written)

    -- The loop of `_run_async`: the tables, and the results in order, or `none` where an exception left it.
    unfoldable pub process_files : List File → Db V → Db V × Option (List ProcessResult)
    unfolding process_file
    process_files [] db = (db, some [])
    process_files (file ∷ files) db = then_file db (process_file file db) (process_files files)

-- `RunCounters`
pub record RunCounters : Type 0 where
  pub inserted_count : ℕ
  pub updated_count : ℕ
  pub skipped_count : ℕ
  pub errors : ℕ

abbrev pub record_status : ProcessStatus → RunCounters → RunCounters
record_status inserted c = record c { inserted_count = c.inserted_count + 1 }
record_status updated c = record c { updated_count = c.updated_count + 1 }
record_status skipped c = record c { skipped_count = c.skipped_count + 1 }
record_status failed c = record c { errors = c.errors + 1 }

unfoldable pub count_results : RunCounters → List ProcessResult → RunCounters
count_results c [] = c
count_results c (r ∷ results) = count_results (record_status r.status c) results

abbrev pub no_counts : RunCounters
no_counts = record { inserted_count = 0; updated_count = 0; skipped_count = 0; errors = 0 }

-- `EXIT_FILE_ERRORS if counters.errors else EXIT_OK`
unfoldable pub exit_code : RunCounters → ℕ
exit_code c = if eqb c.errors 0 then 0 else 1
