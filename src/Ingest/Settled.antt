-- ===== src/Ingest/Settled.antt =====
-- A file that the tables have as it is, and that no other file unsettles.
use mathlib.Core.Path.{subst}
use archiviste_nocilia.Prelude.{
  ℕ, Text, true, false, ◌≡◌, ◌≢◌, ◌⊎◌, refl, sym, ◌∙◌, ap, inl, inr, Option, none, some, List,
  arith, if◌then◌else◌, Bool-cases, Option-cases, text_eq, eq_of_text_eq, text_eq_refl, ltb,
}
use archiviste_nocilia.Ingest.{
  Document, ChunkRecord, Db, fetch_existing, insert_document_with_chunks,
  update_document_replace_chunks,
}
use archiviste_nocilia.Ingest.Frontmatter.{
  Frontmatter, parsed, invalid, raises, ParsedFile, parse_frontmatter, normalize_body,
}
use archiviste_nocilia.Ingest.Pipeline.{
  ProcessResult, ProcessStatus, File, PipelineDeps, build_chunk_records, write_chunks, is_unchanged,
  document_of, persist, process_parsed, process_text, process_sized, process_file,
  max_file_size_bytes,
}
use archiviste_nocilia.Ingest.Rows.{IsIndexed}
use archiviste_nocilia.Ingest.Digests.{
  hash_of, hash_in, fetch_existing-append, hash_in-updated, hash_in-kept,
}

-- The answer for a file that is in the tables as it is.
abbrev pub skip_of : File → ProcessResult
skip_of file = record {
  relative_path = file.relative;
  status = ProcessStatus.skipped;
  chunks_count = 0;
}

module _ {V : Type 0} (deps : PipelineDeps V) where
  -- What is read of a file before the tables are asked.
  abbrev parse_text : Option Text → ParsedFile
  parse_text none = invalid
  parse_text (some raw) = parse_frontmatter deps.load_yaml raw

  abbrev parse_sized : Option ℕ → Option Text → ParsedFile
  parse_sized none raw = invalid
  parse_sized (some size) raw = if ltb max_file_size_bytes size then invalid else parse_text raw

  abbrev pub parse_file : File → ParsedFile
  parse_file file = parse_sized file.size file.raw

  process_text-parsed :
      (relative : Text) (db : Db V) (o : Option Text)
      → process_text deps relative db o ≡ process_parsed deps relative db (parse_text o)
  process_text-parsed relative db none = refl
  process_text-parsed relative db (some raw) = refl

  pub process_sized-parsed :
      (file : File) (db : Db V) (o : Option ℕ)
      → process_sized deps file db o ≡ process_parsed deps file.relative db (parse_sized o file.raw)
  process_sized-parsed file db none = refl
  process_sized-parsed file db (some size) = elim (Bool-cases (ltb max_file_size_bytes size)) [
    | inl e ↦ rw e refl
    | inr e ↦ rw e (process_text-parsed file.relative db file.raw)
  ]

  -- The file can be read, and its body has the digest that the table has for its path.
  abbrev pub IsSettled : Db V → File → Type 0
  IsSettled db file =
      (f : Frontmatter) × (body : Text) × (parse_file file ≡ parsed f body)
      × (hash_in file.relative db.documents ≡ some (deps.digest (normalize_body deps.nfkc body)))

  is_unchanged-hash :
      (digest : Text) (found : Option Document)
      → hash_of found ≡ some digest
      → is_unchanged deps digest found ≡ true
  is_unchanged-hash digest none h = ground arith
  is_unchanged-hash digest (some d) h = ground (arith, text_eq_refl d.fields.content_hash)

  pub skips_settled :
      (reads : deps.reads ≡ true) (db : Db V) (file : File)
      → IsSettled db file
      → process_file deps file db ≡ some (db, skip_of file)
  unfolding process_file persist
  skips_settled reads db file (f, body, p, h) =
      process_sized-parsed file db file.size
      ∙ rw p (
          rw reads (
            rw
              (is_unchanged-hash (deps.digest (normalize_body deps.nfkc body))
                (fetch_existing file.relative db.documents) h)
              refl))

  -- A file that is not refused leaves its own digest, and the digests of the other paths as they were.
  abbrev Settles : Text → Text → Option (Db V × ProcessResult) → Type 0
  Settles relative digest none = Unit
  Settles relative digest (some (db, r)) =
      (r.status ≡ ProcessStatus.failed) ⊎ (hash_in relative db.documents ≡ some digest)

  abbrev Apart : Text → Db V → Option (Db V × ProcessResult) → Type 0
  Apart other db none = Unit
  Apart other db (some (db', r)) = hash_in other db'.documents ≡ hash_in other db.documents

  module _ (relative : Text) (f : Frontmatter) (normalized : Text) (db : Db V) where
    write_chunks-Settles :
        (found : Option Document) (cs : List (ChunkRecord V))
        → fetch_existing relative db.documents ≡ found
        → Settles relative
            (deps.digest normalized)
            (some (write_chunks deps (document_of deps relative f normalized) found db cs))
    unfolding insert_document_with_chunks update_document_replace_chunks
    write_chunks-Settles none cs e = elim (Bool-cases deps.writes) [
      | inl w ↦
          (let new : Document = record {
            id = deps.new_id db.documents;
            fields = document_of deps relative f normalized;
          } in
            rw w (
              inr (
                ground
                  (arith, fetch_existing-append relative db.documents new, text_eq_refl relative))))
      | inr w ↦ rw w (inl refl)
    ]
    write_chunks-Settles (some d) cs e = elim (Bool-cases deps.writes) [
      | inl w ↦
          rw w (
            inr
              (hash_in-updated relative (document_of deps relative f normalized) db.documents d e))
      | inr w ↦ rw w (inl refl)
    ]

    write_chunks-Apart :
        (other : Text) (found : Option Document) (cs : List (ChunkRecord V))
        → fetch_existing relative db.documents ≡ found
        → IsIndexed db
        → text_eq relative other ≡ false
        → Apart other db
            (some (write_chunks deps (document_of deps relative f normalized) found db cs))
    unfolding insert_document_with_chunks update_document_replace_chunks
    write_chunks-Apart other none cs e h apart = elim (Bool-cases deps.writes) [
      | inl w ↦
          (let new : Document = record {
            id = deps.new_id db.documents;
            fields = document_of deps relative f normalized;
          } in
            rw w (ground (arith, fetch_existing-append other db.documents new)))
      | inr w ↦ rw w refl
    ]
    write_chunks-Apart other (some d) cs e h apart = elim (Bool-cases deps.writes) [
      | inl w ↦ rw w (
          hash_in-kept relative other (document_of deps relative f normalized) db.documents d e
            (h.one_id d.id) apart)
      | inr w ↦ rw w refl
    ]

    is_unchanged-eq :
        (digest : Text) (found : Option Document)
        → is_unchanged deps digest found ≡ true
        → hash_of found ≡ some digest
    is_unchanged-eq digest none h = ground arith
    is_unchanged-eq digest (some d) h = ap some (eq_of_text_eq d.fields.content_hash digest h)

    persist-Settles :
        Settles relative (deps.digest normalized) (persist deps relative f normalized db)
    unfolding persist
    persist-Settles =
        let found = fetch_existing relative db.documents in
        elim (Bool-cases deps.reads) [
          | inr r ↦ rw r tt
          | inl r ↦ rw r (elim (Bool-cases (is_unchanged deps (deps.digest normalized) found)) [
            | inl u ↦ rw u (inr (is_unchanged-eq (deps.digest normalized) found u))
            | inr u ↦ rw u (elim (Option-cases (build_chunk_records deps normalized)) [
              | inl b ↦ rw b tt
              | inr (cs, b) ↦ rw b (write_chunks-Settles found cs refl)
            ])
          ])
        ]

    persist-Apart :
        (other : Text)
        → IsIndexed db
        → text_eq relative other ≡ false
        → Apart other db (persist deps relative f normalized db)
    unfolding persist
    persist-Apart other h apart =
        let found = fetch_existing relative db.documents in
        elim (Bool-cases deps.reads) [
          | inr r ↦ rw r tt
          | inl r ↦ rw r (elim (Bool-cases (is_unchanged deps (deps.digest normalized) found)) [
            | inl u ↦ rw u refl
            | inr u ↦ rw u (elim (Option-cases (build_chunk_records deps normalized)) [
              | inl b ↦ rw b tt
              | inr (cs, b) ↦ rw b (write_chunks-Apart other found cs refl h apart)
            ])
          ])
        ]

  parsed-Apart :
      (relative other : Text) (db : Db V) (p : ParsedFile)
      → IsIndexed db
      → text_eq relative other ≡ false
      → Apart other db (process_parsed deps relative db p)
  parsed-Apart relative other db (parsed f body) h apart =
      persist-Apart relative f (normalize_body deps.nfkc body) db other h apart
  parsed-Apart relative other db invalid h apart = refl
  parsed-Apart relative other db raises h apart = tt

  pub keeps-IsSettled :
      (g file : File) (db db' : Db V) (r : ProcessResult)
      → process_file deps g db ≡ some (db', r)
      → IsIndexed db
      → text_eq g.relative file.relative ≡ false
      → IsSettled db file
      → IsSettled db' file
  unfolding process_file
  keeps-IsSettled g file db db' r e h apart (f, body, p, k) =
      let same : hash_in file.relative db'.documents ≡ hash_in file.relative db.documents =
        subst (Apart file.relative db) (sym (process_sized-parsed g db g.size) ∙ e)
          (parsed-Apart g.relative file.relative db (parse_file g) h apart) in
      (f, body, p, same ∙ k)

  pub parsed-IsSettled :
      (file : File) (db db' : Db V) (r : ProcessResult) (p : ParsedFile)
      → parse_file file ≡ p
      → process_parsed deps file.relative db p ≡ some (db', r)
      → r.status ≢ ProcessStatus.failed
      → IsSettled db' file
  parsed-IsSettled file db db' r (parsed f body) q e ok =
      let settles : Settles file.relative (deps.digest (normalize_body deps.nfkc body))
          (some (db', r)) =
        subst (Settles file.relative (deps.digest (normalize_body deps.nfkc body))) e
          (persist-Settles file.relative f (normalize_body deps.nfkc body) db) in
      elim settles [ inl bad ↦ absurd (ok bad) | inr good ↦ (f, body, q, good) ]
  parsed-IsSettled file db db' r invalid q e ok =
      let bad : r.status ≡ ProcessStatus.failed = ground arith in absurd (ok bad)
  parsed-IsSettled file db db' r raises q e ok = ground arith
