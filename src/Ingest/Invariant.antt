-- ===== src/Ingest/Invariant.antt =====
-- No file and no run of files breaks the index.
use mathlib.Core.Path.{subst}
use archiviste_nocilia.Prelude.{
  ℕ, ◌≤◌, Text, not, ◌≡◌, refl, sym, ◌∙◌, ap, inl, inr, Option, none, some, List, [], ◌∷◌, ◌++◌,
  map, filter, arith, eqb, eqb_iff, if◌then◌else◌, Bool-cases, Option-cases, text_eq, eq_of_text_eq,
  length, is_empty, ltb, append_nil,
}
use archiviste_nocilia.Ingest.{
  DocumentRecord, Document, ChunkRecord, ChunkRow, Db, fetch_existing, row_of, is_of, insert_chunks,
  insert_document_with_chunks, update_document_replace_chunks,
}
use archiviste_nocilia.Ingest.Frontmatter.{
  Frontmatter, parsed, invalid, raises, ParsedFile, parse_frontmatter, normalize_body,
}
use archiviste_nocilia.Ingest.Pipeline.{
  ProcessResult, File, PipelineDeps, build_chunk_records, write_chunks, is_unchanged, document_of,
  persist, process_parsed, process_text, process_sized, process_file, process_files, then_file,
  with_result, max_file_size_bytes,
}
use archiviste_nocilia.Ingest.Rows.{
  with_path, with_id, numbers, ords_of, ords, IsIndexed, ords_of-append, ords_of-own, ords_of-other,
  ords_of-deleted, ords_of-kept, zip_from-ords, with_path-append, with_id-append,
  update_documents-counts, fetch_existing-none, fetch_existing-id,
}

module _ {V : Type 0} where
  -- The chunks of a document that is written, and of any other.
  ords_of-inserted :
      (id other : ℕ) (cs : List (ChunkRecord V)) (rows : List (ChunkRow V))
      → ords_of id rows ≡ []
      → ords_of other (insert_chunks id cs rows)
        ≡ (if eqb id other then ords cs else ords_of other rows)
  ords_of-inserted id other cs rows none_yet = elim (Bool-cases (eqb id other)) [
    | inl e ↦ rw e (
        subst (λ x. ords_of x (insert_chunks id cs rows) ≡ ords cs) ((eqb_iff id other).0 e)
          (ords_of-append id rows (map (row_of id) cs)
            ∙ (ap (λ t. t ++ ords_of id (map (row_of id) cs)) none_yet ∙ ords_of-own id cs)))
    | inr e ↦ rw e (
        ords_of-append other rows (map (row_of id) cs)
        ∙ (ap (λ t. ords_of other rows ++ t) (ords_of-other id other cs e)
            ∙ append_nil (ords_of other rows)))
  ]

  IsNumbered : List (ChunkRecord V) → Type 0
  IsNumbered cs = ords cs ≡ numbers 0 (length (ords cs))

  insert-IsIndexed :
      (id : ℕ) (doc : DocumentRecord) (cs : List (ChunkRecord V)) (db : Db V)
      → IsIndexed db
      → IsNumbered cs
      → with_id id db.documents ≡ 0
      → with_path doc.source_path db.documents ≡ 0
      → IsIndexed (insert_document_with_chunks id doc cs db)
  unfolding insert_document_with_chunks IsNumbered
  insert-IsIndexed id doc cs db h numbered fresh absent =
      let new : Document = record { id = id; fields = doc } in
      let none_yet : ords_of id db.chunks ≡ [] = elim (h.owned id) [
        | inl k ↦ absurd (omega arith)
        | inr k ↦ k
      ] in
      record {
        one_path = λ path. elim (Bool-cases (text_eq doc.source_path path)) [
          | inl e ↦
              (let k : with_path path db.documents ≡ 0 =
                  ap (λ x. with_path x db.documents) (sym (eq_of_text_eq doc.source_path path e))
                  ∙ absent in
                ground (arith, with_path-append path db.documents (new ∷ [])))
          | inr e ↦ ground (arith, with_path-append path db.documents (new ∷ []), h.one_path path)
        ];
        one_id = λ n.
            ground
              (arith, with_id-append n db.documents (new ∷ []), h.one_id n, eqb_iff id n, fresh);
        in_order = λ n. ground (arith, ords_of-inserted id n cs db.chunks none_yet, h.in_order n);
        owned = λ n. ground (
          arith,
          ords_of-inserted id n cs db.chunks none_yet,
          h.owned n,
          with_id-append n db.documents (new ∷ []),
        );
      }

  update-IsIndexed :
      (id : ℕ) (doc : DocumentRecord) (cs : List (ChunkRecord V)) (db : Db V)
      → IsIndexed db
      → IsNumbered cs
      → 1 ≤ with_id id db.documents
      → IsIndexed (update_document_replace_chunks id doc cs db)
  unfolding update_document_replace_chunks IsNumbered
  update-IsIndexed id doc cs db h numbered there =
      let kept = filter (λ row. not (is_of id row)) db.chunks in
      record {
        one_path = λ path.
            omega (arith, (update_documents-counts id doc db.documents path 0).0, h.one_path path);
        one_id =
            λ n. omega (arith, (update_documents-counts id doc db.documents [] n).1, h.one_id n);
        in_order = λ n. ground (
          arith,
          ords_of-inserted id n cs kept (ords_of-deleted id db.chunks),
          ords_of-kept id n db.chunks,
          h.in_order n,
        );
        owned = λ n. ground (
          arith,
          ords_of-inserted id n cs kept (ords_of-deleted id db.chunks),
          ords_of-kept id n db.chunks,
          h.owned n,
          (update_documents-counts id doc db.documents [] n).1,
          eqb_iff id n,
        );
      }

  module _ (deps : PipelineDeps V) where
    build_chunk_records-IsNumbered :
        (normalized : Text) (cs : List (ChunkRecord V))
        → build_chunk_records deps normalized ≡ some cs
        → IsNumbered cs
    unfolding build_chunk_records IsNumbered
    build_chunk_records-IsNumbered normalized cs h =
        elim (Bool-cases (is_empty (deps.split_text normalized))) [
          | inl e ↦ ground arith
          | inr e ↦ elim (Option-cases (deps.encode_batch (deps.split_text normalized))) [
            | inl n ↦ ground arith
            | inr (vs, n) ↦ zip_from-ords 0 (deps.split_text normalized) vs cs (ground arith)
          ]
        ]

    module _ (fresh : (ds : List Document) → with_id (deps.new_id ds) ds ≡ 0) where
      -- A result, if there is one, leaves the tables indexed.
      Keeps : Option (Db V × ProcessResult) → Type 0
      Keeps none = Unit
      Keeps (some (db, result)) = IsIndexed db

      write_chunks-IsIndexed :
          (relative : Text) (f : Frontmatter) (normalized : Text) (db : Db V)
          (found : Option Document) (cs : List (ChunkRecord V))
          → IsIndexed db
          → fetch_existing relative db.documents ≡ found
          → IsNumbered cs
          → IsIndexed (write_chunks deps (document_of deps relative f normalized) found db cs).0
      write_chunks-IsIndexed relative f normalized db none cs h e k =
          elim (Bool-cases deps.writes) [
            | inl w ↦ rw w (
                insert-IsIndexed (deps.new_id db.documents) (document_of deps relative f normalized)
                  cs db h k (fresh db.documents) (fetch_existing-none relative db.documents e))
            | inr w ↦ rw w h
          ]
      write_chunks-IsIndexed relative f normalized db (some d) cs h e k =
          elim (Bool-cases deps.writes) [
            | inl w ↦ rw w (
                update-IsIndexed d.id (document_of deps relative f normalized) cs db h k
                  (fetch_existing-id relative db.documents d e))
            | inr w ↦ rw w h
          ]

      persist-Keeps :
          (relative : Text) (f : Frontmatter) (normalized : Text) (db : Db V)
          → IsIndexed db
          → Keeps (persist deps relative f normalized db)
      unfolding persist Keeps
      persist-Keeps relative f normalized db h =
          let found = fetch_existing relative db.documents in
          elim (Bool-cases deps.reads) [
            | inr r ↦ rw r tt
            | inl r ↦ rw r (elim (Bool-cases (is_unchanged deps (deps.digest normalized) found)) [
              | inl u ↦ rw u h
              | inr u ↦ rw u (elim (Option-cases (build_chunk_records deps normalized)) [
                | inl b ↦ rw b tt
                | inr (cs, b) ↦ rw b (
                    write_chunks-IsIndexed relative f normalized db found cs h refl
                      (build_chunk_records-IsNumbered normalized cs b))
              ])
            ])
          ]

      process_parsed-Keeps :
          (relative : Text) (db : Db V) (p : ParsedFile)
          → IsIndexed db
          → Keeps (process_parsed deps relative db p)
      unfolding Keeps
      process_parsed-Keeps relative db (parsed f body) h =
          persist-Keeps relative f (normalize_body deps.nfkc body) db h
      process_parsed-Keeps relative db invalid h = h
      process_parsed-Keeps relative db raises h = tt

      process_text-Keeps :
          (relative : Text) (db : Db V) (o : Option Text)
          → IsIndexed db
          → Keeps (process_text deps relative db o)
      unfolding Keeps
      process_text-Keeps relative db none h = h
      process_text-Keeps relative db (some raw) h =
          process_parsed-Keeps relative db (parse_frontmatter deps.load_yaml raw) h

      process_sized-Keeps :
          (file : File) (db : Db V) (o : Option ℕ)
          → IsIndexed db
          → Keeps (process_sized deps file db o)
      unfolding Keeps
      process_sized-Keeps file db none h = h
      process_sized-Keeps file db (some size) h = elim (Bool-cases (ltb max_file_size_bytes size)) [
        | inl e ↦ rw e h
        | inr e ↦ rw e (process_text-Keeps file.relative db file.raw h)
      ]

      pub process_file-IsIndexed :
          (file : File) (db db' : Db V) (result : ProcessResult)
          → process_file deps file db ≡ some (db', result)
          → IsIndexed db
          → IsIndexed db'
      unfolding process_file Keeps
      process_file-IsIndexed file db db' result e h =
          subst Keeps e (process_sized-Keeps file db file.size h)

      then_file-IsIndexed :
          (db : Db V) (one : Option (Db V × ProcessResult))
          (next : Db V → Db V × Option (List ProcessResult))
          → Keeps one
          → IsIndexed db
          → ((d : Db V) → IsIndexed d → IsIndexed (next d).0)
          → IsIndexed (then_file deps db one next).0
      unfolding Keeps
      then_file-IsIndexed db none next k h rest = h
      then_file-IsIndexed db (some (written, r)) next k h rest =
          with_result-IsIndexed (next written) (rest written k)
        where
          with_result-IsIndexed :
              (more : Db V × Option (List ProcessResult))
              → IsIndexed more.0
              → IsIndexed (with_result deps r more).0
          with_result-IsIndexed (d, none) m = m
          with_result-IsIndexed (d, some results) m = m

      -- If the table gives a new document an id that it does not have, a run over any files, one that an exception ends
      -- included, leaves the tables indexed where they were: one document for a path, its chunks numbered from 0 in order,
      -- and no chunk without its document.
      pub process_files-IsIndexed :
          (files : List File) (db : Db V) → IsIndexed db → IsIndexed (process_files deps files db).0
      unfolding process_files process_file
      process_files-IsIndexed [] db h = h
      process_files-IsIndexed (file ∷ files) db h =
          then_file-IsIndexed db (process_sized deps file db file.size) (process_files deps files)
            (process_sized-Keeps file db file.size h) h (process_files-IsIndexed files)
