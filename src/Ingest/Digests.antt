-- ===== src/Ingest/Digests.antt =====
-- The digest that a path has in the table, through inserts and updates.
use archiviste_nocilia.Prelude.{
  ℕ, ◌≤◌, Text, false, ◌≡◌, refl, ◌∙◌, ap, inl, inr, Option, none, some, List, [], ◌∷◌, ◌++◌, arith,
  eqb_iff, if◌then◌else◌, Bool-cases, text_eq, eq_of_text_eq,
}
use archiviste_nocilia.Ingest.{DocumentRecord, Document, fetch_existing, update_documents}
use archiviste_nocilia.Ingest.Rows.{with_id, fetch_existing-id}

-- The digest that a path has in the table.
abbrev pub hash_of : Option Document → Option Text
hash_of none = none
hash_of (some d) = some d.fields.content_hash

abbrev pub hash_in : Text → List Document → Option Text
hash_in path ds = hash_of (fetch_existing path ds)

pub fetch_existing-append :
    (path : Text) (ds : List Document) (d : Document)
    → fetch_existing path (ds ++ d ∷ []) ≡ elim (fetch_existing path ds) [
      | none ↦ (if text_eq d.fields.source_path path then some d else none)
      | some e ↦ some e
    ]
unfolding fetch_existing
fetch_existing-append path [] d = refl
fetch_existing-append path (e ∷ ds) d = ground (arith, fetch_existing-append path ds d)

update_documents-none :
    (id : ℕ) (doc : DocumentRecord) (ds : List Document)
    → with_id id ds ≡ 0
    → update_documents id doc ds ≡ ds
unfolding update_documents
update_documents-none id doc [] h = refl
update_documents-none id doc (d ∷ ds) h = ground (arith, update_documents-none id doc ds)

-- An update gives the path of the document its digest, and no other path another one.
pub hash_in-updated :
    (path : Text) (doc : DocumentRecord) (ds : List Document) (d : Document)
    → fetch_existing path ds ≡ some d
    → hash_in path (update_documents d.id doc ds) ≡ some doc.content_hash
unfolding fetch_existing update_documents
hash_in-updated path doc [] d h = ground arith
hash_in-updated path doc (e ∷ ds) d h =
    ground (arith, hash_in-updated path doc ds d, eqb_iff d.id d.id)

pub hash_in-kept :
    (path other : Text) (doc : DocumentRecord) (ds : List Document) (d : Document)
    → fetch_existing path ds ≡ some d
    → with_id d.id ds ≤ 1
    → text_eq path other ≡ false
    → hash_in other (update_documents d.id doc ds) ≡ hash_in other ds
unfolding fetch_existing update_documents
hash_in-kept path other doc [] d h one apart = refl
hash_in-kept path other doc (e ∷ ds) d h one apart =
    elim (Bool-cases (text_eq e.fields.source_path path)) [
      | inl k ↦
          (let same : e ≡ d = ground arith in
            let away : text_eq e.fields.source_path other ≡ false =
              ap (λ x. text_eq x other) (eq_of_text_eq e.fields.source_path path k) ∙ apart in
            ground (arith, update_documents-none d.id doc ds, eqb_iff d.id d.id))
      | inr k ↦
          (let rest : fetch_existing path ds ≡ some d = ground arith in
            ground (arith, fetch_existing-id path ds d rest, hash_in-kept path other doc ds d rest))
    ]
