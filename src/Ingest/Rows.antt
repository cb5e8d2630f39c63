-- ===== src/Ingest/Rows.antt =====
-- The tables stay indexed: one document for a path, and its chunks numbered from 0 on.
use archiviste_nocilia.Prelude.{
  ℕ, zero, suc, ◌+◌, ◌≤◌, Text, Bool, true, false, not, ◌≡◌, ◌⊎◌, refl, ap, inl, inr, none, some,
  List, [], ◌∷◌, ◌++◌, map, filter, arith, eqb, eqb_iff, if◌then◌else◌, Option-cases, text_eq,
  length,
}
use archiviste_nocilia.Ingest.{
  DocumentRecord, Document, ChunkRecord, ChunkRow, Db, fetch_existing, row_of, is_of,
  update_documents,
}
use archiviste_nocilia.Ingest.Pipeline.{zip_from}

abbrev pub one_if : Bool → ℕ
one_if true = 1
one_if false = 0

abbrev pub with_path : Text → List Document → ℕ
with_path path [] = 0
with_path path (d ∷ ds) = one_if (text_eq d.fields.source_path path) + with_path path ds

abbrev pub with_id : ℕ → List Document → ℕ
with_id id [] = 0
with_id id (d ∷ ds) = one_if (eqb d.id id) + with_id id ds

abbrev pub numbers : ℕ → ℕ → List ℕ
numbers n zero = []
numbers n (suc k) = n ∷ numbers (n + 1) k

module _ {V : Type 0} where
  abbrev pub ords_of : ℕ → List (ChunkRow V) → List ℕ
  ords_of id [] = []
  ords_of id (row ∷ rows) =
      if eqb row.document_id id then row.chunk.ord ∷ ords_of id rows else ords_of id rows

  abbrev pub ords : List (ChunkRecord V) → List ℕ
  ords [] = []
  ords (c ∷ cs) = c.ord ∷ ords cs

  -- One document for a path and for an id; the chunks of an id are numbered from 0 on in order, and
  -- there are none without the document.
  pub record IsIndexed (db : Db V) : Type 0 where
    pub one_path : (path : Text) → with_path path db.documents ≤ 1
    pub one_id : (id : ℕ) → with_id id db.documents ≤ 1
    pub in_order : (id : ℕ) → ords_of id db.chunks ≡ numbers 0 (length (ords_of id db.chunks))
    pub owned : (id : ℕ) → (1 ≤ with_id id db.documents) ⊎ (ords_of id db.chunks ≡ [])

  pub ords_of-append :
      (id : ℕ) (rs qs : List (ChunkRow V)) → ords_of id (rs ++ qs) ≡ ords_of id rs ++ ords_of id qs
  ords_of-append id [] qs = refl
  ords_of-append id (r ∷ rs) qs = ground (arith, ords_of-append id rs qs)

  pub ords_of-own : (id : ℕ) (cs : List (ChunkRecord V)) → ords_of id (map (row_of id) cs) ≡ ords cs
  ords_of-own id [] = refl
  ords_of-own id (c ∷ cs) = rw ((eqb_iff id id).1 refl) (ap (λ t. c.ord ∷ t) (ords_of-own id cs))

  pub ords_of-other :
      (id other : ℕ) (cs : List (ChunkRecord V))
      → eqb id other ≡ false
      → ords_of other (map (row_of id) cs) ≡ []
  ords_of-other id other [] h = refl
  ords_of-other id other (c ∷ cs) h = rw h (ords_of-other id other cs h)

  pub ords_of-deleted :
      (id : ℕ) (rs : List (ChunkRow V)) → ords_of id (filter (λ row. not (is_of id row)) rs) ≡ []
  ords_of-deleted id [] = refl
  ords_of-deleted id (r ∷ rs) = ground (arith, ords_of-deleted id rs)

  pub ords_of-kept :
      (id other : ℕ) (rs : List (ChunkRow V))
      → eqb id other ≡ false
      → ords_of other (filter (λ row. not (is_of id row)) rs) ≡ ords_of other rs
  ords_of-kept id other [] h = refl
  ords_of-kept id other (r ∷ rs) h = ground (arith, ords_of-kept id other rs h)

  pub zip_from-ords :
      (n : ℕ) (ts : List Text) (vs : List V) (cs : List (ChunkRecord V))
      → zip_from n ts vs ≡ some cs
      → ords cs ≡ numbers n (length (ords cs))
  unfolding zip_from
  zip_from-ords n [] [] cs h = ground arith
  zip_from-ords n [] (v ∷ vs) cs h = ground arith
  zip_from-ords n (t ∷ ts) [] cs h = ground arith
  zip_from-ords n (t ∷ ts) (v ∷ vs) cs h = elim (Option-cases (zip_from (n + 1) ts vs)) [
    | inl e ↦ ground arith
    | inr (rest, e) ↦ ground (arith, zip_from-ords (n + 1) ts vs rest e)
  ]

pub with_path-append :
    (path : Text) (ds es : List Document)
    → with_path path (ds ++ es) ≡ with_path path ds + with_path path es
with_path-append path [] es = omega arith
with_path-append path (d ∷ ds) es = omega (arith, with_path-append path ds es)

pub with_id-append :
    (id : ℕ) (ds es : List Document) → with_id id (ds ++ es) ≡ with_id id ds + with_id id es
with_id-append id [] es = omega arith
with_id-append id (d ∷ ds) es = omega (arith, with_id-append id ds es)

pub update_documents-counts :
    (id : ℕ) (doc : DocumentRecord) (ds : List Document) (path : Text) (n : ℕ)
    → (with_path path (update_documents id doc ds) ≡ with_path path ds)
      × (with_id n (update_documents id doc ds) ≡ with_id n ds)
unfolding update_documents
update_documents-counts id doc [] path n = (refl, refl)
update_documents-counts id doc (d ∷ ds) path n =
    ground (arith, update_documents-counts id doc ds path n)

pub fetch_existing-none :
    (path : Text) (ds : List Document) → fetch_existing path ds ≡ none → with_path path ds ≡ 0
unfolding fetch_existing
fetch_existing-none path [] h = refl
fetch_existing-none path (d ∷ ds) h = ground (arith, fetch_existing-none path ds)

pub fetch_existing-id :
    (path : Text) (ds : List Document) (d : Document)
    → fetch_existing path ds ≡ some d
    → 1 ≤ with_id d.id ds
unfolding fetch_existing
fetch_existing-id path [] d h = ground arith
fetch_existing-id path (e ∷ ds) d h = ground (arith, fetch_existing-id path ds d, eqb_iff d.id d.id)
