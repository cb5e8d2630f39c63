-- ===== src/Retrieve/Nearest.antt =====
-- The search gives the nearest rows.
use mathlib.Core.Path.{subst}
use mathlib.Core.List.{Perm}
use mathlib.Core.List.Perm
use archiviste_nocilia.Prelude.{
  ℕ, zero, suc, min, Text, Bool, true, false, ◌≡◌, refl, sym, ◌∙◌, ap, Option, none, some, List, [],
  ◌∷◌, ◌++◌, take, drop, length, All, Bool-cases, Option-cases, inl, inr, arith,
}
use archiviste_nocilia.Retrieve.{
  Row, Backend, insert_row, order_by, search, Response, found, error, crashed, respond, all_known,
  search_with, execute_search, answer, post_retrieve, Payload, validate_body, Checked, valid,
  invalid, unencodable, Question,
}
use archiviste_nocilia.Retrieve.Asked.{IsAskable, validate_body-IsAskable}

module _ (le : Row → Row → Bool) where
  abbrev pub IsSorted : List Row → Type 0
  IsSorted [] = Unit
  IsSorted (r ∷ rows) = All (λ s. le r s ≡ true) rows × IsSorted rows

  -- The order of the database is total and transitive.
  abbrev pub IsTotal : Type 0
  IsTotal = (r s : Row) → le r s ≡ false → le s r ≡ true

  abbrev pub IsTransitive : Type 0
  IsTransitive = (r s t : Row) → le r s ≡ true → le s t ≡ true → le r t ≡ true

  -- The result with the rows that are left out makes up the corpus, in order, and only the limit leaves rows out.
  abbrev pub IsNearest : ℕ → List Row → List Row → Type 0
  IsNearest k corpus result =
      (left : List Row) × (Perm (result ++ left) corpus
        × (IsSorted (result ++ left) × (length result ≡ min k (length corpus))))

  insert_row-perm : (r : Row) (rows : List Row) → Perm (insert_row le r rows) (r ∷ rows)
  insert_row-perm r [] = Perm.rfl
  insert_row-perm r (s ∷ rows) = elim (Bool-cases (le r s)) [
    | inl h ↦ rw h Perm.rfl
    | inr h ↦ rw h (Perm.trans (Perm.cons s (insert_row-perm r rows)) (Perm.swap r s rows))
  ]

  order_by-perm : (rows : List Row) → Perm (order_by le rows) rows
  unfolding order_by
  order_by-perm [] = Perm.rfl
  order_by-perm (r ∷ rows) =
      Perm.trans (insert_row-perm r (order_by le rows)) (Perm.cons r (order_by-perm rows))

  below_insert :
      (r s : Row) (rows : List Row)
      → le s r ≡ true
      → All (λ t. le s t ≡ true) rows
      → All (λ t. le s t ≡ true) (insert_row le r rows)
  below_insert r s [] h k = (h, tt)
  below_insert r s (t ∷ rows) h k = elim (Bool-cases (le r t)) [
    | inl e ↦ rw e (h, k)
    | inr e ↦ rw e (k.0, below_insert r s rows h k.1)
  ]

  below_trans :
      (r s : Row) (rows : List Row)
      → IsTransitive
      → le r s ≡ true
      → All (λ t. le s t ≡ true) rows
      → All (λ t. le r t ≡ true) rows
  below_trans r s [] trans h k = tt
  below_trans r s (t ∷ rows) trans h k = (trans r s t h k.0, below_trans r s rows trans h k.1)

  insert_row-IsSorted :
      IsTotal
      → IsTransitive
      → (r : Row) (rows : List Row) → IsSorted rows
      → IsSorted (insert_row le r rows)
  insert_row-IsSorted total trans r [] h = (tt, tt)
  insert_row-IsSorted total trans r (s ∷ rows) h = elim (Bool-cases (le r s)) [
    | inl e ↦ rw e ((e, below_trans r s rows trans e h.0), h)
    | inr e ↦
        rw e (below_insert r s rows (total r s e) h.0, insert_row-IsSorted total trans r rows h.1)
  ]

  order_by-IsSorted : IsTotal → IsTransitive → (rows : List Row) → IsSorted (order_by le rows)
  unfolding order_by
  order_by-IsSorted total trans [] = tt
  order_by-IsSorted total trans (r ∷ rows) =
      insert_row-IsSorted total trans r (order_by le rows) (order_by-IsSorted total trans rows)

  length-insert_row :
      (r : Row) (rows : List Row) → length (insert_row le r rows) ≡ suc (length rows)
  length-insert_row r [] = refl
  length-insert_row r (s ∷ rows) = elim (Bool-cases (le r s)) [
    | inl e ↦ rw e refl
    | inr e ↦ rw e (ap suc (length-insert_row r rows))
  ]

  length-order_by : (rows : List Row) → length (order_by le rows) ≡ length rows
  unfolding order_by
  length-order_by [] = refl
  length-order_by (r ∷ rows) =
      length-insert_row r (order_by le rows) ∙ ap suc (length-order_by rows)

take-drop : (k : ℕ) (rows : List Row) → take k rows ++ drop k rows ≡ rows
take-drop zero rows = refl
take-drop (suc k) [] = refl
take-drop (suc k) (r ∷ rows) = ap (λ t. r ∷ t) (take-drop k rows)

length-take : (k : ℕ) (rows : List Row) → length (take k rows) ≡ min k (length rows)
length-take zero rows = omega arith
length-take (suc k) [] = omega arith
length-take (suc k) (r ∷ rows) = omega (arith, length-take k rows)

pub take-IsNearest :
    (le : Row → Row → Bool)
    → IsTotal le
    → IsTransitive le
    → (k : ℕ) (corpus : List Row) → IsNearest le k corpus (take k (order_by le corpus))
take-IsNearest le total trans k corpus =
    let sorted = order_by le corpus in
    let whole = sym (take-drop k sorted) in
    (
      drop k sorted,
      (
        subst (λ rows. Perm rows corpus) whole (order_by-perm le corpus),
        (
          subst (IsSorted le) whole (order_by-IsSorted le total trans corpus),
          length-take k sorted ∙ ap (min k) (length-order_by le corpus),
        ),
      ),
    )

module _ {V : Type 0} (b : Backend V) (total : (v : V) → IsTotal (b.comes_first v))
    (trans : (v : V) → IsTransitive (b.comes_first v)) where
  -- The vector that the embedder of the app gives for a text.
  abbrev pub IsVector : Text → V → Type 0
  IsVector query vector =
      (encode : Text → Option V) × ((b.embedder ≡ some encode) × (encode query ≡ some vector))

  -- What a response with rows shows of the question behind it: they are the nearest to the vector of its query.
  abbrev pub IsFound : Question → List Row → Type 0
  IsFound q rows =
      (vector : V) × (IsVector q.query vector
        × ((corpus : List Row) × ((b.rows ≡ some corpus)
              × IsNearest (b.comes_first vector) q.top_k corpus rows)))

  respond-found : (result rows : List Row) → respond (some result) ≡ found rows → result ≡ rows
  unfolding all_known
  respond-found result rows h = elim (Bool-cases (all_known result)) [
    | inl e ↦ ap (rows_of result) (rw e at h)
    | inr e ↦ (let k : crashed ≡ found rows = rw e at h in cc)
  ]
    where
      rows_of : List Row → Response → List Row
      rows_of default (found rows) = rows
      rows_of default (error status code) = default
      rows_of default crashed = default

  search-IsFound :
      (q : Question) (vector : V) (rows : List Row)
      → IsVector q.query vector
      → respond (search b vector q.top_k) ≡ found rows
      → IsFound q rows
  unfolding search respond
  search-IsFound q vector rows v h = elim (Option-cases b.rows) [
    | inl e ↦ (let k : error 503 "database_unavailable" ≡ found rows = rw e at h in cc)
    | inr (corpus, e) ↦
        let near : IsNearest (b.comes_first vector) q.top_k corpus rows =
          subst (IsNearest (b.comes_first vector) q.top_k corpus)
            (respond-found (take q.top_k (order_by (b.comes_first vector) corpus)) rows (rw e at h))
            (take-IsNearest (b.comes_first vector) (total vector) (trans vector) q.top_k corpus) in
        (vector, (v, (corpus, (e, near))))
  ]

  search_with-IsFound :
      (q : Question) (vector : Option V) (rows : List Row)
      → ((v : V) → vector ≡ some v → IsVector q.query v)
      → search_with b q.top_k vector ≡ found rows
      → IsFound q rows
  unfolding search_with
  search_with-IsFound q none rows of_query h = cc
  search_with-IsFound q (some vector) rows of_query h =
      search-IsFound q vector rows (of_query vector refl) h

  execute_search-IsFound :
      (q : Question) (encode : Option (Text → Option V)) (rows : List Row)
      → b.embedder ≡ encode
      → execute_search b q encode ≡ found rows
      → IsFound q rows
  unfolding execute_search
  execute_search-IsFound q none rows e h = cc
  execute_search-IsFound q (some encode) rows e h =
      search_with-IsFound q (encode q.query) rows (λ v k. (encode, (e, k))) h

  answer-IsFound :
      (c : Checked Question) (rows : List Row)
      → answer b c ≡ found rows
      → (q : Question) × ((c ≡ valid q) × IsFound q rows)
  unfolding answer
  answer-IsFound (valid q) rows h = (q, (refl, execute_search-IsFound q b.embedder rows refl h))
  answer-IsFound (invalid code) rows h = cc
  answer-IsFound unencodable rows h = cc

-- If the order of the rows is total and transitive, whatever the endpoint answers with rows is asked by a valid question, with 1 to 20 rows wanted and a query
-- that is not blank and has at most 4096 bytes, and gives the rows nearest to the vector that the embedder has for the query: as many as wanted, or all that there
-- are, in order, with no row left out that comes before one of them.
pub post_retrieve-IsNearest :
    {V : Type 0} (b : Backend V) (payload : Payload) (rows : List Row)
    (total : (v : V) → IsTotal (b.comes_first v)) (trans : (v : V) → IsTransitive (b.comes_first v))
    → post_retrieve b payload ≡ found rows
    → (q : Question) × ((validate_body payload ≡ valid q)
        × ((IsAskable q) × IsFound b total trans q rows))
unfolding post_retrieve
post_retrieve-IsNearest b payload rows total trans h =
    let (q, (checked, near)) = answer-IsFound b total trans (validate_body payload) rows h in
    (q, (checked, (validate_body-IsAskable payload q checked, near)))
