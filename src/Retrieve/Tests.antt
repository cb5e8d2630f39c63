-- ===== src/Retrieve/Tests.antt =====
-- A search over three rows, in the order of their ordinals.
use archiviste_nocilia.Prelude.{
  ℕ, Text, ◌≡◌, refl, some, [], ◌∷◌, leb, ltb, codes, strip, text_eq, arith, if◌then◌else◌,
}
use archiviste_nocilia.Prelude.Decimal.{utf8_length}
use archiviste_nocilia.Acl.{is_known_tier}
use archiviste_nocilia.Request.{is_valid_query, internal_tier, has_surrogate}
use archiviste_nocilia.Router.Contexts.{augment}
use archiviste_nocilia.Fixtures.{public_chunk, second_chunk, hidden_chunk}
use archiviste_nocilia.Chunk.{Chunk}
use archiviste_nocilia.Retrieve.{
  Row, Backend, Question, Payload, valid, found, error, request_body, validate_body, execute_search,
  post_retrieve,
}
use archiviste_nocilia.Retrieve.Nearest.{IsTotal, IsTransitive, IsFound, post_retrieve-IsNearest}
use archiviste_nocilia.Retrieve.Asked.{IsAskable, asked_bytes, asked_text, post_retrieve-augment}

abbrev row : Text → Chunk → Row
row id chunk = record { chunk_id = id; document_id = codes "d"; chunk = chunk }

abbrev first_row : Row
first_row = row (codes "a") public_chunk

abbrev hidden_row : Row
hidden_row = row (codes "b") hidden_chunk

abbrev backend : Backend ℕ
backend = record {
  embedder = some (λ s. some 0);
  rows = some (row (codes "c") second_chunk ∷ hidden_row ∷ first_row ∷ []);
  comes_first = λ v r s. leb r.chunk.ord s.chunk.ord;
}

total : (v : ℕ) → IsTotal (backend.comes_first v)
total v r s h = ground arith

transitive : (v : ℕ) → IsTransitive (backend.comes_first v)
transitive v r s t h k = ground arith

abbrev asked : Payload
asked = request_body (codes "Qui regne ?") 2 "anonymous"

-- The tiers are left to the filter behind the endpoint.
finds_two : post_retrieve backend asked ≡ found (first_row ∷ hidden_row ∷ [])
unfolding post_retrieve strip has_surrogate text_eq utf8_length is_known_tier
finds_two = refl

post_retrieve-IsNearest_example :
    (q : Question) × ((validate_body asked ≡ valid q)
      × (IsAskable q × IsFound backend total transitive q (first_row ∷ hidden_row ∷ [])))
post_retrieve-IsNearest_example =
    post_retrieve-IsNearest backend asked (first_row ∷ hidden_row ∷ []) total transitive finds_two

post_retrieve-augment_example :
    post_retrieve backend
      (request_body (augment (some (codes "Qui regne ?")) (codes "Et avant ?")) 5 "members")
    ≡ (if ltb 4096 (asked_bytes (some (codes "Qui regne ?")) (codes "Et avant ?"))
        then error 400 "invalid_query"
        else execute_search backend
            (record {
              query = asked_text (some (codes "Qui regne ?")) (codes "Et avant ?");
              top_k = 5;
              user_tier = "members";
            })
            backend.embedder)
unfolding is_valid_query strip has_surrogate internal_tier utf8_length
post_retrieve-augment_example =
    post_retrieve-augment backend (some (codes "Qui regne ?")) (codes "Et avant ?") "member"
      "members" refl refl refl refl
