-- ===== src/Parser/Tests.antt =====
-- The citations of a concrete answer.
use archiviste_nocilia.Prelude.{◌≡◌, refl, none, [], ◌∷◌, All, codes, if◌then◌else◌, text_eq}
use archiviste_nocilia.Parser.{extract_citations}
use archiviste_nocilia.Parser.Brackets.{bracketed}
use archiviste_nocilia.Parser.Known.{ords_of, extend}
use archiviste_nocilia.Parser.Seen.{
  cited, some_match, cited-extract_citations, IsRetrieved, DistinctPaths,
  extract_citations-IsRetrieved,
}
use archiviste_nocilia.Fixtures.{public_chunk, second_chunk, hidden_chunk, answer}

cites_both :
    extract_citations answer (public_chunk ∷ hidden_chunk ∷ second_chunk ∷ [])
    ≡ record { source_path = codes "cosmos/lunes.md"; chunk_ords = 0 ∷ 3 ∷ [] } ∷ []
unfolding extract_citations text_eq
cites_both = refl

cited-extract_citations_example :
    cited (codes "cosmos/lunes.md") (extract_citations answer (public_chunk ∷ second_chunk ∷ []))
    ≡ (if some_match (codes "cosmos/lunes.md") (bracketed answer)
        then extend none (ords_of (codes "cosmos/lunes.md") (public_chunk ∷ second_chunk ∷ []))
        else none)
cited-extract_citations_example =
    cited-extract_citations answer (codes "cosmos/lunes.md") (public_chunk ∷ second_chunk ∷ []) refl

extract_citations-IsRetrieved_example :
    All
      (IsRetrieved (public_chunk ∷ second_chunk ∷ []))
      (extract_citations answer (public_chunk ∷ second_chunk ∷ []))
    × DistinctPaths (extract_citations answer (public_chunk ∷ second_chunk ∷ []))
extract_citations-IsRetrieved_example =
    extract_citations-IsRetrieved answer (public_chunk ∷ second_chunk ∷ [])
