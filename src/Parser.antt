-- ===== src/Parser.antt =====
-- workers/src/archiviste_workers/generate/parser.py: the post-hoc parse of an LLM answer. The
-- regular expressions are written out as scanners. Telemetry lines are left out.
pub mod Brackets
pub mod Known
pub mod Seen
pub mod Followups
mod Tests
use archiviste_nocilia.Prelude.{
  ℕ, Text, Option, none, some, List, [], ◌∷◌, ◌++◌, eqb, if◌then◌else◌, strip, is_empty, text_eq,
}
use archiviste_nocilia.Chunk.{Chunk, Citation}
use archiviste_nocilia.Parser.Brackets.{bracketed, split_on, comma}

-- A Python dict from a source path to a list of ordinals, in the order of insertion.
abbrev pub OrdsByPath : Type 0
OrdsByPath = List (Text × List ℕ)

unfoldable pub lookup : Text → OrdsByPath → Option (List ℕ)
lookup p [] = none
lookup p ((q, ords) ∷ d) = if text_eq q p then some ords else lookup p d

-- `known.setdefault(path, []).append(ord)`
unfoldable pub setdefault_append : Text → ℕ → OrdsByPath → OrdsByPath
setdefault_append p o [] = (p, o ∷ []) ∷ []
setdefault_append p o ((q, ords) ∷ d) =
    if text_eq q p then (q, ords ++ o ∷ []) ∷ d else (q, ords) ∷ setdefault_append p o d

-- The first loop, from the dict built so far.
unfoldable pub known_loop : OrdsByPath → List Chunk → OrdsByPath
unfolding setdefault_append
known_loop known [] = known
known_loop known (chunk ∷ chunks) =
    known_loop (setdefault_append chunk.source_path chunk.ord known) chunks

abbrev pub add_unseen : Text → List ℕ → Option (List ℕ) → OrdsByPath → OrdsByPath
add_unseen p ords none seen = seen ++ (p, ords) ∷ []
add_unseen p ords (some _) seen = seen

abbrev pub add_known : Text → Option (List ℕ) → OrdsByPath → OrdsByPath
add_known p none seen = seen
add_known p (some ords) seen = add_unseen p ords (lookup p seen) seen

-- The body of the inner loop, for one piece between commas.
unfoldable pub add_piece : OrdsByPath → OrdsByPath → Text → OrdsByPath
unfolding lookup strip
add_piece known seen piece =
    let candidate = strip piece in
    if is_empty candidate then seen else add_known candidate (lookup candidate known) seen

unfoldable pub add_pieces : OrdsByPath → OrdsByPath → List Text → OrdsByPath
unfolding add_piece
add_pieces known seen [] = seen
add_pieces known seen (piece ∷ pieces) = add_pieces known (add_piece known seen piece) pieces

-- The second loop, over the matches of the citation pattern.
unfoldable pub add_matches : OrdsByPath → OrdsByPath → List Text → OrdsByPath
unfolding add_pieces split_on
add_matches known seen [] = seen
add_matches known seen (raw_match ∷ matches) =
    add_matches known (add_pieces known seen (split_on comma raw_match)) matches

unfoldable pub to_citations : OrdsByPath → List Citation
to_citations [] = []
to_citations ((p, ords) ∷ seen) = record { source_path = p; chunk_ords = ords } ∷ to_citations seen

unfoldable pub extract_citations : Text → List Chunk → List Citation
unfolding known_loop add_matches bracketed to_citations
extract_citations answer chunks =
    to_citations (add_matches (known_loop [] chunks) [] (bracketed answer))
