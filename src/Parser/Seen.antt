-- ===== src/Parser/Seen.antt =====
-- What `extract_citations` returns, whatever the answer says: only paths of retrieved chunks, with
-- the ordinals of exactly their chunks, each path once.
use archiviste_nocilia.Prelude.{
  ℕ, Text, Bool, false, ◌||◌, Option, none, some, ◌≡◌, ◌≢◌, refl, List, [], ◌∷◌, ◌++◌, arith,
  if◌then◌else◌, text_eq, text_eq_iff, Option-cases, Bool-cases, inl, inr, strip, is_empty, All,
  All-append,
}
use archiviste_nocilia.Chunk.{Chunk, Citation}
use archiviste_nocilia.Parser.{
  OrdsByPath, lookup, known_loop, add_known, add_piece, add_pieces, add_matches, to_citations,
  extract_citations,
}
use archiviste_nocilia.Parser.Brackets.{bracketed, split_on, comma}
use archiviste_nocilia.Parser.Known.{ords_of, extend, lookup-known}

-- No key comes twice.
abbrev pub Distinct : OrdsByPath → Type 0
Distinct [] = Unit
Distinct ((p, ords) ∷ d) = (lookup p d ≡ none) × Distinct d

lookup-append_new :
    (p q : Text) (ords : List ℕ) (d : OrdsByPath)
    → lookup p d ≡ none
    → text_eq q p ≡ false
    → lookup p (d ++ (q, ords) ∷ []) ≡ none
unfolding lookup
lookup-append_new p q ords [] h k = rw k
lookup-append_new p q ords ((r, rs) ∷ d) h k = ground (arith, lookup-append_new p q ords d)

Distinct-append :
    (p : Text) (ords : List ℕ) (d : OrdsByPath)
    → Distinct d
    → lookup p d ≡ none
    → Distinct (d ++ (p, ords) ∷ [])
unfolding lookup
Distinct-append p ords [] h k = (refl, tt)
Distinct-append p ords ((q, qs) ∷ d) h k = (
  ground (arith, lookup-append_new q p ords d, text_eq_iff q p, text_eq_iff p q),
  Distinct-append p ords d h.1 (ground arith),
)

-- The invariant of the second loop.
record IsSound (known seen : OrdsByPath) : Type 0 where
  distinct : Distinct seen
  agrees : All (λ e. lookup e.0 known ≡ some e.1) seen

module _ (known : OrdsByPath) where
  add_known-IsSound :
      (p : Text) (seen : OrdsByPath)
      → IsSound known seen
      → IsSound known (add_known p (lookup p known) seen)
  add_known-IsSound p seen s = elim (Option-cases (lookup p known)) [
    | inl absent ↦ rw absent s
    | inr (ords, e) ↦ elim (Option-cases (lookup p seen)) [
      | inl new ↦
          rw (e, new)
            (record {
              distinct = Distinct-append p ords seen s.distinct new;
              agrees =
                  All-append (λ e. lookup e.0 known ≡ some e.1) seen ((p, ords) ∷ []) s.agrees
                    (e, tt);
            })
      | inr (old, k) ↦ rw (e, k) s
    ]
  ]

  add_piece-IsSound :
      (seen : OrdsByPath) (piece : Text)
      → IsSound known seen
      → IsSound known (add_piece known seen piece)
  unfolding add_piece
  add_piece-IsSound seen piece s = elim (Bool-cases (is_empty (strip piece))) [
    | inl blank ↦ rw blank s
    | inr text ↦ rw text (add_known-IsSound (strip piece) seen s)
  ]

  add_pieces-IsSound :
      (seen : OrdsByPath) (pieces : List Text)
      → IsSound known seen
      → IsSound known (add_pieces known seen pieces)
  unfolding add_pieces
  add_pieces-IsSound seen [] s = s
  add_pieces-IsSound seen (piece ∷ pieces) s =
      add_pieces-IsSound (add_piece known seen piece) pieces (add_piece-IsSound seen piece s)

  add_matches-IsSound :
      (seen : OrdsByPath) (matches : List Text)
      → IsSound known seen
      → IsSound known (add_matches known seen matches)
  unfolding add_matches
  add_matches-IsSound seen [] s = s
  add_matches-IsSound seen (m ∷ matches) s =
      add_matches-IsSound (add_pieces known seen (split_on comma m)) matches
        (add_pieces-IsSound seen (split_on comma m) s)

-- Whether the answer names the path in a bracket, alone or between commas.
abbrev pub some_piece : Text → List Text → Bool
some_piece p [] = false
some_piece p (piece ∷ pieces) = text_eq (strip piece) p || some_piece p pieces

abbrev pub some_match : Text → List Text → Bool
some_match p [] = false
some_match p (m ∷ matches) = some_piece p (split_on comma m) || some_match p matches

abbrev or_else : Option (List ℕ) → Option (List ℕ) → Option (List ℕ)
or_else none b = b
or_else (some a) b = some a

abbrev only_if : Bool → Option (List ℕ) → Option (List ℕ)
only_if b o = if b then o else none

or_else_twice :
    (a b c : Bool) (found known : Option (List ℕ))
    → c ≡ (a || b)
    → or_else (or_else found (only_if a known)) (only_if b known) ≡ or_else found (only_if c known)
or_else_twice a b c found known h = ground arith

lookup-append :
    (p q : Text) (ords : List ℕ) (d : OrdsByPath)
    → lookup p (d ++ (q, ords) ∷ []) ≡ or_else (lookup p d) (only_if (text_eq q p) (some ords))
unfolding lookup
lookup-append p q ords [] = refl
lookup-append p q ords ((r, rs) ∷ d) = ground (arith, lookup-append p q ords d)

module _ (known : OrdsByPath) (p : Text) (named : is_empty p ≡ false) where
  lookup-add_known :
      (q : Text) (seen : OrdsByPath)
      → lookup p (add_known q (lookup q known) seen)
        ≡ or_else (lookup p seen) (only_if (text_eq q p) (lookup p known))
  lookup-add_known q seen = elim (Option-cases (lookup q known)) [
    | inl absent ↦ rw absent (ground (arith, text_eq_iff q p))
    | inr (ords, e) ↦ rw e (ground (arith, text_eq_iff q p, lookup-append p q ords seen))
  ]

  lookup-add_piece :
      (seen : OrdsByPath) (piece : Text)
      → lookup p (add_piece known seen piece)
        ≡ or_else (lookup p seen) (only_if (text_eq (strip piece) p) (lookup p known))
  unfolding add_piece
  lookup-add_piece seen piece =
      ground (arith, lookup-add_known (strip piece) seen, text_eq_iff (strip piece) p)

  lookup-add_pieces :
      (seen : OrdsByPath) (pieces : List Text)
      → lookup p (add_pieces known seen pieces)
        ≡ or_else (lookup p seen) (only_if (some_piece p pieces) (lookup p known))
  unfolding add_pieces
  lookup-add_pieces seen [] = ground arith
  lookup-add_pieces seen (piece ∷ pieces) =
      ground
        (arith, lookup-add_pieces (add_piece known seen piece) pieces, lookup-add_piece seen piece)

  lookup-add_matches :
      (seen : OrdsByPath) (matches : List Text)
      → lookup p (add_matches known seen matches)
        ≡ or_else (lookup p seen) (only_if (some_match p matches) (lookup p known))
  unfolding add_matches
  lookup-add_matches seen [] = ground arith
  lookup-add_matches seen (m ∷ matches) = ground (
    arith,
    lookup-add_matches (add_pieces known seen (split_on comma m)) matches,
    lookup-add_pieces seen (split_on comma m),
  )

-- The ordinals under which the citations cite a path, if they do.
unfoldable pub cited : Text → List Citation → Option (List ℕ)
cited p [] = none
cited p (c ∷ citations) = if text_eq c.source_path p then some c.chunk_ords else cited p citations

cited-to_citations : (p : Text) (d : OrdsByPath) → cited p (to_citations d) ≡ lookup p d
unfolding cited to_citations lookup
cited-to_citations p [] = refl
cited-to_citations p ((q, ords) ∷ d) = ground (arith, cited-to_citations p d)

-- A path is cited exactly if the answer names it in a bracket and some retrieved chunk has it, and
-- then under the ordinals of all chunks of that path, in the order of the search.
pub cited-extract_citations :
    (answer p : Text) (chunks : List Chunk)
    → is_empty p ≡ false
    → cited p (extract_citations answer chunks)
      ≡ (if some_match p (bracketed answer) then extend none (ords_of p chunks) else none)
unfolding extract_citations
cited-extract_citations answer p chunks named = ground (
  arith,
  cited-to_citations p (add_matches (known_loop [] chunks) [] (bracketed answer)),
  lookup-add_matches (known_loop [] chunks) p named [] (bracketed answer),
  lookup-known p chunks,
)

-- One citation for each path.
abbrev pub DistinctPaths : List Citation → Type 0
DistinctPaths [] = Unit
DistinctPaths (c ∷ citations) = (cited c.source_path citations ≡ none) × DistinctPaths citations

-- A citation of retrieved chunks only: their ordinals, at least one.
abbrev pub IsRetrieved : List Chunk → Citation → Type 0
IsRetrieved chunks c = (c.chunk_ords ≡ ords_of c.source_path chunks) × (c.chunk_ords ≢ [])

to_citations-IsRetrieved :
    (chunks : List Chunk) (d : OrdsByPath)
    → IsSound (known_loop [] chunks) d
    → All (IsRetrieved chunks) (to_citations d) × DistinctPaths (to_citations d)
unfolding to_citations
to_citations-IsRetrieved chunks [] s = (tt, tt)
to_citations-IsRetrieved chunks ((p, ords) ∷ d) s =
    let (all, distinct) =
      to_citations-IsRetrieved chunks d (record { distinct = s.distinct.1; agrees = s.agrees.1 }) in
    (
      (ground (arith, s.agrees.0, lookup-known p chunks), all),
      (ground (arith, s.distinct.0, cited-to_citations p d), distinct),
    )

-- Whatever the answer says, each citation is of retrieved chunks only, with the ordinals of all
-- chunks of its path and of no other, and no path is cited twice.
pub extract_citations-IsRetrieved :
    (answer : Text) (chunks : List Chunk)
    → All (IsRetrieved chunks) (extract_citations answer chunks)
      × DistinctPaths (extract_citations answer chunks)
unfolding extract_citations
extract_citations-IsRetrieved answer chunks =
    to_citations-IsRetrieved chunks (add_matches (known_loop [] chunks) [] (bracketed answer)) (
      add_matches-IsSound (known_loop [] chunks) [] (bracketed answer)
        (record { distinct = tt; agrees = tt }))
