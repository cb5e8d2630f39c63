-- ===== src/Parser/Known.antt =====
-- The dict of known paths: under each path it has the ordinals of all chunks of that path.
use archiviste_nocilia.Prelude.{
  ℕ, Text, Option, none, some, ◌≡◌, refl, sym, ap, List, [], ◌∷◌, ◌++◌, arith, if◌then◌else◌,
  append_nil, append_assoc, text_eq, text_eq_iff,
}
use archiviste_nocilia.Chunk.{Chunk}
use archiviste_nocilia.Parser.{OrdsByPath, lookup, setdefault_append, known_loop}

abbrev or_empty : Option (List ℕ) → List ℕ
or_empty none = []
or_empty (some ords) = ords

lookup-setdefault_append :
    (p q : Text) (o : ℕ) (d : OrdsByPath)
    → lookup p (setdefault_append q o d)
      ≡ (if text_eq q p then some (or_empty (lookup p d) ++ o ∷ []) else lookup p d)
unfolding lookup setdefault_append
lookup-setdefault_append p q o [] = refl
lookup-setdefault_append p q o ((r, ords) ∷ d) =
    ground
      (arith, lookup-setdefault_append p q o d, text_eq_iff r p, text_eq_iff r q, text_eq_iff q p)

-- The ordinals of the chunks of a path, in the order of the chunks.
abbrev pub ords_of : Text → List Chunk → List ℕ
ords_of p [] = []
ords_of p (chunk ∷ chunks) =
    if text_eq chunk.source_path p then chunk.ord ∷ ords_of p chunks else ords_of p chunks

-- What a dict holds under a key after more ordinals came in.
abbrev pub extend : Option (List ℕ) → List ℕ → Option (List ℕ)
extend none [] = none
extend none (o ∷ ords) = some (o ∷ ords)
extend (some before) ords = some (before ++ ords)

extend-cons :
    (found : Option (List ℕ)) (o : ℕ) (ords : List ℕ)
    → extend (some (or_empty found ++ o ∷ [])) ords ≡ extend found (o ∷ ords)
extend-cons none o ords = refl
extend-cons (some before) o ords = rw append_assoc

extend_nil : (found : Option (List ℕ)) → extend found [] ≡ found
extend_nil none = refl
extend_nil (some before) = ap some (append_nil before)

lookup-known_loop :
    (p : Text) (known : OrdsByPath) (chunks : List Chunk)
    → lookup p (known_loop known chunks) ≡ extend (lookup p known) (ords_of p chunks)
unfolding known_loop
lookup-known_loop p known [] = sym (extend_nil (lookup p known))
lookup-known_loop p known (chunk ∷ chunks) = ground (
  arith,
  lookup-known_loop p (setdefault_append chunk.source_path chunk.ord known) chunks,
  lookup-setdefault_append p chunk.source_path chunk.ord known,
  extend-cons (lookup p known) chunk.ord (ords_of p chunks),
)

-- Under a path that some chunk has, the dict of the first loop holds the ordinals of all chunks of
-- that path, in order; any other path it does not hold.
pub lookup-known :
    (p : Text) (chunks : List Chunk)
    → lookup p (known_loop [] chunks) ≡ extend none (ords_of p chunks)
unfolding lookup
lookup-known p chunks = lookup-known_loop p [] chunks
