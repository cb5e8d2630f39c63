-- ===== src/Drive/Fences.antt =====
-- The two readers of an exported file, the exporter's own and the one of the ingestion, find the same fences.
use archiviste_nocilia.Prelude.{
  ℕ, Text, Bool, true, false, not, ◌&&◌, Option, none, some, [], ◌∷◌, ◌++◌, eqb, codes, ◌≡◌, refl,
  arith, append_assoc,
}
use archiviste_nocilia.Ingest.Frontmatter.{drop_close, split_yaml, split_frontmatter}
use archiviste_nocilia.Drive.Frontmatter.{
  file_text, drop_prefix, split_fence, read_existing_frontmatter,
}

abbrev is_end : Option Text → Bool
is_end none = false
is_end (some []) = true
is_end (some (c ∷ s)) = eqb c 10

-- A line break and a line `---`.
unfoldable fence_at : Text → Bool
unfolding drop_prefix
fence_at s = is_end (drop_prefix (codes "\n---") s)

-- A text with no carriage return and no line `---` behind the first.
unfoldable pub is_front : Text → Bool
unfolding fence_at
is_front [] = true
is_front (c ∷ s) = not (eqb c 13) && (not (fence_at (c ∷ s)) && is_front s)

module _ (body : Text) where
  abbrev closing : Text
  closing = codes "\n---\n" ++ body

  -- No fence begins in such a text, for the exporter and for the ingestion.
  no_fence :
      (c : ℕ) (s : Text)
      → is_front (c ∷ s) ≡ true
      → drop_prefix (codes "\n---\n") ((c ∷ s) ++ closing) ≡ none
  unfolding is_front drop_prefix
  no_fence c [] h = ground arith
  no_fence c (d ∷ []) h = ground arith
  no_fence c (d ∷ e ∷ []) h = ground arith
  no_fence c (d ∷ e ∷ f ∷ []) h = ground arith
  no_fence c (d ∷ e ∷ f ∷ g ∷ s) h = ground arith

  no_close : (c : ℕ) (s : Text) → is_front (c ∷ s) ≡ true → drop_close ((c ∷ s) ++ closing) ≡ none
  unfolding is_front drop_prefix
  no_close c [] h = ground arith
  no_close c (d ∷ []) h = ground arith
  no_close c (d ∷ e ∷ []) h = ground arith
  no_close c (d ∷ e ∷ f ∷ []) h = ground arith
  no_close c (d ∷ e ∷ f ∷ g ∷ s) h = ground arith

  split_fence-front :
      (yaml : Text) → is_front yaml ≡ true → split_fence (yaml ++ closing) ≡ some (yaml, body)
  unfolding split_fence is_front
  split_fence-front [] h = refl
  split_fence-front (c ∷ s) h =
      rw (no_fence c s h)
        (let rest : is_front s ≡ true = ground arith in rw (split_fence-front s rest) refl)

  split_yaml-front :
      (yaml : Text) → is_front yaml ≡ true → split_yaml (yaml ++ closing) ≡ some (yaml, body)
  unfolding split_yaml is_front
  split_yaml-front [] h = refl
  split_yaml-front (c ∷ s) h =
      rw (no_close c s h)
        (let rest : is_front s ≡ true = ground arith in rw (split_yaml-front s rest) refl)

-- A file of a frontmatter that has no carriage return and no line `---` behind its first, and of any body, is read back:
-- the exporter finds its frontmatter again, and the ingestion finds the frontmatter and the body.
pub file_text-roundtrip :
    (yaml body : Text)
    → is_front yaml ≡ true
    → (read_existing_frontmatter (file_text (yaml ++ codes "\n") body) ≡ some yaml)
      × (split_frontmatter (file_text (yaml ++ codes "\n") body) ≡ some (yaml, body))
unfolding read_existing_frontmatter file_text split_frontmatter drop_prefix
file_text-roundtrip yaml body h =
    let assoc : (yaml ++ codes "\n") ++ (codes "---\n" ++ body)
        ≡ yaml ++ (codes "\n---\n" ++ body) =
      append_assoc yaml (codes "\n") (codes "---\n" ++ body) in
    (
      rw assoc (rw (split_fence-front body yaml h) refl),
      rw assoc (rw (split_yaml-front body yaml h) refl),
    )
