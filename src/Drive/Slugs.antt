-- ===== src/Drive/Slugs.antt =====
-- scripts/gdrive_export/slugify.py and paths.py: the name of a file of Drive below the root.
use archiviste_nocilia.Prelude.{
  ℕ, Text, Bool, true, false, not, ◌&&◌, ◌||◌, [], ◌∷◌, ◌++◌, map, filter, take, eqb, leb,
  if◌then◌else◌, codes, strip_by,
}

-- What `unicodedata` and `str.lower` do.
pub record Unicode : Type 0 where
  pub nfkd : Text → Text
  pub is_mn : ℕ → Bool
  pub lower : Text → Text

abbrev pub max_len : ℕ
max_len = 80

-- `_UNICODE_DASHES`
abbrev pub translate_dash : ℕ → ℕ
translate_dash c =
    if eqb c 0x2014 || (eqb c 0x2013 || (eqb c 0x2012 || eqb c 0x2212)) then 45 else c

-- `[a-z0-9]`
unfoldable pub is_alnum : ℕ → Bool
is_alnum c = (leb 97 c && leb c 122) || (leb 48 c && leb c 57)

-- `re.sub(r"[^a-z0-9]+", "-", s)`, in a run of other characters or not.
unfoldable pub replace_runs : Bool → Text → Text
unfolding is_alnum
replace_runs in_run [] = []
replace_runs in_run (c ∷ s) =
    let out = replace_runs false s in
    let inside = replace_runs true s in
    if is_alnum c then c ∷ out else if in_run then inside else 45 ∷ inside

-- `re.sub(r"-{2,}", "-", s)`, behind a dash or not.
unfoldable pub collapse : Bool → Text → Text
collapse behind [] = []
collapse behind (c ∷ s) =
    let out = collapse false s in
    let inside = collapse true s in
    if not (eqb c 45) then c ∷ out else if behind then inside else 45 ∷ inside

abbrev pub is_dash : ℕ → Bool
is_dash c = eqb c 45

abbrev pub or_file : Text → Text → Text
or_file [] fallback_id = codes "file-" ++ take 8 fallback_id
or_file (c ∷ s) fallback_id = c ∷ s

-- The text from the lower case on.
unfoldable pub slug_of : Text → Text
unfolding replace_runs collapse strip_by
slug_of lowered =
    strip_by is_dash (take max_len (strip_by is_dash (collapse false (replace_runs false lowered))))

unfoldable pub slugify : Unicode → Text → Text → Text
unfolding slug_of
slugify u text fallback_id =
    or_file (slug_of (u.lower (filter (λ c. not (u.is_mn c)) (u.nfkd (map translate_dash text)))))
      fallback_id
