-- ===== src/Ingest/Frontmatter.antt =====
-- ingest/frontmatter.py and ingest/normalize.py.
use archiviste_nocilia.Prelude.{
  ℕ, zero, suc, Text, Bool, not, ◌||◌, Option, none, some, List, [], ◌∷◌, filter, text_eq, eqb, leb,
  is_empty, if◌then◌else◌, codes, strip, ◌>>=◌, ◌≡◌, refl,
}

-- What `yaml.safe_load` can give at a key, as far as the code tells it apart: a list is not hashable.
pub data Value : Type 0 where
  string : Text → Value
  strings : List Text → Value
  scalar unhashable : Value

pub data Loaded : Type 0 where
  yaml_error not_mapping : Loaded
  mapping : (Text → Option Value) → Loaded

-- `\r?\n`
abbrev pub drop_newline : Text → Option Text
drop_newline [] = none
drop_newline (c ∷ s) =
    if eqb c 10
    then some s
    else if eqb c 13
    then (elim s [ [] ↦ none | ◌∷◌ d t ↦ if eqb d 10 then some t else none ])
    else none

abbrev pub drop_dashes : ℕ → Text → Option Text
drop_dashes zero s = some s
drop_dashes (suc n) [] = none
drop_dashes (suc n) (c ∷ s) = if eqb c b'-' then drop_dashes n s else none

-- `---\r?\n`
abbrev pub drop_fence : Text → Option Text
drop_fence s = drop_dashes 3 s >>= drop_newline

-- `\r?\n---\r?\n`
abbrev pub drop_close : Text → Option Text
drop_close s = drop_newline s >>= drop_fence

abbrev pub cons_yaml : ℕ → Option (Text × Text) → Option (Text × Text)
cons_yaml c none = none
cons_yaml c (some (yaml, body)) = some (c ∷ yaml, body)

abbrev pub or_close : Option Text → Option (Text × Text) → Option (Text × Text)
or_close none later = later
or_close (some body) later = some ([], body)

-- `(.*?)\r?\n---\r?\n(.*)\Z`: the first place where the closing fence stands
unfoldable pub split_yaml : Text → Option (Text × Text)
split_yaml [] = none
split_yaml (c ∷ s) = or_close (drop_close (c ∷ s)) (cons_yaml c (split_yaml s))

unfoldable pub split_frontmatter : Text → Option (Text × Text)
unfolding split_yaml
split_frontmatter raw = drop_fence raw >>= split_yaml

pub record Frontmatter : Type 0 where
  pub title : Text
  pub tags : List Text
  pub access_tier : Text

-- A frontmatter, a FrontmatterError, or the TypeError of a value that is not hashable.
pub data Built : Type 0 where
  built : Frontmatter → Built
  rejected raised : Built

unfoldable pub is_access_tier : Text → Bool
unfolding text_eq
is_access_tier t =
    text_eq t (codes "public") || text_eq t (codes "members") || text_eq t (codes "author_only")

abbrev pub build_tier : Text → List Text → Option Value → Built
build_tier title tags none =
    built (record { title = title; tags = tags; access_tier = codes "public" })
build_tier title tags (some (string t)) =
    if is_access_tier t
    then built (record { title = title; tags = tags; access_tier = t })
    else rejected
build_tier title tags (some (strings _)) = raised
build_tier title tags (some scalar) = rejected
build_tier title tags (some unhashable) = raised

abbrev pub build_tags : Text → Option Value → Option Value → Built
build_tags title none tier = build_tier title [] tier
build_tags title (some (strings tags)) tier = build_tier title tags tier
build_tags title (some (string _)) tier = rejected
build_tags title (some scalar) tier = rejected
build_tags title (some unhashable) tier = rejected

abbrev pub build_title : Option Value → Option Value → Option Value → Built
build_title (some (string t)) tags tier =
    if is_empty (strip t) then rejected else build_tags t tags tier
build_title _ tags tier = rejected

-- `_build_frontmatter`
unfoldable pub build_frontmatter : (Text → Option Value) → Built
unfolding is_access_tier strip
build_frontmatter keys =
    build_title (keys (codes "title")) (keys (codes "tags")) (keys (codes "access_tier"))

-- What `parse_frontmatter` gives.
pub data ParsedFile : Type 0 where
  parsed : Frontmatter → Text → ParsedFile
  invalid raises : ParsedFile

abbrev pub of_built : Text → Built → ParsedFile
of_built body (built f) = parsed f body
of_built body rejected = invalid
of_built body raised = raises

abbrev pub of_loaded : Text → Loaded → ParsedFile
of_loaded body yaml_error = invalid
of_loaded body not_mapping = invalid
of_loaded body (mapping keys) = of_built body (build_frontmatter keys)

abbrev pub of_split : (Text → Loaded) → Option (Text × Text) → ParsedFile
of_split load none = invalid
of_split load (some (yaml, body)) = of_loaded body (load yaml)

unfoldable pub parse_frontmatter : (Text → Loaded) → Text → ParsedFile
unfolding split_frontmatter build_frontmatter
parse_frontmatter load raw = of_split load (split_frontmatter raw)

-- `_is_stripped_control`, and the exception for the line break and the tab
abbrev pub is_kept : ℕ → Bool
is_kept c = eqb c 10 || eqb c 9 || not (leb c 0x1f || eqb c 0x7f)

unfoldable pub normalize_body : (Text → Text) → Text → Text
normalize_body nfkc body = filter is_kept (nfkc body)

splits :
    split_frontmatter (codes "---\r\ntitle: x\n---\nBody\n---\n")
    ≡ some (codes "title: x", codes "Body\n---\n")
unfolding split_frontmatter
splits = refl
