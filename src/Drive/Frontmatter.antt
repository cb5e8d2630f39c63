-- ===== src/Drive/Frontmatter.antt =====
-- scripts/gdrive_export/sync.py: the frontmatter of an exported file, from the file that is there and
-- from what the script manages. Reading and writing YAML are parameters.
use archiviste_nocilia.Prelude.{
  ℕ, Text, Bool, true, false, not, ◌||◌, Option, none, some, List, [], ◌∷◌, ◌++◌, filter, text_eq,
  eqb, if◌then◌else◌, codes, ◌>>=◌,
}

-- A value of YAML, as far as the code tells it apart; `mapped` is a mapping, or a list of such.
pub data Yaml : Type 0 where
  text : Text → Yaml
  texts : List Text → Yaml
  flag : Bool → Yaml
  null other mapped : Yaml

-- A `dict`, its keys in order.
abbrev pub Dict : Type 0
Dict = List (Text × Yaml)

unfoldable pub lookup : Text → Dict → Option Yaml
lookup key [] = none
lookup key (e ∷ d) = if text_eq e.0 key then some e.1 else lookup key d

-- `d[key] = value`
unfoldable pub set_key : Text → Yaml → Dict → Dict
set_key key value [] = (key, value) ∷ []
set_key key value (e ∷ d) = if text_eq e.0 key then (key, value) ∷ d else e ∷ set_key key value d

abbrev pub is_some : Option Yaml → Bool
is_some none = false
is_some (some _) = true

unfoldable pub has_key : Text → Dict → Bool
unfolding lookup
has_key key d = is_some (lookup key d)

abbrev pub fm_key_order : List Text
fm_key_order =
    codes "title"
    ∷ codes "source"
    ∷ codes "source_id"
    ∷ codes "drive_path"
    ∷ codes "exported_at"
    ∷ codes "archived"
    ∷ codes "archived_at"
    ∷ codes "tags"
    ∷ codes "access_tier"
    ∷ []

-- The defaults of the loop over the keys.
unfoldable pub default_of : Text → Option Yaml
unfolding text_eq
default_of key =
    if text_eq key (codes "tags")
    then some (texts [])
    else if text_eq key (codes "access_tier")
    then some (text (codes "public"))
    else if text_eq key (codes "archived")
    then some (flag false)
    else if text_eq key (codes "archived_at")
    then some null
    else none

abbrev pub or_else : Option Yaml → Option Yaml → Option Yaml
or_else none later = later
or_else (some v) later = some v

abbrev pub put : Text → Option Yaml → Dict → Dict
put key none d = d
put key (some v) d = set_key key v d

module _ (existing script : Dict) where
  unfoldable pub chosen : Text → Option Yaml
  unfolding lookup default_of
  chosen key = or_else (lookup key script) (or_else (lookup key existing) (default_of key))

  unfoldable pub fill : List Text → Dict → Dict
  unfolding chosen set_key
  fill [] ordered = ordered
  fill (key ∷ keys) ordered = fill keys (put key (chosen key) ordered)

module _ (script : Dict) where
  -- The keys of the file that the script does not know.
  unfoldable pub add_extra : Dict → Dict → Dict
  unfolding has_key set_key
  add_extra [] ordered = ordered
  add_extra (e ∷ es) ordered =
      add_extra es
        (if has_key e.0 ordered || has_key e.0 script then ordered else set_key e.0 e.1 ordered)

abbrev pub is_null : Option Yaml → Bool
is_null none = true
is_null (some null) = true
is_null (some (text _)) = false
is_null (some (texts _)) = false
is_null (some (flag _)) = false
is_null (some other) = false
is_null (some mapped) = false

unfoldable pub remove_key : Text → Dict → Dict
remove_key key d = filter (λ e. not (text_eq e.0 key)) d

abbrev pub drop_null : Dict → Dict
unfolding lookup
drop_null d =
    if is_null (lookup (codes "archived_at") d) then remove_key (codes "archived_at") d else d

-- `_build_ordered_frontmatter`, from the dictionary of the file on
unfoldable pub build_ordered : Dict → Dict → Dict
unfolding fill add_extra remove_key
build_ordered existing script =
    drop_null (add_extra script existing (fill existing script fm_key_order []))

-- What `yaml.safe_load` gives: an error, `None`, another value than a mapping, or a mapping.
pub data LoadedYaml : Type 0 where
  yaml_error nothing not_mapping : LoadedYaml
  mapping : Dict → LoadedYaml

-- The dictionary of the frontmatter that is there; `none` is the error of YAML, which leaves the sync.
abbrev pub loaded_dict : LoadedYaml → Option Dict
loaded_dict yaml_error = none
loaded_dict nothing = some []
loaded_dict not_mapping = some []
loaded_dict (mapping d) = some d

abbrev pub existing_dict : (Text → LoadedYaml) → Option Text → Option Dict
existing_dict load none = some []
existing_dict load (some []) = some []
existing_dict load (some (c ∷ s)) = loaded_dict (load (c ∷ s))

-- `script_managed` of `_write_gdoc`
abbrev pub script_managed : Text → Text → Text → Text → Dict
script_managed title source_id drive_path exported_at =
    (codes "title", text title)
    ∷ (codes "source", text (codes "gdrive"))
    ∷ (codes "source_id", text source_id)
    ∷ (codes "drive_path", text drive_path)
    ∷ (codes "exported_at", text exported_at)
    ∷ (codes "archived", flag false)
    ∷ (codes "archived_at", null)
    ∷ []

-- The text of a file: frontmatter and body.
unfoldable pub file_text : Text → Text → Text
file_text yaml body = codes "---\n" ++ (yaml ++ (codes "---\n" ++ body))

-- `_write_gdoc`: the text that is written
unfoldable pub write_gdoc :
    (Text → LoadedYaml)
    → (Dict → Text)
    → Text
    → Text
    → Text
    → Text
    → Text
    → Option Text
    → Option Text
unfolding build_ordered file_text
write_gdoc load dump title source_id drive_path exported_at body existing_fm = do
  existing ← existing_dict load existing_fm
  some (
      file_text
        (dump (build_ordered existing (script_managed title source_id drive_path exported_at)))
        body)

-- What is left behind a prefix.
unfoldable pub drop_prefix : Text → Text → Option Text
drop_prefix [] s = some s
drop_prefix (p ∷ ps) [] = none
drop_prefix (p ∷ ps) (c ∷ s) = let rest = drop_prefix ps s in if eqb p c then rest else none

abbrev pub cons_front : ℕ → Option (Text × Text) → Option (Text × Text)
cons_front c none = none
cons_front c (some (front, body)) = some (c ∷ front, body)

abbrev pub or_front : Option Text → Option (Text × Text) → Option (Text × Text)
or_front none later = later
or_front (some body) later = some ([], body)

-- `content.index("\n---\n", 4)` behind the first fence, and the texts on its two sides
unfoldable pub split_fence : Text → Option (Text × Text)
unfolding drop_prefix
split_fence [] = none
split_fence (c ∷ s) =
    or_front (drop_prefix (codes "\n---\n") (c ∷ s)) (cons_front c (split_fence s))

abbrev pub front_of : Option (Text × Text) → Option Text
front_of none = none
front_of (some (front, body)) = some front

-- `_read_existing_frontmatter` of a file that is there
unfoldable pub read_existing_frontmatter : Text → Option Text
unfolding split_fence
read_existing_frontmatter content =
    drop_prefix (codes "---\n") content >>= λ rest. front_of (split_fence rest)
