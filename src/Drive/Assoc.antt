-- ===== src/Drive/Assoc.antt =====
-- A `dict` with text keys, in the order of its keys.
use archiviste_nocilia.Prelude.{
  Text, Bool, true, false, ◌||◌, Option, none, some, List, [], ◌∷◌, text_eq, if◌then◌else◌,
}

module _ {ℓ} {A : Type ℓ} where
  abbrev pub set_at : Text → A → List (Text × A) → List (Text × A)
  set_at key value [] = (key, value) ∷ []
  set_at key value (e ∷ es) = if text_eq e.0 key then (key, value) ∷ es else e ∷ set_at key value es

  abbrev pub get_at : Text → List (Text × A) → Option A
  get_at key [] = none
  get_at key (e ∷ es) = if text_eq e.0 key then some e.1 else get_at key es

  abbrev pub has_at : Text → List (Text × A) → Bool
  has_at key [] = false
  has_at key (e ∷ es) = text_eq e.0 key || has_at key es

  -- `set(a.keys()) <= set(b.keys())`
  abbrev pub keys_in : List (Text × A) → List (Text × A) → Bool
  keys_in [] b = true
  keys_in (e ∷ es) b = let rest = keys_in es b in if has_at e.0 b then rest else false
