-- ===== src/Injection.antt =====
-- workers/src/archiviste_workers/generate/injection_filter.py: whether the pattern occurs in a text.
-- The matched text itself is only logged. The alternatives of the pattern are written out, and
-- letters are compared without regard to case as `re.IGNORECASE` does on `str`.
mod Tests
use archiviste_nocilia.Prelude.{
  ℕ, ◌+◌, Text, Bool, true, false, ◌&&◌, ◌||◌, ◌≡◌, List, [], ◌∷◌, eqb, leb, if◌then◌else◌,
  is_space, codes, is_empty,
}

-- The lower-case Latin letter that a character folds to.
unfoldable pub fold_case : ℕ → ℕ
fold_case c =
    if leb 65 c && leb c 90
    then c + 32
    else if eqb c 0x17f
    then b's'
    else if eqb c 0x130 || eqb c 0x131
    then b'i'
    else if eqb c 0x212a
    then b'k'
    else c

-- Whether a text begins with the words, given in lower case.
unfoldable pub begins_with : Text → Text → Bool
unfolding fold_case
begins_with [] s = true
begins_with (w ∷ words) [] = false
begins_with (w ∷ words) (c ∷ s) = eqb (fold_case c) w && begins_with words s

-- `\s*:`
unfoldable pub spaces_colon : Text → Bool
unfolding is_space
spaces_colon [] = false
spaces_colon (c ∷ s) = eqb c b':' || (is_space c && spaces_colon s)

-- `system\s*:`
unfoldable pub system_colon : Text → Text → Bool
unfolding fold_case spaces_colon
system_colon [] s = spaces_colon s
system_colon (w ∷ words) [] = false
system_colon (w ∷ words) (c ∷ s) = eqb (fold_case c) w && system_colon words s

unfoldable pub matches_here : Text → Bool
unfolding begins_with system_colon
matches_here s =
    begins_with (codes "ignore all prior instructions") s
    || begins_with (codes "ignore all previous instructions") s
    || begins_with (codes "ignore prior instructions") s
    || begins_with (codes "ignore previous instructions") s
    || begins_with (codes "new instructions") s
    || system_colon (codes "system") s
    || begins_with (codes "disregard the above") s
    || begins_with (codes "disregard above") s

-- `bool(detect_injection(query))`
unfoldable pub detect_injection : Text → Bool
unfolding matches_here
detect_injection [] = false
detect_injection (c ∷ s) = matches_here (c ∷ s) || detect_injection s
