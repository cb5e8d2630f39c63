-- ===== src/Eval/Bump.antt =====
-- eval/baseline_skip.py: whether the commits of a branch change nothing but the baseline. What git prints is a part of `Git`.
use archiviste_nocilia.Prelude.{
  ℕ, ◌+◌, Text, Bool, true, false, ◌&&◌, ◌||◌, Option, none, some, List, [], ◌∷◌, eqb, leb, codes,
  is_empty, strip, text_eq, if◌then◌else◌, ◌>>=◌,
}
use archiviste_nocilia.Parser.Followups.{splitlines_from}

-- How a command ends: with its output, a CalledProcessError, or another error, as a timeout.
pub data Ran : Type 0 where
  printed : Text → Ran
  exited breaks : Ran

-- `git show` on HEAD, the two commands of `_get_merge_base`, and `git diff` from a commit to HEAD.
pub record Git : Type 0 where
  pub subject : Ran
  pub merge_base : Ran
  pub parent : Ran
  pub diff : Text → Ran

abbrev pub baseline_file : Text
baseline_file = codes "eval/baseline.json"

-- A character that matches a letter of the pattern: IGNORECASE also has two more for i and one more for s.
abbrev pub same_letter : ℕ → ℕ → Bool
same_letter p c =
    eqb p c
    || ((leb 97 p && leb p 122 && eqb (c + 32) p)
        || ((eqb p 105 && (eqb c 0x130 || eqb c 0x131)) || (eqb p 115 && eqb c 0x17f)))

abbrev pub matches : Text → Text → Bool
matches [] [] = true
matches (p ∷ ps) (c ∷ s) = same_letter p c && matches ps s
matches ps s = false

-- `BUMP_PATTERN`, on a text with no blank at its end
unfoldable pub is_bump : Text → Bool
is_bump = matches (codes "chore(eval): bump baseline")

-- The output, or `none` for an error that leaves the function.
abbrev pub output_of : Ran → Option Text
unfolding strip
output_of (printed s) = some (strip s)
output_of exited = none
output_of breaks = none

-- `_get_merge_base`
unfoldable pub get_merge_base : Git → Ran → Option Text
unfolding strip
get_merge_base git (printed s) = some (strip s)
get_merge_base git exited = output_of git.parent
get_merge_base git breaks = none

abbrev pub clean_paths : List Text → List Text
unfolding strip
clean_paths [] = []
clean_paths (line ∷ lines) =
    let path = strip line in
    let rest = clean_paths lines in if is_empty path then rest else path ∷ rest

-- `_get_changed_files_since`
unfoldable pub get_changed_files_since : Git → Text → Option (List Text)
unfolding strip splitlines_from
get_changed_files_since git base = do
  s ← output_of (git.diff base)
  some (clean_paths (splitlines_from false [] s))

abbrev pub is_baseline_only : List Text → Bool
is_baseline_only (path ∷ []) = text_eq path baseline_file
is_baseline_only _ = false

abbrev pub compare_files : Git → Option Bool
unfolding get_merge_base get_changed_files_since
compare_files git = do
  base ← get_merge_base git git.merge_base
  files ← get_changed_files_since git base
  some (is_baseline_only files)

unfoldable pub should_skip_gate_b : Git → Option Bool
unfolding is_bump strip get_merge_base get_changed_files_since
should_skip_gate_b git = do
  head ← output_of git.subject
  if is_bump (strip head) then compare_files git else some false
