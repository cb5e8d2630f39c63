-- ===== src/Parser/Followups.antt =====
-- `extract_followups` of parser.py: the split of an answer at the sentinel line. The patterns match
-- whole lines, so they are written as tests of one line. Their classes are disjoint from what
-- follows them, so that each run is as long as it can be.
use archiviste_nocilia.Prelude.{
  ℕ, ◌+◌, Text, Bool, false, ◌&&◌, ◌||◌, Option, none, some, ◌≡◌, refl, List, [], ◌∷◌, ◌++◌, eqb,
  leb, if◌then◌else◌, is_empty, strip, rstrip_by, is_space, codes,
}
use archiviste_nocilia.Parser.Brackets.{split_on}

abbrev pub newline : ℕ
newline = 10

-- `[ \t]`
abbrev pub is_blank : ℕ → Bool
is_blank c = eqb c 32 || eqb c 9

-- `[-*_]`
abbrev pub is_mark : ℕ → Bool
is_mark c = eqb c b'-' || eqb c b'*' || eqb c b'_'

-- `[-*•]`
abbrev pub is_bullet : ℕ → Bool
is_bullet c = eqb c b'-' || eqb c b'*' || eqb c 0x2022

unfoldable pub drop_while : (ℕ → Bool) → Text → Text
drop_while p [] = []
drop_while p (c ∷ s) = let rest = drop_while p s in if p c then rest else c ∷ s

-- One letter of the token without regard to case; the two letters I with and without a dot, and
-- the long s, fold to the Latin letters.
abbrev pub is_letter : ℕ → ℕ → ℕ → ℕ → Bool
is_letter a b d c = eqb c a || eqb c b || eqb c d

abbrev is_i : ℕ → Bool
is_i c = eqb c b'i' || eqb c b'I' || eqb c 0x130 || eqb c 0x131

abbrev suivi : List (ℕ → Bool)
suivi =
    is_letter b's' b'S' 0x17f
    ∷ is_letter b'u' b'U' b'u'
    ∷ is_i
    ∷ is_letter b'v' b'V' b'v'
    ∷ is_i
    ∷ []

unfoldable pub match_token : List (ℕ → Bool) → Text → Option Text
match_token [] s = some s
match_token (p ∷ ps) [] = none
match_token (p ∷ ps) (c ∷ s) = let rest = match_token ps s in if p c then rest else none

abbrev closes : Option Text → Bool
closes none = false
closes (some s) = is_empty (drop_while is_blank (drop_while is_mark (drop_while is_blank s)))

-- `_FOLLOWUP_MARKER_RE` on one line
unfoldable pub is_marker_line : Text → Bool
unfolding drop_while match_token
is_marker_line line =
    closes (match_token suivi (drop_while is_blank (drop_while is_mark (drop_while is_blank line))))

-- The lines before the first marker line and those behind it.
unfoldable pub find_marker : List Text → Option (List Text × List Text)
unfolding is_marker_line
find_marker [] = none
find_marker (line ∷ lines) =
    let rest = find_marker lines in
    if is_marker_line line
    then some ([], lines)
    else elim rest [ none ↦ none | some (before, after) ↦ some (line ∷ before, after) ]

-- `answer[: match.start()]`: every line before the marker with its line break.
unfoldable pub unlines : List Text → Text
unlines [] = []
unlines (line ∷ lines) = line ++ newline ∷ unlines lines

-- `answer[match.end() :]`: every line behind the marker with the line break before it.
unfoldable pub block_of : List Text → Text
block_of [] = []
block_of (line ∷ lines) = newline ∷ (line ++ block_of lines)

unfoldable pub count_marks : Text → ℕ
count_marks [] = 0
count_marks (c ∷ s) = let n = count_marks s in if is_mark c then n + 1 else 0

-- `[ \t]*[-*_]{3,}[ \t]*$` on the last line
unfoldable pub is_rule_line : Text → Bool
unfolding drop_while count_marks
is_rule_line line =
    let s = drop_while is_blank line in
    leb 3 (count_marks s) && is_empty (drop_while is_blank (drop_while is_mark s))

-- `_TRAILING_RULE_RE.sub("", body)`, on the lines of a body with no line break at its end
unfoldable pub without_rule : Text → List Text → Text
unfolding is_rule_line
without_rule line [] = line
without_rule line (last ∷ []) = if is_rule_line last then line else line ++ newline ∷ last
without_rule line (next ∷ more ∷ lines) = line ++ newline ∷ without_rule next (more ∷ lines)

unfoldable pub drop_trailing_rule : List Text → Text
unfolding without_rule
drop_trailing_rule [] = []
drop_trailing_rule (line ∷ lines) = without_rule line lines

-- The line breaks of `str.splitlines`.
abbrev pub is_line_break : ℕ → Bool
is_line_break c =
    (leb 10 c && leb c 13) || (leb 28 c && leb c 30) || eqb c 0x85 || eqb c 0x2028 || eqb c 0x2029

abbrev last_line : Text → List Text
last_line [] = []
last_line (c ∷ s) = (c ∷ s) ∷ []

-- `str.splitlines()`, from the line read so far; the flag says that a carriage return was just read.
unfoldable pub splitlines_from : Bool → Text → Text → List Text
splitlines_from after_cr current [] = last_line current
splitlines_from after_cr current (c ∷ s) =
    let joined = splitlines_from false current s in
    let broken = current ∷ splitlines_from (eqb c 13) [] s in
    let longer = splitlines_from false (current ++ c ∷ []) s in
    if after_cr && eqb c 10 then joined else if is_line_break c then broken else longer

-- `_FOLLOWUP_BULLET_RE.sub("", line)`
unfoldable pub drop_bullet : Text → Text
unfolding drop_while
drop_bullet [] = []
drop_bullet (c ∷ s) = if is_bullet c then drop_while is_blank (drop_while is_bullet s) else c ∷ s

unfoldable pub clean_lines : List Text → List Text
unfolding strip drop_bullet
clean_lines [] = []
clean_lines (raw ∷ lines) =
    let line = strip (drop_bullet (strip raw)) in
    let rest = clean_lines lines in if is_empty line then rest else line ∷ rest

abbrev pub rstrip : Text → Text
rstrip = rstrip_by is_space

abbrev split_answer : Text → Option (List Text × List Text) → Text × List Text
split_answer answer none = (answer, [])
split_answer answer (some (before, after)) = (
  rstrip (drop_trailing_rule (split_on newline (rstrip (unlines before)))),
  clean_lines (splitlines_from false [] (block_of after)),
)

unfoldable pub extract_followups : Text → Text × List Text
unfolding find_marker unlines block_of drop_trailing_rule splitlines_from clean_lines split_on
    rstrip_by is_space
extract_followups answer = split_answer answer (find_marker (split_on newline answer))

splits_answer :
    extract_followups (codes "Un fait [a].\n\n---\n -- Suivi*\n- Qui ?\r\n\n* Quand ?")
    ≡ (codes "Un fait [a].", codes "Qui ?" ∷ codes "Quand ?" ∷ [])
unfolding extract_followups
splits_answer = refl
