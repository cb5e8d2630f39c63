-- ===== src/Contradiction/Judges.antt =====
-- workers/src/archiviste_workers/contradiction/prompt.py: what a judge is asked, and how its reply is
-- read.
use archiviste_nocilia.Prelude.{
  ℕ, Text, Bool, true, false, not, ◌&&◌, ◌||◌, Option, none, some, List, [], ◌∷◌, ◌++◌, map, codes,
  eqb, strip, strip_by, length, take, drop, is_empty, if◌then◌else◌,
}
use archiviste_nocilia.Prelude.Decimal.{show_nat}
use archiviste_nocilia.Memory.{Message}
use archiviste_nocilia.Injection.{begins_with}
use archiviste_nocilia.Prompt.{join}
use archiviste_nocilia.Contradiction.Texts.{judge_system_prefix, judge_system_suffix}

pub data Verdict : Type 0 where
  present absent contradiction unclear : Verdict

-- A `(source_path, ord, text)` triple.
pub record Source : Type 0 where
  pub path : Text
  pub ord : ℕ
  pub body : Text

unfoldable pub render_sources : List Source → Text
unfolding join
render_sources sources = join (codes "\n") (
    map
      (λ s.
        codes "<source path=\""
        ++ (s.path
            ++ (codes "\" ord=\""
                ++ (show_nat s.ord ++ (codes "\">" ++ (s.body ++ codes "</source>"))))))
      sources)

unfoldable pub build_judge_messages : Text → List Source → Text → List Message
unfolding render_sources
build_judge_messages claim sources lens =
    Message.system (judge_system_prefix ++ (lens ++ judge_system_suffix))
    ∷ Message.human (
        codes "<claim>"
        ++ (claim
            ++ (codes "</claim>\n<sources>\n" ++ (render_sources sources ++ codes "\n</sources>"))))
    ∷ []

-- `_TOKEN_TO_VERDICT`, in the order of the alternatives of the pattern
abbrev keywords : List (Text × Verdict)
keywords =
    (codes "present", present)
    ∷ (codes "absent", absent)
    ∷ (codes "contradiction", contradiction)
    ∷ (codes "unclear", unclear)
    ∷ []

-- What the search finds: the verdict, whether the matched text in upper case is a key of
-- `_TOKEN_TO_VERDICT`, and the text behind it. A dotted capital I matches an I and stays itself.
pub record Found : Type 0 where
  pub verdict : Verdict
  pub is_key : Bool
  pub rest : Text

unfoldable pub has_dotted_i : Text → Bool
has_dotted_i [] = false
has_dotted_i (c ∷ s) = eqb c 0x130 || has_dotted_i s

abbrev pub found_at : Text → Text × Verdict → Found
found_at s (keyword, v) = record {
  verdict = v;
  is_key = not (has_dotted_i (take (length keyword) s));
  rest = drop (length keyword) s;
}

module _ (is_word : ℕ → Bool) where
  -- `\b` behind a word character
  abbrev word_ends : Text → Bool
  word_ends [] = true
  word_ends (c ∷ s) = not (is_word c)

  unfoldable pub match_keyword : List (Text × Verdict) → Text → Option Found
  unfolding begins_with has_dotted_i
  match_keyword [] s = none
  match_keyword (k ∷ ks) s =
      if begins_with k.0 s && word_ends (drop (length k.0) s)
      then some (found_at s k)
      else match_keyword ks s

  abbrev first_found : Option Found → Option Found → Option Found
  first_found none later = later
  first_found (some f) later = some f

  -- `_VERDICT_KEYWORD_RE.search`; the flag says that a word character is in front
  unfoldable pub search_keyword : Bool → Text → Option Found
  unfolding match_keyword
  search_keyword in_word [] = none
  search_keyword in_word (c ∷ s) =
      first_found (if in_word then none else match_keyword keywords (c ∷ s))
        (search_keyword (is_word c) s)

  -- `" .:-\n"`
  abbrev is_trimmed : ℕ → Bool
  is_trimmed c = eqb c b' ' || eqb c b'.' || eqb c b':' || eqb c b'-' || eqb c 10

  abbrev verdict_of : Text → Option Found → Option (Verdict × Text)
  verdict_of stripped none = some (unclear, stripped)
  verdict_of stripped (some f) =
      if f.is_key then some (f.verdict, strip_by is_trimmed f.rest) else none

  -- `none` is the `KeyError` of the lookup.
  unfoldable pub parse_verdict : Text → Option (Verdict × Text)
  unfolding strip strip_by search_keyword
  parse_verdict reply =
      let stripped = strip reply in
      if is_empty stripped
      then some (unclear, [])
      else verdict_of stripped (search_keyword false stripped)
