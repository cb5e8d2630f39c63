-- ===== src/Contradiction/Redaction.antt =====
-- `_redact_reason` of contradiction/service.py: the body of a source, in lower case, is cut into
-- windows of 24 characters, one behind the other, and a reason that contains one is replaced.
use archiviste_nocilia.Prelude.{
  ℕ, zero, suc, Text, Bool, true, false, ◌&&◌, ◌||◌, List, [], ◌∷◌, length, take, drop, eqb, ltb,
  if◌then◌else◌,
}
use archiviste_nocilia.Contradiction.Texts.{
  reason_unclear, safe_reason_present, safe_reason_absent, safe_reason_contradiction,
}
use archiviste_nocilia.Contradiction.Judges.{Verdict, Source}

abbrev pub min_leak_chars : ℕ
min_leak_chars = 24

-- `_SAFE_REASON_BY_VERDICT`
abbrev pub safe_reason : Verdict → Text
safe_reason Verdict.present = safe_reason_present
safe_reason Verdict.absent = safe_reason_absent
safe_reason Verdict.contradiction = safe_reason_contradiction
safe_reason Verdict.unclear = reason_unclear

unfoldable pub starts_with : Text → Text → Bool
starts_with [] s = true
starts_with (w ∷ ws) [] = false
starts_with (w ∷ ws) (c ∷ s) = eqb w c && starts_with ws s

-- `w in s`
unfoldable pub contains : Text → Text → Bool
unfolding starts_with
contains w [] = starts_with w []
contains w (c ∷ s) = starts_with w (c ∷ s) || contains w s

-- The loop over `range(0, len(body_lower) - step + 1, step)`. Every turn takes characters off, so
-- the length of the text is fuel enough.
unfoldable pub leaks_loop : ℕ → Text → Text → Bool
unfolding contains
leaks_loop zero s reason = false
leaks_loop (suc fuel) s reason =
    let rest = leaks_loop fuel (drop min_leak_chars s) reason in
    if ltb (length s) min_leak_chars then false else contains (take min_leak_chars s) reason || rest

unfoldable pub leaks : (Text → Text) → Text → Source → Bool
unfolding leaks_loop
leaks lower reason_lower source =
    if ltb (length source.body) min_leak_chars
    then false
    else leaks_loop (length (lower source.body)) (lower source.body) reason_lower

unfoldable pub redact_reason : (Text → Text) → Text → Verdict → List Source → Text
unfolding leaks
redact_reason lower reason verdict [] = reason
redact_reason lower reason verdict (source ∷ sources) =
    if leaks lower (lower reason) source
    then safe_reason verdict
    else redact_reason lower reason verdict sources
