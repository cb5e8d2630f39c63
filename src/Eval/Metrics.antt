-- ===== src/Eval/Metrics.antt =====
-- eval/metrics.py, the part without a judge: overlap, recall and the breakdown by mode.
use archiviste_nocilia.Prelude.{
  ℕ, ◌+◌, Text, Bool, false, ◌||◌, Option, none, some, List, [], ◌∷◌, length, filter, text_eq,
  if◌then◌else◌,
}
use archiviste_nocilia.Contradiction.Redaction.{contains}
use archiviste_nocilia.Eval.{Floats, Mode, same_mode, ModeData, EntryResult}

-- `kw.lower() in answer_lower`
unfoldable pub compute_keyword_overlap : (Text → Text) → Text → List Text → Bool
unfolding contains
compute_keyword_overlap lower answer [] = false
compute_keyword_overlap lower answer (k ∷ keywords) =
    contains (lower k) (lower answer) || compute_keyword_overlap lower answer keywords

abbrev pub is_among : Text → List Text → Bool
is_among s [] = false
is_among s (t ∷ ts) = text_eq t s || is_among s ts

-- `sum(1 for ctx in expected_contexts if ctx in retrieved_set)`
abbrev pub count_hits : List Text → List Text → ℕ
count_hits [] retrieved = 0
count_hits (c ∷ expected) retrieved =
    let rest = count_hits expected retrieved in if is_among c retrieved then rest + 1 else rest

module _ {W : Type 0} (floats : Floats W) where
  unfoldable pub compute_context_recall_structural : List Text → List Text → W
  unfolding text_eq
  compute_context_recall_structural [] retrieved = floats.hundredths 0
  compute_context_recall_structural (c ∷ expected) retrieved =
      floats.ratio (count_hits (c ∷ expected) retrieved) (length (c ∷ expected))

  abbrev pub has_overlap : EntryResult W → Bool
  has_overlap e = elim e.keyword_overlap_rate [ none ↦ false | some overlap ↦ overlap ]

  abbrev pub onto_some : Option W → List W → List W
  onto_some none values = values
  onto_some (some v) values = v ∷ values

  abbrev pub recall_values : List (EntryResult W) → List W
  recall_values [] = []
  recall_values (e ∷ entries) = onto_some e.context_recall_structural (recall_values entries)

  abbrev pub mean_or_zero : List W → W
  mean_or_zero [] = floats.hundredths 0
  mean_or_zero (v ∷ values) = floats.mean (v ∷ values)

  -- Only the canon mode has a recall.
  abbrev pub recall_of : Mode → List (EntryResult W) → Option W
  recall_of Mode.canon entries = some (mean_or_zero (recall_values entries))
  recall_of _ entries = none

  abbrev pub mode_data : Mode → List (EntryResult W) → ModeData W
  mode_data mode [] = record {
    entries = 0;
    keyword_overlap_rate = none;
    context_recall_structural = none;
  }
  mode_data mode (e ∷ entries) = record {
    entries = length (e ∷ entries);
    keyword_overlap_rate =
        some (floats.ratio (length (filter has_overlap (e ∷ entries))) (length (e ∷ entries)));
    context_recall_structural = recall_of mode (e ∷ entries);
  }

  unfoldable pub aggregate_breakdown : List (EntryResult W) → Mode → ModeData W
  aggregate_breakdown entries mode = mode_data mode (filter (λ e. same_mode e.mode mode) entries)
