-- ===== src/Eval/Gates.antt =====
-- eval/gates.py: the absolute gate of a live run, and the gate against a baseline. The lines of the log are left out.
use archiviste_nocilia.Prelude.{
  ℕ, Bool, true, false, Option, none, some, List, [], ◌∷◌, ◌++◌, map, filter, is_empty,
}
use archiviste_nocilia.Eval.{Floats, Metric, Scores, all_metrics, ModeData, RunnerMode}

-- `GATE_A_THRESHOLDS`, in hundredths
unfoldable pub gate_a_threshold : Metric → ℕ
gate_a_threshold Metric.faithfulness = 85
gate_a_threshold Metric.answer_relevancy = 85
gate_a_threshold Metric.context_precision = 70
gate_a_threshold Metric.context_recall = 70

-- `GATE_B_TOLERANCES`
unfoldable pub gate_b_tolerance : Metric → ℕ
gate_b_tolerance Metric.faithfulness = 2
gate_b_tolerance Metric.answer_relevancy = 2
gate_b_tolerance Metric.context_precision = 3
gate_b_tolerance Metric.context_recall = 3

-- The two tolerances of `GATE_B_OFFLINE_TOLERANCES`
abbrev pub gate_b_offline_tolerance : ℕ
gate_b_offline_tolerance = 5

-- What a gate names as violated.
pub data Violation : Type 0 where
  metric : Metric → Violation
  recall overlap : Violation

-- A run of the past, as far as the gates read it.
pub record Baseline (W : Type 0) : Type 0 where
  pub metrics : Scores W
  pub canon : ModeData W

pub record GateBResult : Type 0 where
  pub passed : Bool
  pub skipped : Bool
  pub violations : List Violation

abbrev pub when : Bool → Violation → List Violation
when true v = v ∷ []
when false v = []

module _ {W : Type 0} (floats : Floats W) where
  -- A metric that is missing is not below anything.
  abbrev pub is_below : Option W → ℕ → Bool
  is_below none threshold = false
  is_below (some v) threshold = floats.less v (floats.hundredths threshold)

  unfoldable pub violations_a : Scores W → List Violation
  unfolding gate_a_threshold
  violations_a scores =
      map Violation.metric (filter (λ m. is_below (scores m) (gate_a_threshold m)) all_metrics)

  -- `apply_gate_a`: whether the gate is passed.
  unfoldable pub apply_gate_a : Scores W → RunnerMode → Bool
  unfolding violations_a
  apply_gate_a scores RunnerMode.live = is_empty (violations_a scores)
  apply_gate_a scores RunnerMode.offline = true

  -- `float(current_val) - float(baseline_val) < -tolerance`, where both are there
  abbrev pub regresses : Option W → Option W → ℕ → Bool
  regresses none baseline tolerance = false
  regresses (some v) none tolerance = false
  regresses (some v) (some b) tolerance =
      floats.less (floats.minus v b) (floats.negated (floats.hundredths tolerance))

  -- `_check_offline_structural_gates`
  unfoldable pub check_offline_structural_gates : ModeData W → ModeData W → List Violation
  check_offline_structural_gates current baseline =
      when
        (regresses current.context_recall_structural baseline.context_recall_structural
          gate_b_offline_tolerance)
        Violation.recall
      ++ when
          (regresses current.keyword_overlap_rate baseline.keyword_overlap_rate
            gate_b_offline_tolerance)
          Violation.overlap

  abbrev pub offline_violations : RunnerMode → ModeData W → ModeData W → List Violation
  unfolding check_offline_structural_gates
  offline_violations RunnerMode.live current baseline = []
  offline_violations RunnerMode.offline current baseline =
      check_offline_structural_gates current baseline

  unfoldable pub violations_b : Scores W → ModeData W → Baseline W → RunnerMode → List Violation
  unfolding check_offline_structural_gates gate_b_tolerance
  violations_b scores canon baseline mode =
      map Violation.metric
        (filter (λ m. regresses (scores m) (baseline.metrics m) (gate_b_tolerance m)) all_metrics)
      ++ offline_violations mode canon baseline.canon

  unfoldable pub apply_gate_b :
      Scores W → ModeData W → Option (Baseline W) → RunnerMode → GateBResult
  unfolding violations_b
  apply_gate_b scores canon none mode = record { passed = true; skipped = true; violations = [] }
  apply_gate_b scores canon (some baseline) mode =
      let violations = violations_b scores canon baseline mode in
      record { passed = is_empty violations; skipped = false; violations = violations }
