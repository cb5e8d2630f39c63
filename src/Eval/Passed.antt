-- ===== src/Eval/Passed.antt =====
-- What a gate shows that is passed.
use archiviste_nocilia.Prelude.{
  Bool, true, false, ◌≡◌, refl, inl, inr, List, [], ◌∷◌, ◌++◌, map, filter, is_empty, All,
  Bool-cases,
}
use archiviste_nocilia.Eval.{Floats, Mode, RunnerMode, Metric, Scores, all_metrics, ModeData}
use archiviste_nocilia.Eval.Gates.{
  Baseline, Violation, gate_a_threshold, gate_b_tolerance, is_below, regresses, when, violations_b,
  apply_gate_a, check_offline_structural_gates, offline_violations,
}
use archiviste_nocilia.Eval.Runner.{RunFile}

no_violations :
    {A B : Type 0} (f : A → B) (p : A → Bool) (xs : List A)
    → is_empty (map f (filter p xs)) ≡ true
    → All (λ x. p x ≡ false) xs
no_violations f p [] h = tt
no_violations f p (x ∷ xs) h = elim (Bool-cases (p x)) [
  | inl e ↦ (let k : false ≡ true = rw e at h in cc)
  | inr e ↦ (e, no_violations f p xs (rw e at h))
]

empty_append :
    {A : Type 0} (xs ys : List A)
    → is_empty (xs ++ ys) ≡ true
    → (is_empty xs ≡ true) × (is_empty ys ≡ true)
empty_append [] ys h = (refl, h)
empty_append (x ∷ xs) ys h = cc

not_when : (b : Bool) (v : Violation) → is_empty (when b v) ≡ true → b ≡ false
not_when true v h = cc
not_when false v h = refl

module _ {W : Type 0} (floats : Floats W) where
  -- No score that a live run has is below its threshold.
  abbrev pub IsAbove : RunnerMode → Scores W → Type 0
  IsAbove RunnerMode.live scores =
      All (λ m. is_below floats (scores m) (gate_a_threshold m) ≡ false) all_metrics
  IsAbove RunnerMode.offline scores = Unit

  abbrev pub IsKept : RunnerMode → ModeData W → ModeData W → Type 0
  IsKept RunnerMode.live current base = Unit
  IsKept RunnerMode.offline current base =
      (regresses floats current.context_recall_structural base.context_recall_structural 5 ≡ false)
      × (regresses floats current.keyword_overlap_rate base.keyword_overlap_rate 5 ≡ false)

  -- No score is below that of the baseline by more than its tolerance.
  abbrev pub NoneRegresses : RunnerMode → RunFile W → Baseline W → Type 0
  NoneRegresses mode run b =
      All (λ m. regresses floats (run.metrics m) (b.metrics m) (gate_b_tolerance m) ≡ false)
        all_metrics
      × IsKept mode (run.breakdown_by_mode Mode.canon) b.canon

  pub apply_gate_a-IsAbove :
      (mode : RunnerMode) (scores : Scores W)
      → apply_gate_a floats scores mode ≡ true
      → IsAbove mode scores
  unfolding apply_gate_a
  apply_gate_a-IsAbove RunnerMode.live scores h =
      no_violations Violation.metric (λ m. is_below floats (scores m) (gate_a_threshold m))
        all_metrics h
  apply_gate_a-IsAbove RunnerMode.offline scores h = tt

  offline-IsKept :
      (mode : RunnerMode) (current base : ModeData W)
      → is_empty (offline_violations floats mode current base) ≡ true
      → IsKept mode current base
  unfolding check_offline_structural_gates
  offline-IsKept RunnerMode.live current base h = tt
  offline-IsKept RunnerMode.offline current base h =
      let recall =
        regresses floats current.context_recall_structural base.context_recall_structural 5 in
      let rate = regresses floats current.keyword_overlap_rate base.keyword_overlap_rate 5 in
      let (a, b) = empty_append (when recall Violation.recall) (when rate Violation.overlap) h in
      (not_when recall Violation.recall a, not_when rate Violation.overlap b)

  pub violations_b-NoneRegresses :
      (mode : RunnerMode) (run : RunFile W) (b : Baseline W)
      → is_empty (violations_b floats run.metrics (run.breakdown_by_mode Mode.canon) b mode) ≡ true
      → NoneRegresses mode run b
  unfolding violations_b
  violations_b-NoneRegresses mode run b h =
      let p = λ (m : Metric). regresses floats (run.metrics m) (b.metrics m) (gate_b_tolerance m) in
      let (x, y) = empty_append (map Violation.metric (filter p all_metrics)) _ h in
      (
        no_violations Violation.metric p all_metrics x,
        offline-IsKept mode (run.breakdown_by_mode Mode.canon) b.canon y,
      )
