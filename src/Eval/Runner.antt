-- ===== src/Eval/Runner.antt =====
-- `main` of eval/ragas_runner.py from its arguments on. What it reaches is a part of `Setup`: the workers, the judge of Ragas, the
-- files, git and the table of runs. `none` is an error that leaves `main`; times, digests and the lines of the log are left out.
use archiviste_nocilia.Prelude.{
  ℕ, ◌-◌, ◌*◌, Text, Bool, true, false, not, ◌&&◌, ◌||◌, Option, none, some, List, [], ◌∷◌, filter,
  length, ltb, if◌then◌else◌, ◌>>=◌,
}
use archiviste_nocilia.Eval.{
  Floats, Mode, same_mode, RunnerMode, Metric, Scores, ModeData, is_ok, GoldenEntry, EntryResult,
}
use archiviste_nocilia.Eval.Metrics.{aggregate_breakdown}
use archiviste_nocilia.Eval.Gates.{Baseline, GateBResult, apply_gate_a, apply_gate_b}
use archiviste_nocilia.Eval.Bump.{Git, should_skip_gate_b}
use archiviste_nocilia.Eval.Target.{Split, is_authenticated_target, derive_audience}
use archiviste_nocilia.Eval.Entries.{Workers, run_all_entries}

-- `RunFile`
pub record RunFile (W : Type 0) : Type 0 where
  pub runner_mode : RunnerMode
  pub total : ℕ
  pub ok_count : ℕ
  pub errors : ℕ
  pub breakdown_by_mode : Mode → ModeData W
  pub metrics : Scores W
  pub entries : List (EntryResult W)

-- `EvalRunRow`: no score of it is missing.
pub record EvalRunRow (W : Type 0) : Type 0 where
  pub scores : Metric → W
  pub entries_total : ℕ
  pub entries_ok : ℕ
  pub entries_errors : ℕ

-- The argument `--baseline`: not given, with no file there, with one that is no JSON, or with a run.
pub data BaselineFile (W : Type 0) : Type 0 where
  not_given missing unreadable : BaselineFile W
  holds : Baseline W → BaselineFile W

pub record Setup (W : Type 0) : Type 0 where
  pub mode : RunnerMode
  -- `none` is a ValueError of `load_golden_set`
  pub golden : Option (List GoldenEntry)
  -- `--workers-url`; `none` is a ValueError of `urlsplit`
  pub workers_url : Option Split
  -- the token for an audience, where there is one
  pub fetches : Text → Option Text
  -- the probe of the workers, with the token in its header
  pub is_reachable : Option Text → Bool
  pub baseline : BaselineFile W
  -- whether the run file and a new baseline can be written
  pub writes_run : Bool
  pub writes_baseline : Bool
  pub workers : Workers
  pub lower : Text → Text
  pub new_id : ℕ → Text
  pub judge : List (EntryResult W) → Option (Metric → W)
  pub persists : Bool
  pub inserts : EvalRunRow W → Bool
  pub git : Git

-- What a run leaves: the run file, the new baseline, and the row of the table.
pub record Effects (W : Type 0) : Type 0 where
  pub output : Option (RunFile W)
  pub new_baseline : Option (RunFile W)
  pub row : Option (EvalRunRow W)

pub record Ended (W : Type 0) : Type 0 where
  pub code : ℕ
  pub effects : Effects W

module _ {W : Type 0} (floats : Floats W) where
  abbrev pub no_effects : Effects W
  no_effects = record { output = none; new_baseline = none; row = none }

  abbrev pub exits : ℕ → Effects W → Option (Ended W)
  exits code effects = some (record { code = code; effects = effects })

  abbrev pub null_scores : Scores W
  null_scores m = none

  abbrev pub all_some : (Metric → W) → Scores W
  all_some scores m = some (scores m)

  abbrev pub some_scores : Option (Metric → W) → Option (Scores W)
  some_scores none = none
  some_scores (some scores) = some (all_some scores)

  -- `compute_ragas_metrics`
  unfoldable pub compute_ragas_metrics : Setup W → List (EntryResult W) → Option (Scores W)
  compute_ragas_metrics s [] = some null_scores
  compute_ragas_metrics s (e ∷ entries) = some_scores (s.judge (e ∷ entries))

  -- `_resolve_ragas_metrics`
  unfoldable pub resolve_ragas_metrics :
      Setup W → RunnerMode → List (EntryResult W) → Option (Scores W)
  unfolding compute_ragas_metrics
  resolve_ragas_metrics s RunnerMode.live entries =
      compute_ragas_metrics s (filter (λ e. same_mode e.mode Mode.canon && is_ok e.status) entries)
  resolve_ragas_metrics s RunnerMode.offline entries = some null_scores

  -- `error_rate > ERROR_RATE_THRESHOLD`, exact for less than 2 ^ 50 entries
  unfoldable pub exceeds_error_rate : RunFile W → Bool
  exceeds_error_rate run = ltb run.total (run.errors * 10)

  -- `_build_eval_run_row`
  abbrev pub row_with :
      RunFile W → Option W → Option W → Option W → Option W → Option (EvalRunRow W)
  row_with run (some f) (some a) (some p) (some r) = some (record {
    scores = λ m. elim m [
      | Metric.faithfulness ↦ f
      | Metric.answer_relevancy ↦ a
      | Metric.context_precision ↦ p
      | Metric.context_recall ↦ r
    ];
    entries_total = run.total;
    entries_ok = run.ok_count;
    entries_errors = run.errors;
  })
  row_with run _ _ _ _ = none

  unfoldable pub build_eval_run_row : RunFile W → Option (EvalRunRow W)
  build_eval_run_row run =
      row_with run (run.metrics Metric.faithfulness) (run.metrics Metric.answer_relevancy)
        (run.metrics Metric.context_precision) (run.metrics Metric.context_recall)

  -- What `_maybe_persist` does in a live run: a row, or the exit code 4.
  abbrev pub insert_row : Setup W → Option (EvalRunRow W) → Option (Option (EvalRunRow W))
  insert_row s none = none
  insert_row s (some row) = if s.inserts row then some (some row) else none

  abbrev pub persist_live : Setup W → RunnerMode → RunFile W → Option (Option (EvalRunRow W))
  unfolding build_eval_run_row
  persist_live s RunnerMode.live run = insert_row s (build_eval_run_row run)
  persist_live s RunnerMode.offline run = some none

  -- `_maybe_persist`: `none` is the exit code 4.
  unfoldable pub maybe_persist : Setup W → RunFile W → Option (Option (EvalRunRow W))
  unfolding build_eval_run_row
  maybe_persist s run = if s.persists then persist_live s s.mode run else some none

  abbrev pub summary_code : Bool → GateBResult → Bool → ℕ
  summary_code gate_a gate_b exceeded =
      if not gate_a || (not gate_b.passed || exceeded) then 1 else 0

  -- No baseline for a change that is a bump of it; `none` is an error of git.
  abbrev pub unless_bump : Baseline W → Option Bool → Option (Option (Baseline W))
  unless_bump b none = none
  unless_bump b (some true) = some none
  unless_bump b (some false) = some (some b)

  -- `_emit_summary_and_exit` against a baseline that is there or not; git is only asked where it is.
  abbrev pub effective : Setup W → Option (Baseline W) → Option (Option (Baseline W))
  effective s none = some none
  effective s (some b) = unless_bump b (should_skip_gate_b s.git)

  unfoldable pub emit_summary : Setup W → RunFile W → Option (Baseline W) → Option ℕ
  unfolding apply_gate_a apply_gate_b exceeds_error_rate
  emit_summary s run baseline = do
    used ← effective s baseline
    some (
        summary_code (apply_gate_a floats run.metrics s.mode)
          (apply_gate_b floats run.metrics (run.breakdown_by_mode Mode.canon) used s.mode)
          (exceeds_error_rate run))

  abbrev pub with_code : Effects W → Option ℕ → Option (Ended W)
  with_code effects none = none
  with_code effects (some code) = exits code effects

  -- The end of `main`: `_handle_auto_create_baseline` where the baseline is missing.
  abbrev pub judge_run : Setup W → RunFile W → Effects W → BaselineFile W → Option (Ended W)
  unfolding emit_summary exceeds_error_rate
  judge_run s run effects not_given = with_code effects (emit_summary s run none)
  judge_run s run effects missing =
      if exceeds_error_rate run
      then exits 1 effects
      else if s.writes_baseline
      then exits 0 (record effects { new_baseline = some run })
      else none
  judge_run s run effects unreadable = exits 2 effects
  judge_run s run effects (holds b) = with_code effects (emit_summary s run (some b))

  abbrev pub after_persist : Setup W → RunFile W → Option (Option (EvalRunRow W)) → Option (Ended W)
  unfolding emit_summary exceeds_error_rate
  after_persist s run none = exits 4 (record no_effects { output = some run })
  after_persist s run (some row) =
      judge_run s run (record no_effects { output = some run; row = row }) s.baseline

  abbrev pub build_run : Setup W → List (EntryResult W) → ℕ → Scores W → RunFile W
  build_run s entries errors scores = record {
    runner_mode = s.mode;
    total = length entries;
    ok_count = length entries - errors;
    errors = errors;
    breakdown_by_mode = aggregate_breakdown floats entries;
    metrics = scores;
    entries = entries;
  }

  -- The questions, the metrics and the run file
  unfoldable pub run_golden : Setup W → Option Text → List GoldenEntry → Option (RunFile W)
  unfolding run_all_entries resolve_ragas_metrics aggregate_breakdown
  run_golden s header golden = do
    (entries, errors) ← run_all_entries floats s.lower s.workers header s.mode s.new_id 0 golden
    scores ← resolve_ragas_metrics s s.mode entries
    some (build_run s entries errors scores)

  abbrev pub then_persist : Setup W → Option (RunFile W) → Option (Ended W)
  unfolding maybe_persist emit_summary exceeds_error_rate
  then_persist s none = none
  then_persist s (some run) =
      if s.writes_run then after_persist s run (maybe_persist s run) else none

  abbrev pub is_unreadable : BaselineFile W → Bool
  is_unreadable unreadable = true
  is_unreadable _ = false

  abbrev pub sent_token : Option Text → Option (Option Text)
  sent_token none = none
  sent_token (some token) = some (some token)

  -- What the workers are called with: no token, or the one for their audience; `none` where that cannot be had.
  abbrev pub token_for : Setup W → Split → Option (Option Text)
  token_for s parsed =
      if is_authenticated_target parsed
      then sent_token (s.fetches (derive_audience parsed))
      else some none

  -- The same, for a URL that can be split or not
  abbrev pub token_at : Setup W → Option Split → Option (Option (Option Text))
  token_at s none = none
  token_at s (some parsed) = some (token_for s parsed)

  abbrev pub with_token : Setup W → List GoldenEntry → Option (Option Text) → Option (Ended W)
  unfolding run_golden maybe_persist emit_summary exceeds_error_rate
  with_token s golden none = exits 5 no_effects
  with_token s golden (some header) =
      if not (s.is_reachable header)
      then exits 3 no_effects
      else if is_unreadable s.baseline
      then exits 2 no_effects
      else then_persist s (run_golden s header golden)

  abbrev pub main_with : Setup W → Option (List GoldenEntry) → Option (Ended W)
  unfolding run_golden maybe_persist emit_summary exceeds_error_rate
  main_with s none = exits 2 no_effects
  main_with s (some golden) = token_at s s.workers_url >>= with_token s golden

  unfoldable pub main : Setup W → Option (Ended W)
  unfolding run_golden maybe_persist emit_summary exceeds_error_rate
  main s = main_with s s.golden
