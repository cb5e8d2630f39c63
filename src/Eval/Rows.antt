-- ===== src/Eval/Rows.antt =====
-- What is stored of a run in the table of runs.
use mathlib.Core.Option.{some_inj}
use mathlib.Core.Path.{subst}
use archiviste_nocilia.Prelude.{
  true, false, ◌&&◌, ◌≡◌, sym, refl, ◌⊎◌, inl, inr, Option, none, some, none_not_some, List, filter,
  Bool-cases,
}
use archiviste_nocilia.Eval.{Floats, Mode, same_mode, RunnerMode, Metric, is_ok, EntryResult}
use archiviste_nocilia.Eval.Runner.{
  RunFile, EvalRunRow, Setup, row_with, build_eval_run_row, insert_row, persist_live, maybe_persist,
}

-- The entries of the canon mode that went well.
abbrev pub judged_entries : {W : Type 0} → List (EntryResult W) → List (EntryResult W)
judged_entries entries = filter (λ e. same_mode e.mode Mode.canon && is_ok e.status) entries

module _ {W : Type 0} (floats : Floats W) where
  -- The row has the scores of the run, none of them missing, and its counts.
  abbrev pub IsRowOf : RunFile W → EvalRunRow W → Type 0
  IsRowOf run row =
      ((m : Metric) → run.metrics m ≡ some (row.scores m))
      × ((row.entries_total ≡ run.total)
          × ((row.entries_ok ≡ run.ok_count) × (row.entries_errors ≡ run.errors)))

  row_with-IsRowOf :
      (run : RunFile W) (f a p r : Option W) (row : EvalRunRow W)
      → run.metrics Metric.faithfulness ≡ f
      → run.metrics Metric.answer_relevancy ≡ a
      → run.metrics Metric.context_precision ≡ p
      → run.metrics Metric.context_recall ≡ r
      → row_with floats run f a p r ≡ some row
      → IsRowOf run row
  row_with-IsRowOf run (some f) (some a) (some p) (some r) row hf ha hp hr h =
      subst (IsRowOf run) (some_inj.0 h) (scores, (refl, (refl, refl)))
    where
      scores :
          (m : Metric)
          → run.metrics m
            ≡ some (elim m [
              | Metric.faithfulness ↦ f
              | Metric.answer_relevancy ↦ a
              | Metric.context_precision ↦ p
              | Metric.context_recall ↦ r
            ])
      scores Metric.faithfulness = hf
      scores Metric.answer_relevancy = ha
      scores Metric.context_precision = hp
      scores Metric.context_recall = hr
  row_with-IsRowOf run none a p r row hf ha hp hr h = absurd (none_not_some h)
  row_with-IsRowOf run (some f) none p r row hf ha hp hr h = absurd (none_not_some h)
  row_with-IsRowOf run (some f) (some a) none r row hf ha hp hr h = absurd (none_not_some h)
  row_with-IsRowOf run (some f) (some a) (some p) none row hf ha hp hr h = absurd (none_not_some h)

  abbrev pub IsInserted : Setup W → RunFile W → EvalRunRow W → Type 0
  IsInserted s run row =
      (s.persists ≡ true)
      × ((s.mode ≡ RunnerMode.live) × ((s.inserts row ≡ true) × IsRowOf run row))

  insert_row-IsInserted :
      (s : Setup W) (run : RunFile W) (o : Option (EvalRunRow W)) (row : EvalRunRow W)
      → build_eval_run_row floats run ≡ o
      → insert_row floats s o ≡ some (some row)
      → (s.inserts row ≡ true) × IsRowOf run row
  unfolding build_eval_run_row
  insert_row-IsInserted s run none row b h = absurd (none_not_some h)
  insert_row-IsInserted s run (some built) row b h = elim (Bool-cases (s.inserts built)) [
    | inr x ↦ absurd (none_not_some (rw x at h))
    | inl x ↦
        subst (λ r. (s.inserts r ≡ true) × IsRowOf run r) (some_inj.0 (some_inj.0 (rw x at h)))
          (x, row_with-IsRowOf run _ _ _ _ built refl refl refl refl b)
  ]

  pub maybe_persist-IsInserted :
      (s : Setup W) (run : RunFile W) (row : EvalRunRow W)
      → maybe_persist floats s run ≡ some (some row)
      → IsInserted s run row
  unfolding maybe_persist
  maybe_persist-IsInserted s run row h = elim (Bool-cases s.persists) [
    | inr p ↦ absurd (none_not_some (some_inj.0 (rw p at h)))
    | inl p ↦ (p, in_mode s.mode refl (rw p at h))
  ]
    where
      in_mode :
          (mode : RunnerMode)
          → s.mode ≡ mode
          → persist_live floats s mode run ≡ some (some row)
          → (s.mode ≡ RunnerMode.live) × ((s.inserts row ≡ true) × IsRowOf run row)
      in_mode RunnerMode.live m k = (m, insert_row-IsInserted s run _ row refl k)
      in_mode RunnerMode.offline m k = absurd (none_not_some (some_inj.0 k))

  -- The table has a row of the run, or none was asked for, or the run is an offline one.
  abbrev pub IsPersisted : Setup W → RunFile W → Option (EvalRunRow W) → Type 0
  IsPersisted s run none = (s.persists ≡ false) ⊎ (s.mode ≡ RunnerMode.offline)
  IsPersisted s run (some row) = IsInserted s run row

  insert_row-leaves :
      (s : Setup W) (o : Option (EvalRunRow W)) → ¬ (insert_row floats s o ≡ some none)
  insert_row-leaves s none h = none_not_some h
  insert_row-leaves s (some row) h = elim (Bool-cases (s.inserts row)) [
    | inl x ↦ none_not_some (sym (some_inj.0 (rw x at h)))
    | inr x ↦ none_not_some (rw x at h)
  ]

  pub maybe_persist-IsPersisted :
      (s : Setup W) (run : RunFile W) (row : Option (EvalRunRow W))
      → maybe_persist floats s run ≡ some row
      → IsPersisted s run row
  unfolding maybe_persist build_eval_run_row
  maybe_persist-IsPersisted s run (some row) h = maybe_persist-IsInserted s run row h
  maybe_persist-IsPersisted s run none h = elim (Bool-cases s.persists) [
    | inr p ↦ inl p
    | inl p ↦ inr (in_mode s.mode refl (rw p at h))
  ]
    where
      in_mode :
          (mode : RunnerMode)
          → s.mode ≡ mode
          → persist_live floats s mode run ≡ some none
          → s.mode ≡ RunnerMode.offline
      in_mode RunnerMode.live m k = absurd (insert_row-leaves s _ k)
      in_mode RunnerMode.offline m k = m
