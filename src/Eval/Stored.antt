-- ===== src/Eval/Stored.antt =====
-- What the row of a run says of its entries.
use mathlib.Core.Option.{some_inj}
use mathlib.Core.Path.{subst}
use archiviste_nocilia.Prelude.{
  ℕ, ◌+◌, ◌≤◌, Text, true, ◌≡◌, refl, sym, ◌∙◌, ap, inl, inr, Option, none, some, none_not_some,
  List, [], ◌∷◌, length, Bool-cases, Option-cases, arith,
}
use archiviste_nocilia.Eval.{Floats, RunnerMode, Metric, Scores, GoldenEntry, EntryResult}
use archiviste_nocilia.Eval.Reached.{HasHeader, main-Cases}
use archiviste_nocilia.Eval.Totals.{IsTotalled, AreEntries, good_entries, run_golden-IsTotalled}
use archiviste_nocilia.Eval.Rows.{judged_entries, IsInserted, maybe_persist-IsInserted}
use archiviste_nocilia.Eval.Runner.{
  RunFile, EvalRunRow, BaselineFile, not_given, missing, unreadable, holds, Setup, Effects, Ended,
  compute_ragas_metrics, resolve_ragas_metrics, maybe_persist, with_code, judge_run, after_persist,
  emit_summary, exceeds_error_rate, main,
}

module _ {W : Type 0} (floats : Floats W) where
  abbrev HasRow : Option (EvalRunRow W) → Ended W → Type 0
  HasRow row e = e.effects.row ≡ row

  with_code-row :
      (gx : Effects W) (o : Option ℕ) (e : Ended W)
      → with_code floats gx o ≡ some e
      → e.effects.row ≡ gx.row
  with_code-row gx none e h = absurd (none_not_some h)
  with_code-row gx (some code) e h = subst (HasRow gx.row) (some_inj.0 h) refl

  judge_run-row :
      (s : Setup W) (run : RunFile W) (gx : Effects W) (b : BaselineFile W) (e : Ended W)
      → judge_run floats s run gx b ≡ some e
      → e.effects.row ≡ gx.row
  unfolding emit_summary
  judge_run-row s run gx not_given e h = with_code-row gx (emit_summary floats s run none) e h
  judge_run-row s run gx missing e h = elim (Bool-cases (exceeds_error_rate floats run)) [
    | inl x ↦ subst (HasRow gx.row) (some_inj.0 (rw x at h)) refl
    | inr x ↦ elim (Bool-cases s.writes_baseline) [
      | inl w ↦ subst (HasRow gx.row) (some_inj.0 (rw (x, w) at h)) refl
      | inr w ↦ absurd (none_not_some (rw (x, w) at h))
    ]
  ]
  judge_run-row s run gx unreadable e h = subst (HasRow gx.row) (some_inj.0 h) refl
  judge_run-row s run gx (holds b) e h = with_code-row gx (emit_summary floats s run (some b)) e h

  -- A row that is left has been inserted for the run.
  after_persist-row :
      (s : Setup W) (run : RunFile W) (o : Option (Option (EvalRunRow W))) (e : Ended W)
      (row : EvalRunRow W)
      → after_persist floats s run o ≡ some e
      → e.effects.row ≡ some row
      → o ≡ some (some row)
  unfolding emit_summary
  after_persist-row s run none e row h k =
      let none_there : e.effects.row ≡ none = subst (HasRow none) (some_inj.0 h) refl in
      absurd (none_not_some (sym none_there ∙ k))
  after_persist-row s run (some o) e row h k =
      let same : e.effects.row ≡ o = judge_run-row s run _ s.baseline e h in
      ap (λ r. some r) (sym same ∙ k)

  -- The judge has scored some entries, and the scores are those of the row.
  abbrev pub IsJudgedBy : Setup W → List (EntryResult W) → EvalRunRow W → Type 0
  IsJudgedBy s entries row =
      (1 ≤ length entries)
      × ((scores : Metric → W) × ((s.judge entries ≡ some scores)
            × ((m : Metric) → scores m ≡ row.scores m)))

  compute_ragas_metrics-IsJudgedBy :
      (s : Setup W) (entries : List (EntryResult W)) (metrics : Scores W) (row : EvalRunRow W)
      → compute_ragas_metrics floats s entries ≡ some metrics
      → ((m : Metric) → metrics m ≡ some (row.scores m))
      → IsJudgedBy s entries row
  unfolding compute_ragas_metrics
  compute_ragas_metrics-IsJudgedBy s [] metrics row h k =
      absurd
        (none_not_some (ap (λ f. f Metric.faithfulness) (some_inj.0 h) ∙ k Metric.faithfulness))
  compute_ragas_metrics-IsJudgedBy s (e ∷ entries) metrics row h k =
      elim (Option-cases (s.judge (e ∷ entries))) [
        | inl x ↦ absurd (none_not_some (rw x at h))
        | inr (scores, x) ↦ (
          omega arith,
          (scores, (x, λ m. some_inj.0 (ap (λ f. f m) (some_inj.0 (rw x at h)) ∙ k m))),
        )
      ]

  resolve_ragas_metrics-IsJudgedBy :
      (s : Setup W) (mode : RunnerMode) (entries : List (EntryResult W)) (metrics : Scores W)
      (row : EvalRunRow W)
      → mode ≡ RunnerMode.live
      → resolve_ragas_metrics floats s mode entries ≡ some metrics
      → ((m : Metric) → metrics m ≡ some (row.scores m))
      → IsJudgedBy s (judged_entries entries) row
  unfolding resolve_ragas_metrics
  resolve_ragas_metrics-IsJudgedBy s RunnerMode.live entries metrics row m h k =
      compute_ragas_metrics-IsJudgedBy s (judged_entries entries) metrics row h k
  resolve_ragas_metrics-IsJudgedBy s RunnerMode.offline entries metrics row m h k = cc

  -- The counts of a row
  abbrev pub IsCounted : List GoldenEntry → List (EntryResult W) → EvalRunRow W → Type 0
  IsCounted golden entries row =
      (row.entries_total ≡ length golden)
      × ((row.entries_ok ≡ length (good_entries entries))
          × (row.entries_ok + row.entries_errors ≡ row.entries_total))

  abbrev pub IsStored : Setup W → EvalRunRow W → Type 0
  IsStored s row =
      (s.persists ≡ true)
      × ((s.mode ≡ RunnerMode.live)
          × ((s.inserts row ≡ true)
              × ((golden : List GoldenEntry) × ((entries : List (EntryResult W)) × ((s.golden
                        ≡ some golden)
                      × (((header : Option Text) × (HasHeader floats s header
                              × AreEntries floats s.lower s.workers header s.mode golden entries))
                          × (IsJudgedBy s (judged_entries entries) row
                              × IsCounted golden entries row)))))))

  stored :
      (s : Setup W) (header : Option Text) (golden : List GoldenEntry) (run : RunFile W)
      (row : EvalRunRow W)
      → s.golden ≡ some golden
      → HasHeader floats s header
      → IsTotalled floats s header golden run
      → IsInserted floats s run row
      → IsStored s row
  stored s header golden run row g has (all, (total, (sum, (good, metrics))))
        (p, (m, (i, (scores, (t, (o, err)))))) =
      (
        p,
        (
          m,
          (
            i,
            (
              golden,
              (
                run.entries,
                (
                  g,
                  (
                    (header, (has, all)),
                    (
                      resolve_ragas_metrics-IsJudgedBy s s.mode run.entries run.metrics row m
                          metrics scores,
                      (t ∙ total, (o ∙ good, omega (arith, sum, t, o, err))),
                    ),
                  ),
                ),
              ),
            ),
          ),
        ),
      )

-- A row that a run leaves in the table was asked for, in a live run, and accepted by the table. The run has one entry for each golden
-- question, in order: with its overlap and, in the canon mode, its recall where it went well and has an answer, and with no metric otherwise.
-- The scores of the row are the judge's for the canon entries that went well, of which there is one at least. Its counts are those
-- of the entries and add up to the number of questions.
pub main-IsStored :
    {W : Type 0} (floats : Floats W) (s : Setup W) (e : Ended W) (row : EvalRunRow W)
    → main floats s ≡ some e
    → e.effects.row ≡ some row
    → IsStored floats s row
main-IsStored floats s e row h k = elim (main-Cases floats s e h) [
  | inl (same, _) ↦ absurd (none_not_some (sym (ap (λ f. f.row) same) ∙ k))
  | inr (header, (golden, (run, (g, (has, (r, end)))))) ↦
      stored floats s header golden run row g has
        (run_golden-IsTotalled floats s header golden run r)
        (maybe_persist-IsInserted floats s run row
          (after_persist-row floats s run (maybe_persist floats s run) e row end k))
]
