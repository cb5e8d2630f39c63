-- ===== src/Eval/Verdict.antt =====
-- What the exit code 0 of a run means.
use mathlib.Core.Path.{subst}
use archiviste_nocilia.Prelude.{
  ℕ, ◌*◌, ◌≤◌, Text, Bool, true, false, ◌>>=◌, ◌≡◌, refl, sym, ◌∙◌, ap, ◌⊎◌, inl, inr, Option, none,
  some, List, Bool-cases, none_not_some, arith,
}
use archiviste_nocilia.Eval.{Floats, Mode, GoldenEntry}
use archiviste_nocilia.Eval.Gates.{Baseline, GateBResult, apply_gate_a, apply_gate_b}
use archiviste_nocilia.Eval.Passed.{
  IsAbove, NoneRegresses, apply_gate_a-IsAbove, violations_b-NoneRegresses,
}
use archiviste_nocilia.Eval.Bump.{should_skip_gate_b}
use archiviste_nocilia.Eval.Bumped.{IsBump, should_skip_gate_b-IsBump}
use archiviste_nocilia.Eval.Reached.{HasHeader, main-Cases}
use archiviste_nocilia.Eval.Rows.{IsPersisted, maybe_persist-IsPersisted}
use archiviste_nocilia.Eval.Totals.{IsTotalled, run_golden-IsTotalled}
use archiviste_nocilia.Eval.Runner.{
  RunFile, EvalRunRow, BaselineFile, not_given, missing, unreadable, holds, Setup, Effects, Ended,
  exceeds_error_rate, maybe_persist, unless_bump, summary_code, emit_summary, with_code, judge_run,
  after_persist, main, exits, no_effects,
}

module _ {W : Type 0} (floats : Floats W) where
  -- What holds of a run and its baseline where the code is 0.
  abbrev pub HasNoRegress : Setup W → RunFile W → BaselineFile W → Type 0
  HasNoRegress s run not_given = Unit
  HasNoRegress s run missing = Unit
  HasNoRegress s run unreadable = ⊥
  HasNoRegress s run (holds b) = IsBump s.git ⊎ NoneRegresses floats s.mode run b

  -- The end of a good run: the first run of a new baseline, whatever its scores are, or one that passes the gates.
  abbrev pub IsJudged : Setup W → RunFile W → Effects W → Type 0
  IsJudged s run fx =
      (run.errors * 10 ≤ run.total)
      × (((s.baseline ≡ missing) × (fx.new_baseline ≡ some run))
          ⊎ ((fx.new_baseline ≡ none)
              × (IsAbove floats s.mode run.metrics × HasNoRegress s run s.baseline)))

  abbrev pub IsPass : Setup W → Effects W → Type 0
  IsPass s fx =
      (header : Option Text) × ((golden : List GoldenEntry) × ((run : RunFile W) × ((s.golden
              ≡ some golden)
            × (HasHeader floats s header
                × (IsTotalled floats s header golden run
                    × ((fx.output ≡ some run)
                        × (IsPersisted floats s run fx.row × IsJudged s run fx)))))))

  good_code :
      (a : Bool) (b : GateBResult) (exceeded : Bool)
      → summary_code floats a b exceeded ≡ 0
      → (a ≡ true) × ((b.passed ≡ true) × (exceeded ≡ false))
  good_code a b exceeded h = ground arith

  exceeds-few :
      (run : RunFile W) → exceeds_error_rate floats run ≡ false → run.errors * 10 ≤ run.total
  unfolding exceeds_error_rate
  exceeds-few run h = ground arith

  gate_b-HasNoRegress :
      (s : Setup W) (run : RunFile W) (b : Baseline W)
      → (apply_gate_b floats run.metrics (run.breakdown_by_mode Mode.canon) (some b) s.mode).passed
        ≡ true
      → HasNoRegress s run (holds b)
  unfolding apply_gate_b
  gate_b-HasNoRegress s run b h = inr (violations_b-NoneRegresses floats s.mode run b h)

  ended_with :
      (code : ℕ) (fx gx : Effects W)
      → exits floats code gx ≡ some (record { code = 0; effects = fx })
      → (code ≡ 0) × (gx ≡ fx)
  ended_with code fx gx h = (ap code_of h, ap effects_of h)
    where
      code_of : Option (Ended W) → ℕ
      code_of none = 0
      code_of (some e) = e.code

      effects_of : Option (Ended W) → Effects W
      effects_of none = fx
      effects_of (some e) = e.effects

  -- What the gate shows, if it is passed.
  abbrev Shows : Setup W → RunFile W → Option (Baseline W) → Type 0
  Shows s run used =
      (apply_gate_b floats run.metrics (run.breakdown_by_mode Mode.canon) used s.mode).passed ≡ true
      → HasNoRegress s run s.baseline

  summary-IsJudged :
      (s : Setup W) (run : RunFile W) (gx fx : Effects W) (used : Option (Baseline W))
      → Shows s run used
      → gx.new_baseline ≡ none
      → with_code floats gx (
          some (
            summary_code floats
              (apply_gate_a floats run.metrics s.mode)
              (apply_gate_b floats run.metrics (run.breakdown_by_mode Mode.canon) used s.mode)
              (exceeds_error_rate floats run)))
        ≡ some (record { code = 0; effects = fx })
      → (gx ≡ fx) × IsJudged s run fx
  summary-IsJudged s run gx fx used by fresh h =
      let (c, d) = ended_with _ fx gx h in
      let (a, (b, few)) =
        good_code (apply_gate_a floats run.metrics s.mode)
          (apply_gate_b floats run.metrics (run.breakdown_by_mode Mode.canon) used s.mode)
          (exceeds_error_rate floats run) c in
      (
        d,
        (
          exceeds-few run few,
          inr (
            sym (ap (λ f. f.new_baseline) d) ∙ fresh,
            (apply_gate_a-IsAbove floats s.mode run.metrics a, by b),
          ),
        ),
      )

  same_effects :
      (s : Setup W) (run : RunFile W) (gx fx : Effects W)
      → (gx ≡ fx) × IsJudged s run fx
      → (gx.output ≡ fx.output) × ((gx.row ≡ fx.row) × IsJudged s run fx)
  same_effects s run gx fx (d, judged) = (ap (λ f. f.output) d, (ap (λ f. f.row) d, judged))

  judge_run-IsJudged :
      (s : Setup W) (run : RunFile W) (gx fx : Effects W) (b : BaselineFile W)
      → s.baseline ≡ b
      → gx.new_baseline ≡ none
      → judge_run floats s run gx b ≡ some (record { code = 0; effects = fx })
      → (gx.output ≡ fx.output) × ((gx.row ≡ fx.row) × IsJudged s run fx)
  unfolding emit_summary
  judge_run-IsJudged s run gx fx not_given e fresh h =
      same_effects s run gx fx
        (summary-IsJudged s run gx fx none (λ p. subst (HasNoRegress s run) (sym e) tt) fresh h)
  judge_run-IsJudged s run gx fx missing e fresh h =
      elim (Bool-cases (exceeds_error_rate floats run)) [
        | inl x ↦ (let (c, d) = ended_with 1 fx gx (rw x at h) in absurd (omega arith))
        | inr x ↦ elim (Bool-cases s.writes_baseline) [
          | inr w ↦ absurd (none_not_some (rw (x, w) at h))
          | inl w ↦
              let (c, d) =
                ended_with 0 fx (record gx { new_baseline = some run }) (rw (x, w) at h) in
              (
                ap (λ f. f.output) d,
                (ap (λ f. f.row) d, (exceeds-few run x, inl (e, sym (ap (λ f. f.new_baseline) d)))),
              )
        ]
      ]
  judge_run-IsJudged s run gx fx unreadable e fresh h =
      let (c, d) = ended_with 2 fx gx h in absurd (omega arith)
  judge_run-IsJudged s run gx fx (holds b) e fresh h = judged_by (should_skip_gate_b s.git) refl h
    where
      judged_by :
          (skips : Option Bool)
          → should_skip_gate_b s.git ≡ skips
          → with_code floats gx (
              unless_bump floats b skips >>= λ used. some (
                summary_code floats
                  (apply_gate_a floats run.metrics s.mode)
                  (apply_gate_b floats run.metrics (run.breakdown_by_mode Mode.canon) used s.mode)
                  (exceeds_error_rate floats run)))
            ≡ some (record { code = 0; effects = fx })
          → (gx.output ≡ fx.output) × ((gx.row ≡ fx.row) × IsJudged s run fx)
      judged_by none x k = absurd (none_not_some k)
      judged_by (some true) x k = same_effects s run gx fx (
          summary-IsJudged s run gx fx none
            (λ p. subst (HasNoRegress s run) (sym e) (inl (should_skip_gate_b-IsBump s.git x)))
            fresh k)
      judged_by (some false) x k = same_effects s run gx fx (
          summary-IsJudged s run gx fx (some b)
            (λ p. subst (HasNoRegress s run) (sym e) (gate_b-HasNoRegress s run b p)) fresh k)

  after_persist-IsPass :
      (s : Setup W) (header : Option Text) (golden : List GoldenEntry) (run : RunFile W)
      (fx : Effects W) (row : Option (Option (EvalRunRow W)))
      → s.golden ≡ some golden
      → HasHeader floats s header
      → IsTotalled floats s header golden run
      → maybe_persist floats s run ≡ row
      → after_persist floats s run row ≡ some (record { code = 0; effects = fx })
      → IsPass s fx
  unfolding emit_summary
  after_persist-IsPass s header golden run fx none g has all m h =
      let (c, d) = ended_with 4 fx (record (no_effects floats) { output = some run }) h in
      absurd (omega arith)
  after_persist-IsPass s header golden run fx (some row) g has all m h =
      let (out, (same, judged)) =
        judge_run-IsJudged s run (record (no_effects floats) { output = some run; row = row }) fx
          s.baseline refl refl h in
      (
        header,
        (
          golden,
          (
            run,
            (
              g,
              (
                has,
                (
                  all,
                  (
                    sym out,
                    (maybe_persist-IsPersisted floats s run fx.row (m ∙ ap some same), judged),
                  ),
                ),
              ),
            ),
          ),
        ),
      )

-- A run that exits with 0 has read its questions and has one entry for each, in order, with what the workers replied to it when called
-- without a token, in plain HTTP or on the same machine, and with the token for their audience elsewhere; its totals are those of the
-- entries. It has written the run file and, in a live run where that is asked for, inserted a row with its scores and counts. At most
-- a tenth of its entries failed. Then either its baseline was missing and it has become the baseline, whatever its scores are, or in a live
-- run no score is below its threshold and, unless the change is a bump of the baseline and touches no other file, none is below the
-- baseline by more than its tolerance.
pub main-IsPass :
    {W : Type 0} (floats : Floats W) (s : Setup W) (fx : Effects W)
    → main floats s ≡ some (record { code = 0; effects = fx })
    → IsPass floats s fx
main-IsPass floats s fx h = elim (main-Cases floats s _ h) [
  | inl (_, late) ↦ absurd (omega arith)
  | inr (header, (golden, (run, (g, (has, (r, end)))))) ↦
      after_persist-IsPass floats s header golden run fx (maybe_persist floats s run) g has
        (run_golden-IsTotalled floats s header golden run r) refl end
]
