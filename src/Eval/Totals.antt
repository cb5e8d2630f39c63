-- ===== src/Eval/Totals.antt =====
-- The entries of a run and its totals, against the golden questions.
use mathlib.Core.Option.{some_inj}
use mathlib.Core.Path.{subst}
use archiviste_nocilia.Prelude.{
  ℕ, ◌+◌, Text, Option, ◌≡◌, refl, inl, inr, some, none_not_some, List, [], ◌∷◌, filter, length,
  arith, Bool-cases, Option-cases, if◌then◌else◌,
}
use archiviste_nocilia.Eval.{Floats, Scores, RunnerMode, is_ok, GoldenEntry, EntryResult}
use archiviste_nocilia.Eval.Entries.{
  Workers, fresh_entry, run_entry, compute_entry_metrics, count_entry, run_all_entries,
}
use archiviste_nocilia.Eval.Asked.{IsEntry, run_entry-IsAsked, compute_entry_metrics-IsEntry}
use archiviste_nocilia.Eval.Replied.{
  IsReplied, run_entry-IsReplied, compute_entry_metrics-IsReplied,
}
use archiviste_nocilia.Eval.Runner.{Setup, RunFile, resolve_ragas_metrics, build_run, run_golden}

-- The entries that went well.
abbrev pub good_entries : {W : Type 0} → List (EntryResult W) → List (EntryResult W)
good_entries entries = filter (λ e. is_ok e.status) entries

module _ {W : Type 0} (floats : Floats W) (lower : Text → Text) (workers : Workers)
    (header : Option Text) (mode : RunnerMode) where
  -- One entry for each question, in order.
  abbrev pub AreEntries : List GoldenEntry → List (EntryResult W) → Type 0
  AreEntries [] [] = Unit
  AreEntries (g ∷ golden) (e ∷ entries) =
      IsEntry floats lower workers header mode g e
      × (IsReplied floats lower workers header mode e × AreEntries golden entries)
  AreEntries _ _ = ⊥

  abbrev IsCounted : List GoldenEntry → List (EntryResult W) × ℕ → Type 0
  IsCounted golden (entries, errors) =
      AreEntries golden entries
      × ((length entries ≡ length golden)
          × (length (good_entries entries) + errors ≡ length entries))

  one_more :
      (e : EntryResult W) (entries : List (EntryResult W)) (errors : ℕ)
      → length (good_entries entries) + errors ≡ length entries
      → length (good_entries (e ∷ entries)) + (if is_ok e.status then errors else errors + 1)
        ≡ length (e ∷ entries)
  one_more e entries errors h = elim (Bool-cases (is_ok e.status)) [
    | inl k ↦ rw k (omega arith)
    | inr k ↦ rw k (omega arith)
  ]

  count_entry-IsCounted :
      (g : GoldenEntry) (golden : List GoldenEntry) (e : EntryResult W)
      (rest : List (EntryResult W) × ℕ)
      → IsEntry floats lower workers header mode g e
      → IsReplied floats lower workers header mode e
      → IsCounted golden rest
      → IsCounted (g ∷ golden) (count_entry floats lower workers header e rest)
  count_entry-IsCounted g golden e (entries, errors) one replied (all, (total, sum)) =
      ((one, (replied, all)), (omega (arith, total), one_more e entries errors sum))

  run_all_entries-IsCounted :
      (new_id : ℕ → Text) (n : ℕ) (golden : List GoldenEntry) (found : List (EntryResult W) × ℕ)
      → run_all_entries floats lower workers header mode new_id n golden ≡ some found
      → IsCounted golden found
  unfolding run_all_entries compute_entry_metrics
  run_all_entries-IsCounted new_id n [] found h =
      subst (IsCounted []) (some_inj.0 h) (tt, (refl, refl))
  run_all_entries-IsCounted new_id n (g ∷ golden) found h =
      elim (Option-cases (
        run_entry floats lower workers header mode
          (fresh_entry floats lower workers header g (new_id n)))) [
            | inl x ↦ absurd (none_not_some (rw x at h))
            | inr (e, x) ↦
                elim (Option-cases
                  (run_all_entries floats lower workers header mode new_id (n + 1) golden)) [
                    | inl y ↦ absurd (none_not_some (rw (x, y) at h))
                    | inr (rest, y) ↦ subst (IsCounted (g ∷ golden)) (some_inj.0 (rw (x, y) at h)) (
                        count_entry-IsCounted g golden
                          (compute_entry_metrics floats lower workers header mode g e) rest
                          (compute_entry_metrics-IsEntry floats lower workers header mode g
                            (new_id n) e (run_entry-IsAsked floats lower workers header mode _ e x))
                          (compute_entry_metrics-IsReplied floats lower workers header mode g e
                            (run_entry-IsReplied floats lower workers header mode _ e x))
                          (run_all_entries-IsCounted new_id (n + 1) golden rest y))
                  ]
          ]

module _ {W : Type 0} (floats : Floats W) (s : Setup W) (header : Option Text) where
  -- The totals of a run are those of its entries, one for each question.
  abbrev pub IsTotalled : List GoldenEntry → RunFile W → Type 0
  IsTotalled golden run =
      AreEntries floats s.lower s.workers header s.mode golden run.entries
      × ((run.total ≡ length golden)
          × ((run.ok_count + run.errors ≡ run.total)
              × ((run.ok_count ≡ length (good_entries run.entries))
                  × (resolve_ragas_metrics floats s s.mode run.entries ≡ some run.metrics))))

  build_run-IsTotalled :
      (golden : List GoldenEntry) (entries : List (EntryResult W)) (errors : ℕ) (scores : Scores W)
      → IsCounted floats s.lower s.workers header s.mode golden (entries, errors)
      → resolve_ragas_metrics floats s s.mode entries ≡ some scores
      → IsTotalled golden (build_run floats s entries errors scores)
  build_run-IsTotalled golden entries errors scores (all, (total, sum)) h =
      (all, (total, (omega (arith, sum), (omega (arith, sum), h))))

  pub run_golden-IsTotalled :
      (golden : List GoldenEntry) (run : RunFile W)
      → run_golden floats s header golden ≡ some run
      → IsTotalled golden run
  unfolding run_golden
  run_golden-IsTotalled golden run h =
      elim (Option-cases
        (run_all_entries floats s.lower s.workers header s.mode s.new_id 0 golden)) [
          | inl x ↦ absurd (none_not_some (rw x at h))
          | inr ((entries, errors), x) ↦
              elim (Option-cases (resolve_ragas_metrics floats s s.mode entries)) [
                | inl y ↦ absurd (none_not_some (rw (x, y) at h))
                | inr (scores, y) ↦ subst (IsTotalled golden) (some_inj.0 (rw (x, y) at h)) (
                    build_run-IsTotalled golden entries errors scores
                      (run_all_entries-IsCounted floats s.lower s.workers header s.mode s.new_id 0
                        golden (entries, errors) x)
                      y)
              ]
        ]
