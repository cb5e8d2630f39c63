-- ===== src/Eval/Asked.antt =====
-- An entry of a run: how a golden question ends.
use mathlib.Core.Option.{some_inj}
use mathlib.Core.Path.{subst}
use archiviste_nocilia.Prelude.{
  Text, true, false, ◌≡◌, refl, sym, ◌∙◌, ap, ◌⊎◌, inl, inr, Option, none, some, none_not_some,
  List, codes, Bool-cases, Option-cases,
}
use archiviste_nocilia.Drive.Docs.{join_with}
use archiviste_nocilia.Eval.{Floats, Mode, RunnerMode, is_ok, GoldenEntry, EntryResult}
use archiviste_nocilia.Eval.Clients.{Answer, answered, entry_error, raises, call_workers}
use archiviste_nocilia.Eval.Metrics.{compute_keyword_overlap, compute_context_recall_structural}
use archiviste_nocilia.Eval.Entries.{
  StubChunk, GenerateResponse, Workers, with_found, stubbed, run_entry_offline, generated,
  retrieved, run_entry_live, judged_text, recall_for, metrics_of, compute_entry_metrics,
  fresh_entry, run_entry,
}

module _ {W : Type 0} where
  -- What a question keeps while it is asked.
  abbrev pub IsAsked : EntryResult W → EntryResult W → Type 0
  IsAsked before e =
      (e.id ≡ before.id)
      × ((e.mode ≡ before.mode)
          × ((e.question ≡ before.question)
              × (e.context_recall_structural ≡ before.context_recall_structural)))

module _ {W : Type 0} (floats : Floats W) (lower : Text → Text) (workers : Workers)
    (header : Option Text) where
  stubbed-IsAsked :
      (before e : EntryResult W) (a : Answer (List StubChunk))
      → stubbed floats lower workers header before a ≡ some e
      → IsAsked before e
  stubbed-IsAsked before e (answered chunks) h =
      subst (IsAsked before) (some_inj.0 h) (refl, (refl, (refl, refl)))
  stubbed-IsAsked before e (entry_error status) h =
      subst (IsAsked before) (some_inj.0 h) (refl, (refl, (refl, refl)))
  stubbed-IsAsked before e raises h = absurd (none_not_some h)

  generated-IsAsked :
      (before e : EntryResult W) (a : Answer GenerateResponse)
      → generated floats lower workers header before a ≡ some e
      → IsAsked before e
  generated-IsAsked before e (answered r) h =
      subst (IsAsked before) (some_inj.0 h) (refl, (refl, (refl, refl)))
  generated-IsAsked before e (entry_error status) h =
      subst (IsAsked before) (some_inj.0 h) (refl, (refl, (refl, refl)))
  generated-IsAsked before e raises h = absurd (none_not_some h)

  retrieved-IsAsked :
      (before e : EntryResult W) (a : Answer (List StubChunk))
      → retrieved floats lower workers header before a ≡ some e
      → IsAsked before e
  unfolding call_workers
  retrieved-IsAsked before e (answered chunks) h =
      generated-IsAsked (with_found floats lower workers header chunks before) e
        (call_workers (workers.generate header before.question before.request_id)) h
  retrieved-IsAsked before e (entry_error status) h =
      subst (IsAsked before) (some_inj.0 h) (refl, (refl, (refl, refl)))
  retrieved-IsAsked before e raises h = absurd (none_not_some h)

  pub run_entry-IsAsked :
      (mode : RunnerMode) (before e : EntryResult W)
      → run_entry floats lower workers header mode before ≡ some e
      → IsAsked before e
  unfolding run_entry_live run_entry_offline
  run_entry-IsAsked RunnerMode.live before e h =
      retrieved-IsAsked before e
        (call_workers (workers.retrieve header before.question before.request_id)) h
  run_entry-IsAsked RunnerMode.offline before e h =
      stubbed-IsAsked before e
        (call_workers (workers.retrieve header before.question before.request_id)) h

  -- The recall: of a question in the canon mode, and of no other one.
  abbrev pub IsRecall : Mode → GoldenEntry → EntryResult W → Type 0
  IsRecall Mode.canon g e =
      e.context_recall_structural
      ≡ some (compute_context_recall_structural floats g.expected_contexts e.retrieved_contexts)
  IsRecall _ g e = e.context_recall_structural ≡ none

  -- The entry of a question: its metrics where it went well and has an answer, and none otherwise.
  abbrev pub IsEntry : RunnerMode → GoldenEntry → EntryResult W → Type 0
  IsEntry mode g e =
      (e.id ≡ g.id)
      × ((e.mode ≡ g.mode)
          × ((e.question ≡ g.question)
              × (((is_ok e.status ≡ true)
                    × (((answer : Text) × ((e.answer ≡ some answer)
                            × (e.keyword_overlap_rate
                                ≡ some (
                                    compute_keyword_overlap lower
                                      (judged_text floats lower workers header mode e answer)
                                      g.expected_answer_keywords))))
                        × IsRecall g.mode g e))
                  ⊎ (((is_ok e.status ≡ false) ⊎ (e.answer ≡ none))
                      × ((e.keyword_overlap_rate ≡ none) × (e.context_recall_structural ≡ none))))))

  recall_for-IsRecall :
      (mode : Mode) (g : GoldenEntry) (e f : EntryResult W)
      → e.context_recall_structural ≡ none
      → f.retrieved_contexts ≡ e.retrieved_contexts
      → f.context_recall_structural ≡ recall_for floats lower workers header mode g e
      → IsRecall mode g f
  unfolding compute_context_recall_structural
  recall_for-IsRecall Mode.canon g e f fresh same h =
      h ∙ ap (λ c. some (compute_context_recall_structural floats g.expected_contexts c)) (sym same)
  recall_for-IsRecall Mode.off_topic g e f fresh same h = h ∙ fresh
  recall_for-IsRecall Mode.lore_gap g e f fresh same h = h ∙ fresh
  recall_for-IsRecall Mode.mystery g e f fresh same h = h ∙ fresh

  same_text :
      (mode : RunnerMode) (e f : EntryResult W) (answer : Text)
      → e.retrieved_chunk_texts ≡ f.retrieved_chunk_texts
      → judged_text floats lower workers header mode e answer
        ≡ judged_text floats lower workers header mode f answer
  same_text RunnerMode.live e f answer h = refl
  same_text RunnerMode.offline e f answer h = ap (λ texts. join_with (codes " ") texts) h

  scored-IsEntry :
      (mode : RunnerMode) (g : GoldenEntry) (id answer : Text) (e : EntryResult W)
      → IsAsked (fresh_entry floats lower workers header g id) e
      → is_ok e.status ≡ true
      → e.answer ≡ some answer
      → IsEntry mode g (metrics_of floats lower workers header mode g e (some answer))
  unfolding compute_keyword_overlap compute_context_recall_structural
  scored-IsEntry mode g id answer e (i, (m, (q, r))) h a = (
    i,
    (
      m,
      (
        q,
        inl (
          h,
          (
            (
              answer,
              (
                a,
                ap (λ s. some (compute_keyword_overlap lower s g.expected_answer_keywords))
                    (same_text mode e
                      (metrics_of floats lower workers header mode g e (some answer)) answer refl),
              ),
            ),
            recall_for-IsRecall g.mode g e
                (metrics_of floats lower workers header mode g e (some answer)) r refl
                (ap (λ k. recall_for floats lower workers header k g e) m),
          ),
        ),
      ),
    ),
  )

  -- An entry that was asked for a golden question, with its metrics
  pub compute_entry_metrics-IsEntry :
      (mode : RunnerMode) (g : GoldenEntry) (id : Text) (e : EntryResult W)
      → IsAsked (fresh_entry floats lower workers header g id) e
      → IsEntry mode g (compute_entry_metrics floats lower workers header mode g e)
  unfolding compute_entry_metrics
  compute_entry_metrics-IsEntry mode g id e (i, (m, (q, r))) = elim (Bool-cases (is_ok e.status)) [
    | inr h ↦ rw h (i, (m, (q, inr (inl h, (refl, refl)))))
    | inl h ↦ rw h (elim (Option-cases e.answer) [
      | inl a ↦
          subst (λ o. IsEntry mode g (metrics_of floats lower workers header mode g e o)) (sym a)
            (i, (m, (q, inr (inr a, (refl, refl)))))
      | inr (answer, a) ↦
          subst (λ o. IsEntry mode g (metrics_of floats lower workers header mode g e o)) (sym a)
            (scored-IsEntry mode g id answer e (i, (m, (q, r))) h a)
    ])
  ]
