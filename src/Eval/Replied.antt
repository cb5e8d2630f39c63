-- ===== src/Eval/Replied.antt =====
-- What the workers replied to a question, in the entry of it.
use mathlib.Core.Option.{some_inj}
use mathlib.Core.Path.{subst}
use archiviste_nocilia.Prelude.{
  Text, ◌≡◌, refl, inl, inr, Option, none, some, none_not_some, List, map, Bool-cases,
}
use archiviste_nocilia.Eval.{Floats, RunnerMode, EntryStatus, is_ok, GoldenEntry, EntryResult}
use archiviste_nocilia.Eval.Clients.{Answer, answered, entry_error, raises, call_workers}
use archiviste_nocilia.Eval.Entries.{
  StubChunk, GenerateResponse, Workers, with_found, stubbed, run_entry_offline, generated,
  retrieved, run_entry_live, metrics_of, compute_entry_metrics, run_entry,
}

-- The answer and the citations are those of the generation, or the status is the one of the failure.
abbrev pub IsAnswer : Answer GenerateResponse → Option Text → List Text → EntryStatus → Type 0
IsAnswer (answered r) answer citations status = (answer ≡ r.answer) × (citations ≡ r.citations)
IsAnswer (entry_error failed) answer citations status = status ≡ failed
IsAnswer raises answer citations status = ⊥

-- The same of the contexts, with what holds where the retrieval is answered.
abbrev pub IsFound : Answer (List StubChunk) → List Text → List Text → EntryStatus → Type 0 → Type 0
IsFound (answered chunks) contexts texts status Then =
    (contexts ≡ map (λ c. c.source_path) chunks) × ((texts ≡ map (λ c. c.body) chunks) × Then)
IsFound (entry_error failed) contexts texts status Then = status ≡ failed
IsFound raises contexts texts status Then = ⊥

module _ {W : Type 0} (floats : Floats W) (lower : Text → Text) (workers : Workers)
    (header : Option Text) where
  abbrev pub IsGenerated : RunnerMode → Text → Text → Option Text → List Text → EntryStatus → Type 0
  IsGenerated RunnerMode.live question request_id answer citations status =
      IsAnswer (call_workers (workers.generate header question request_id)) answer citations status
  IsGenerated RunnerMode.offline question request_id answer citations status = Unit

  -- The entry has the contexts that the workers found for its question and, in a live run, the answer that they
  -- generated, or the status of the call that failed.
  abbrev pub IsReplied : RunnerMode → EntryResult W → Type 0
  IsReplied mode e =
      IsFound (call_workers (workers.retrieve header e.question e.request_id)) e.retrieved_contexts
        e.retrieved_chunk_texts e.status
        (IsGenerated mode e.question e.request_id e.answer e.citations e.status)

  stubbed-IsReplied :
      (before e : EntryResult W) (a : Answer (List StubChunk))
      → call_workers (workers.retrieve header before.question before.request_id) ≡ a
      → stubbed floats lower workers header before a ≡ some e
      → IsReplied RunnerMode.offline e
  stubbed-IsReplied before e (answered chunks) x h =
      subst (IsReplied RunnerMode.offline) (some_inj.0 h) (rw x (refl, (refl, tt)))
  stubbed-IsReplied before e (entry_error status) x h =
      subst (IsReplied RunnerMode.offline) (some_inj.0 h) (rw x refl)
  stubbed-IsReplied before e raises x h = absurd (none_not_some h)

  generated-IsGenerated :
      (before e : EntryResult W) (chunks : List StubChunk) (a : Answer GenerateResponse)
      → call_workers (workers.retrieve header before.question before.request_id) ≡ answered chunks
      → call_workers (workers.generate header before.question before.request_id) ≡ a
      → generated floats lower workers header
          (with_found floats lower workers header chunks before)
          a
        ≡ some e
      → IsReplied RunnerMode.live e
  generated-IsGenerated before e chunks (answered r) x y h =
      subst (IsReplied RunnerMode.live) (some_inj.0 h) (rw (x, y) (refl, (refl, (refl, refl))))
  generated-IsGenerated before e chunks (entry_error status) x y h =
      subst (IsReplied RunnerMode.live) (some_inj.0 h) (rw (x, y) (refl, (refl, refl)))
  generated-IsGenerated before e chunks raises x y h = absurd (none_not_some h)

  retrieved-IsReplied :
      (before e : EntryResult W) (a : Answer (List StubChunk))
      → call_workers (workers.retrieve header before.question before.request_id) ≡ a
      → retrieved floats lower workers header before a ≡ some e
      → IsReplied RunnerMode.live e
  unfolding call_workers
  retrieved-IsReplied before e (answered chunks) x h =
      generated-IsGenerated before e chunks _ x refl h
  retrieved-IsReplied before e (entry_error status) x h =
      subst (IsReplied RunnerMode.live) (some_inj.0 h) (rw x refl)
  retrieved-IsReplied before e raises x h = absurd (none_not_some h)

  pub run_entry-IsReplied :
      (mode : RunnerMode) (before e : EntryResult W)
      → run_entry floats lower workers header mode before ≡ some e
      → IsReplied mode e
  unfolding run_entry_live run_entry_offline
  run_entry-IsReplied RunnerMode.live before e h = retrieved-IsReplied before e _ refl h
  run_entry-IsReplied RunnerMode.offline before e h = stubbed-IsReplied before e _ refl h

  -- The metrics leave what was replied.
  pub compute_entry_metrics-IsReplied :
      (mode : RunnerMode) (g : GoldenEntry) (e : EntryResult W)
      → IsReplied mode e
      → IsReplied mode (compute_entry_metrics floats lower workers header mode g e)
  unfolding compute_entry_metrics
  compute_entry_metrics-IsReplied mode g e h = elim (Bool-cases (is_ok e.status)) [
    | inr k ↦ rw k h
    | inl k ↦ rw k (kept e.answer)
  ]
    where
      kept : (a : Option Text) → IsReplied mode (metrics_of floats lower workers header mode g e a)
      kept none = h
      kept (some answer) = h
