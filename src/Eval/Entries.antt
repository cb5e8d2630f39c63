-- ===== src/Eval/Entries.antt =====
-- eval/ragas_runner.py and stub_llm.py: the golden questions, one by one. `none` is an error that leaves the run.
use archiviste_nocilia.Prelude.{
  ℕ, ◌+◌, Text, Option, none, some, List, [], ◌∷◌, ◌++◌, map, take, is_space, codes, if◌then◌else◌,
  ◌>>=◌,
}
use archiviste_nocilia.Drive.Docs.{join_with}
use archiviste_nocilia.Eval.{Floats, Mode, RunnerMode, ok, is_ok, GoldenEntry, EntryResult}
use archiviste_nocilia.Eval.Clients.{Reply, Answer, answered, entry_error, raises, call_workers}
use archiviste_nocilia.Eval.Metrics.{compute_keyword_overlap, compute_context_recall_structural}

-- `RetrievedChunk`, as `StubChunk` too
pub record StubChunk : Type 0 where
  pub source_path : Text
  pub body : Text

-- The answer is `none` where the JSON has null there.
pub record GenerateResponse : Type 0 where
  pub answer : Option Text
  pub citations : List Text

-- The workers: what comes back for the token in the Authorization header, where one is sent, a question, a request id and an attempt.
pub record Workers : Type 0 where
  pub retrieve : Option Text → Text → Text → ℕ → Reply (List StubChunk)
  pub generate : Option Text → Text → Text → ℕ → Reply GenerateResponse

abbrev pub onto_word : Text → List Text → List Text
onto_word [] words = words
onto_word (c ∷ word) words = (c ∷ word) ∷ words

-- `s.split()`: the words, the first of them apart.
abbrev pub split_from : Text → Text × List Text
unfolding is_space
split_from [] = ([], [])
split_from (c ∷ s) =
    let (word, words) = split_from s in
    if is_space c then ([], onto_word word words) else (c ∷ word, words)

unfoldable pub split_words : Text → List Text
unfolding is_space
split_words s = onto_word (split_from s).0 (split_from s).1

unfoldable pub build_stub_answer : List Text → List StubChunk → Text
build_stub_answer keywords chunks =
    join_with (codes " ") keywords
    ++ (codes "\n\n" ++ join_with (codes "\n\n") (map (λ c. take 200 c.body) chunks))

module _ {W : Type 0} (floats : Floats W) (lower : Text → Text) (workers : Workers)
    (header : Option Text) where
  abbrev pub with_found : List StubChunk → EntryResult W → EntryResult W
  with_found chunks e = record e {
    retrieved_contexts = map (λ c. c.source_path) chunks;
    retrieved_chunk_texts = map (λ c. c.body) chunks;
  }

  abbrev pub stubbed : EntryResult W → Answer (List StubChunk) → Option (EntryResult W)
  stubbed e (answered chunks) = some (record (with_found chunks e) {
    answer = some (build_stub_answer (split_words e.ground_truth) chunks);
    status = ok;
  })
  stubbed e (entry_error status) = some (record e { status = status })
  stubbed e raises = none

  unfoldable pub run_entry_offline : EntryResult W → Option (EntryResult W)
  unfolding call_workers build_stub_answer split_words
  run_entry_offline e = stubbed e (call_workers (workers.retrieve header e.question e.request_id))

  abbrev pub generated : EntryResult W → Answer GenerateResponse → Option (EntryResult W)
  generated e (answered r) =
      some (record e { answer = r.answer; citations = r.citations; status = ok })
  generated e (entry_error status) = some (record e { status = status })
  generated e raises = none

  abbrev pub retrieved : EntryResult W → Answer (List StubChunk) → Option (EntryResult W)
  unfolding call_workers
  retrieved e (answered chunks) =
      generated (with_found chunks e)
        (call_workers (workers.generate header e.question e.request_id))
  retrieved e (entry_error status) = some (record e { status = status })
  retrieved e raises = none

  unfoldable pub run_entry_live : EntryResult W → Option (EntryResult W)
  unfolding call_workers
  run_entry_live e = retrieved e (call_workers (workers.retrieve header e.question e.request_id))

  abbrev pub no_metrics : EntryResult W → EntryResult W
  no_metrics e = record e { keyword_overlap_rate = none; context_recall_structural = none }

  -- What the overlap is looked for in.
  abbrev pub judged_text : RunnerMode → EntryResult W → Text → Text
  judged_text RunnerMode.live e answer = answer
  judged_text RunnerMode.offline e answer = join_with (codes " ") e.retrieved_chunk_texts

  abbrev pub recall_for : Mode → GoldenEntry → EntryResult W → Option W
  unfolding compute_context_recall_structural
  recall_for Mode.canon g e =
      some (compute_context_recall_structural floats g.expected_contexts e.retrieved_contexts)
  recall_for _ g e = e.context_recall_structural

  abbrev pub metrics_of : RunnerMode → GoldenEntry → EntryResult W → Option Text → EntryResult W
  unfolding compute_keyword_overlap compute_context_recall_structural
  metrics_of mode g e none = no_metrics e
  metrics_of mode g e (some answer) = record e {
    keyword_overlap_rate =
        some (compute_keyword_overlap lower (judged_text mode e answer) g.expected_answer_keywords);
    context_recall_structural = recall_for e.mode g e;
  }

  -- `_compute_entry_metrics`
  unfoldable pub compute_entry_metrics : RunnerMode → GoldenEntry → EntryResult W → EntryResult W
  unfolding compute_keyword_overlap compute_context_recall_structural
  compute_entry_metrics mode g e =
      if is_ok e.status then metrics_of mode g e e.answer else no_metrics e

  abbrev pub fresh_entry : GoldenEntry → Text → EntryResult W
  fresh_entry g request_id = record {
    id = g.id;
    mode = g.mode;
    question = g.question;
    status = ok;
    keyword_overlap_rate = none;
    context_recall_structural = none;
    retrieved_contexts = [];
    retrieved_chunk_texts = [];
    answer = none;
    citations = [];
    request_id = request_id;
    ground_truth = join_with (codes " ") g.expected_answer_keywords;
  }

  abbrev pub run_entry : RunnerMode → EntryResult W → Option (EntryResult W)
  unfolding run_entry_live run_entry_offline
  run_entry RunnerMode.live e = run_entry_live e
  run_entry RunnerMode.offline e = run_entry_offline e

  abbrev pub count_entry : EntryResult W → List (EntryResult W) × ℕ → List (EntryResult W) × ℕ
  count_entry e (entries, errors) = (e ∷ entries, if is_ok e.status then errors else errors + 1)

  -- `_run_all_entries`: the entries and the number of those that failed. The request ids are new ones.
  unfoldable pub run_all_entries :
      RunnerMode → (ℕ → Text) → ℕ → List GoldenEntry → Option (List (EntryResult W) × ℕ)
  unfolding run_entry_live run_entry_offline compute_entry_metrics
  run_all_entries mode new_id n [] = some ([], 0)
  run_all_entries mode new_id n (g ∷ golden) = do
    e ← run_entry mode (fresh_entry g (new_id n))
    rest ← run_all_entries mode new_id (n + 1) golden
    some (count_entry (compute_entry_metrics mode g e) rest)
