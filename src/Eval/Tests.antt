-- ===== src/Eval/Tests.antt =====
-- A live run with one question, whose first request is answered with 503, and whose baseline is not there yet.
use archiviste_nocilia.Prelude.{
  ℕ, ◌+◌, ◌*◌, ◌/◌, Text, Bool, true, false, not, ◌≡◌, refl, Option, none, some, List, [], ◌∷◌,
  codes, eqb, ltb, length, strip, text_eq, is_space, if◌then◌else◌,
}
use archiviste_nocilia.Prelude.Integers.{read_int}
use archiviste_nocilia.Parser.Followups.{splitlines_from}
use archiviste_nocilia.Contradiction.Redaction.{contains}
use archiviste_nocilia.Eval.{
  Floats, Mode, RunnerMode, Metric, EntryStatus, GoldenEntry, EntryResult,
}
use archiviste_nocilia.Eval.Clients.{Reply, replied, decoded, post_with_retry}
use archiviste_nocilia.Eval.Retried.{IsRetried, post_with_retry-IsRetried}
use archiviste_nocilia.Eval.Bump.{printed, exited, should_skip_gate_b}
use archiviste_nocilia.Eval.Entries.{StubChunk, Workers}
use archiviste_nocilia.Eval.Target.{is_authenticated_target, derive_audience}
use archiviste_nocilia.Eval.Runner.{RunFile, EvalRunRow, missing, Setup, Effects, build_run, main}
use archiviste_nocilia.Eval.Verdict.{IsPass, main-IsPass}
use archiviste_nocilia.Eval.Stored.{IsStored, main-IsStored}

-- Hundredths, as a difference
abbrev sums : List (ℕ × ℕ) → ℕ × ℕ
sums [] = (0, 0)
sums ((a, b) ∷ values) = (a + (sums values).0, b + (sums values).1)

abbrev over : ℕ → ℕ × ℕ → ℕ × ℕ
over n (a, b) = (a / n, b / n)

abbrev exact : Floats (ℕ × ℕ)
exact = record {
  hundredths = λ n. (n, 0);
  ratio = λ a b. (100 * a / b, 0);
  minus = λ x y. (x.0 + y.1, x.1 + y.0);
  negated = λ x. (x.1, x.0);
  mean = λ values. over (length values) (sums values);
  less = λ x y. ltb (x.0 + y.1) (y.0 + x.1);
}

abbrev response : {A : Type 0} → ℕ → Option Text → A → Reply A
response status retry_after body =
    replied (record { status_code = status; retry_after = retry_after; body = decoded body })

abbrev chunk : StubChunk
chunk = record { source_path = codes "lune.md"; body = codes "La lune." }

abbrev has_token : Option Text → Bool
unfolding text_eq
has_token none = false
has_token (some token) = text_eq token (codes "t1")

abbrev workers : Workers
unfolding text_eq
workers = record {
  retrieve = λ header question id attempt.
      if not (has_token header)
      then response 401 none []
      else if eqb attempt 0
      then response 503 (some (codes "3")) []
      else response 200 none (chunk ∷ []);
  generate = λ header question id attempt.
      response (if has_token header then 200 else 401) none
        (record { answer = some (codes "la lune"); citations = [] });
}

abbrev question : GoldenEntry
question = record {
  id = codes "q1";
  mode = Mode.canon;
  question = codes "Qui ?";
  expected_contexts = codes "lune.md" ∷ codes "mer.md" ∷ [];
  expected_answer_keywords = codes "lune" ∷ [];
}

abbrev setup : Setup (ℕ × ℕ)
unfolding text_eq
setup = record {
  mode = RunnerMode.live;
  golden = some (question ∷ []);
  workers_url = some (record {
    scheme = codes "https";
    netloc = codes "workers.run.app:443";
    hostname = some (codes "workers.run.app");
  });
  fetches = λ audience.
      if text_eq audience (codes "https://workers.run.app:443") then some (codes "t1") else none;
  is_reachable = has_token;
  baseline = missing;
  writes_run = true;
  writes_baseline = true;
  workers = workers;
  lower = λ s. s;
  new_id = λ n. codes "r1";
  judge = λ entries. some (λ m. (40, 0));
  persists = true;
  inserts = λ row. true;
  git = record { subject = exited; merge_base = exited; parent = exited; diff = λ base. exited };
}

abbrev entry : EntryResult (ℕ × ℕ)
entry = record {
  id = codes "q1";
  mode = Mode.canon;
  question = codes "Qui ?";
  status = EntryStatus.ok;
  keyword_overlap_rate = some true;
  context_recall_structural = some (50, 0);
  retrieved_contexts = codes "lune.md" ∷ [];
  retrieved_chunk_texts = codes "La lune." ∷ [];
  answer = some (codes "la lune");
  citations = [];
  request_id = codes "r1";
  ground_truth = codes "lune";
}

abbrev run : RunFile (ℕ × ℕ)
run = build_run exact setup (entry ∷ []) 0 (λ m. some (40, 0))

abbrev row : EvalRunRow (ℕ × ℕ)
row = record {
  scores = λ m. elim m [
    | Metric.faithfulness ↦ (40, 0)
    | Metric.answer_relevancy ↦ (40, 0)
    | Metric.context_precision ↦ (40, 0)
    | Metric.context_recall ↦ (40, 0)
  ];
  entries_total = 1;
  entries_ok = 1;
  entries_errors = 0;
}

abbrev left : Effects (ℕ × ℕ)
left = record { output = some run; new_baseline = some run; row = some row }

-- The scores of the run are far below the thresholds of gate A, and it ends with the code 0.
ends_well : main exact setup ≡ some (record { code = 0; effects = left })
unfolding main contains text_eq read_int is_space strip is_authenticated_target derive_audience
ends_well = refl

main-IsPass_example : IsPass exact setup left
main-IsPass_example = main-IsPass exact setup left ends_well

main-IsStored_example : IsStored exact setup row
main-IsStored_example =
    main-IsStored exact setup (record { code = 0; effects = left }) row ends_well refl

post_with_retry-IsRetried_example :
    IsRetried
      (workers.retrieve (some (codes "t1")) [] [])
      3
      0
      (post_with_retry (workers.retrieve (some (codes "t1")) [] []))
post_with_retry-IsRetried_example =
    post_with_retry-IsRetried (workers.retrieve (some (codes "t1")) [] [])

skips :
    should_skip_gate_b (record {
      subject = printed (codes "Chore(eval): bump Baseline\n");
      merge_base = exited;
      parent = printed (codes "1a\n");
      diff = λ base. printed (codes "eval/baseline.json\n");
    })
    ≡ some true
unfolding should_skip_gate_b splitlines_from strip text_eq
skips = refl
