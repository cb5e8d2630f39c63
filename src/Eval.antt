-- ===== src/Eval.antt =====
-- eval/: the programs that put a set of golden questions to the workers and judge the answers. A float is a value of `Floats`,
-- of which the code uses these operations; a count divided by a count is one too.
pub mod Clients
pub mod Retried
pub mod Metrics
pub mod Gates
pub mod Entries
pub mod Asked
pub mod Replied
pub mod Target
pub mod Runner
pub mod Totals
pub mod Reached
pub mod Passed
pub mod Verdict
pub mod Rows
pub mod Stored
pub mod Bump
pub mod Bumped
mod Tests
use archiviste_nocilia.Prelude.{ℕ, Text, Bool, Option, List, [], ◌∷◌}

pub record Floats (W : Type 0) : Type 0 where
  -- a literal, in hundredths
  pub hundredths : ℕ → W
  -- `a / b` on counts, with b above 0
  pub ratio : ℕ → ℕ → W
  pub minus : W → W → W
  pub negated : W → W
  -- `sum(values) / len(values)` where there are some
  pub mean : List W → W
  pub less : W → W → Bool

pub data Mode : Type 0 where
  canon off_topic lore_gap mystery : Mode

abbrev pub same_mode : Mode → Mode → Bool
same_mode Mode.canon Mode.canon = Bool.true
same_mode Mode.off_topic Mode.off_topic = Bool.true
same_mode Mode.lore_gap Mode.lore_gap = Bool.true
same_mode Mode.mystery Mode.mystery = Bool.true
same_mode _ _ = Bool.false

pub data RunnerMode : Type 0 where
  live offline : RunnerMode

-- The four metrics of Ragas; `none` is None.
pub data Metric : Type 0 where
  faithfulness answer_relevancy context_precision context_recall : Metric

abbrev pub Scores : Type 0 → Type 0
Scores W = Metric → Option W

abbrev pub all_metrics : List Metric
all_metrics =
    Metric.faithfulness ∷ Metric.answer_relevancy ∷ Metric.context_precision ∷ Metric.context_recall
    ∷ []

-- What one mode has in the breakdown.
pub record ModeData (W : Type 0) : Type 0 where
  pub entries : ℕ
  pub keyword_overlap_rate : Option W
  pub context_recall_structural : Option W

pub data EntryStatus : Type 0 where
  ok timeout upstream_error malformed : EntryStatus

abbrev pub is_ok : EntryStatus → Bool
is_ok EntryStatus.ok = Bool.true
is_ok _ = Bool.false

pub record GoldenEntry : Type 0 where
  pub id : Text
  pub mode : Mode
  pub question : Text
  pub expected_contexts : List Text
  pub expected_answer_keywords : List Text

-- An entry of a run. The overlap is 1.0 or 0.0.
pub record EntryResult (W : Type 0) : Type 0 where
  pub id : Text
  pub mode : Mode
  pub question : Text
  pub status : EntryStatus
  pub keyword_overlap_rate : Option Bool
  pub context_recall_structural : Option W
  pub retrieved_contexts : List Text
  pub retrieved_chunk_texts : List Text
  pub answer : Option Text
  pub citations : List Text
  pub request_id : Text
  pub ground_truth : Text
