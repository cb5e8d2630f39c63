-- ===== src/Contradiction.antt =====
-- workers/src/archiviste_workers/contradiction/service.py, and the resolution of cited chunks of
-- contradiction/repository.py: a claim, its sources, a panel of three judges, and the ticket. The
-- corpus is held in the order of the query; `none` is a database or an embedder that fails.
pub mod Texts
pub mod Judges
pub mod Redaction
pub mod Leaks
pub mod Verify
pub mod Raised
pub mod Endpoint
pub mod Checked
mod Tests
use mathlib.Core.List.{flatten}
use archiviste_nocilia.Prelude.{
  ℕ, String, Text, Bool, true, false, not, ◌&&◌, ◌||◌, Option, none, some, List, [], ◌∷◌, ◌++◌, map,
  filter, leb, eqb, text_eq, length, is_empty, if◌then◌else◌,
}
use archiviste_nocilia.Chunk.{Chunk, Citation}
use archiviste_nocilia.Acl.{tier_in, allowed_access_tiers, is_known_tier}
use archiviste_nocilia.Memory.{Message}
use archiviste_nocilia.Llm.{Reply, content_or_empty}
use archiviste_nocilia.Services.{TicketAction}
use archiviste_nocilia.Tickets.{Ticket, TicketResult, TicketClients, create_or_increment}
use archiviste_nocilia.Contradiction.Texts.{
  facts_lens, chronology_lens, entities_lens, reason_unclear, reason_no_sources,
}
use archiviste_nocilia.Contradiction.Judges.{Verdict, Source, build_judge_messages, parse_verdict}
use archiviste_nocilia.Contradiction.Redaction.{redact_reason}

pub data Outcome : Type 0 where
  confirmed refused indecisive : Outcome

-- The ticket action of the result; `none` is "not_raised".
pub record VerificationResult : Type 0 where
  pub verdict : Verdict
  pub reason : Text
  pub ticket_action : Option TicketAction
  pub ticket_id : Option Text
  pub outcome : Outcome

abbrev pub is_present : Verdict → Bool
is_present Verdict.present = true
is_present _ = false

unfoldable pub derive_outcome : Verdict → Bool → Outcome
derive_outcome verdict should_raise =
    if should_raise
    then Outcome.confirmed
    else if is_present verdict
    then Outcome.refused
    else Outcome.indecisive

-- `TICKET_TRIGGERING_VERDICTS`
abbrev pub triggers : Verdict → Bool
triggers Verdict.absent = true
triggers Verdict.contradiction = true
triggers _ = false

abbrev pub majority_threshold : ℕ
majority_threshold = 2

abbrev pub same_verdict : Verdict → Verdict → Bool
same_verdict Verdict.present Verdict.present = true
same_verdict Verdict.absent Verdict.absent = true
same_verdict Verdict.contradiction Verdict.contradiction = true
same_verdict Verdict.unclear Verdict.unclear = true
same_verdict _ _ = false

-- `tally[verdict]`: the reasons given with a verdict, in order
unfoldable pub tally : Verdict → List (Verdict × Text) → List Text
tally v [] = []
tally v ((w, reason) ∷ outcomes) =
    if same_verdict w v then reason ∷ tally v outcomes else tally v outcomes

-- `next((r for r in reasons if r), _REASON_UNCLEAR)`
unfoldable pub first_reason : List Text → Text
first_reason [] = reason_unclear
first_reason (r ∷ reasons) = if is_empty r then first_reason reasons else r

pub record Aggregate : Type 0 where
  pub verdict : Verdict
  pub reason : Text
  pub has_majority : Bool

-- The loop over the candidates.
unfoldable pub choose : List Verdict → List (Verdict × Text) → Aggregate
unfolding tally first_reason
choose [] outcomes = record {
  verdict = Verdict.unclear;
  reason = reason_unclear;
  has_majority = false;
}
choose (candidate ∷ candidates) outcomes =
    if leb majority_threshold (length (tally candidate outcomes))
    then record {
      verdict = candidate;
      reason = first_reason (tally candidate outcomes);
      has_majority = true;
    }
    else choose candidates outcomes

abbrev pub priority : List Verdict
priority = Verdict.contradiction ∷ Verdict.absent ∷ Verdict.present ∷ Verdict.unclear ∷ []

unfoldable pub aggregate_verdicts : List (Verdict × Text) → Aggregate
unfolding choose
aggregate_verdicts outcomes = choose priority outcomes

-- One row of the join of `chunks` and `documents`.
pub record CorpusRow : Type 0 where
  pub source : Source
  pub access_tier : String

-- What the service reaches through its arguments.
pub record Panel (V : Type 0) : Type 0 where
  pub is_word : ℕ → Bool
  pub lower : Text → Text
  pub invoke : List Message → ℕ → Reply
  pub corpus : Option (List CorpusRow)
  -- the embedding of the claim and the search with it, for the allowed tiers and a number of chunks
  pub search : Text → List String → ℕ → Option (List Chunk)
  pub ticket_clients : TicketClients V

unfoldable pub ord_in : ℕ → List ℕ → Bool
ord_in n [] = false
ord_in n (m ∷ ms) = eqb m n || ord_in n ms

-- `(source_path, ord) in wanted`
unfoldable pub is_wanted : List Citation → Source → Bool
unfolding ord_in
is_wanted [] s = false
is_wanted (c ∷ citations) s =
    (text_eq c.source_path s.path && ord_in s.ord c.chunk_ords) || is_wanted citations s

unfoldable pub wants_nothing : List Citation → Bool
wants_nothing [] = true
wants_nothing (c ∷ citations) = is_empty c.chunk_ords && wants_nothing citations

abbrev pub cites_path : List Citation → Text → Bool
cites_path [] path = false
cites_path (c ∷ citations) path = text_eq c.source_path path || cites_path citations path

-- `_RESOLVE_SQL`
abbrev pub resolves : List Citation → List String → CorpusRow → Bool
resolves citations allowed row =
    cites_path citations row.source.path && tier_in row.access_tier allowed

abbrev pub fetch_cited :
    List Citation → List String → Option (List CorpusRow) → Option (List Source)
fetch_cited citations allowed none = none
fetch_cited citations allowed (some rows) =
    some (
      filter (is_wanted citations) (map (λ r. r.source) (filter (resolves citations allowed) rows)))

unfoldable pub resolve_cited_sources :
    Option (List CorpusRow) → List Citation → String → Option (List Source)
unfolding allowed_access_tiers tier_in is_wanted wants_nothing
resolve_cited_sources corpus citations user_tier =
    let allowed = allowed_access_tiers user_tier in
    if is_empty allowed || wants_nothing citations
    then some []
    else fetch_cited citations allowed corpus

-- The filter of the chunks that the search returned.
abbrev pub keep_allowed : List String → List Chunk → List Source
keep_allowed allowed [] = []
keep_allowed allowed (c ∷ chunks) =
    if is_known_tier c.access_tier && tier_in c.access_tier allowed
    then record { path = c.source_path; ord = c.ord; body = c.text } ∷ keep_allowed allowed chunks
    else keep_allowed allowed chunks

abbrev pub retrieval_top_k : ℕ
retrieval_top_k = 5

unfoldable pub resolve_sources :
    {V : Type 0} → Panel V → List Citation → String → Text → Option (List Source)
unfolding resolve_cited_sources is_known_tier tier_in allowed_access_tiers
resolve_sources panel citations user_tier claim =
    let allowed = allowed_access_tiers user_tier in
    if is_empty citations
    then elim (panel.search claim allowed retrieval_top_k) [
      | none ↦ none
      | some chunks ↦ some (keep_allowed allowed chunks)
    ]
    else resolve_cited_sources panel.corpus citations user_tier
