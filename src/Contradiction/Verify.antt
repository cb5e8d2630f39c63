-- ===== src/Contradiction/Verify.antt =====
-- contradiction/service.py: the judges, and `verify_contradiction`.
use archiviste_nocilia.Prelude.{
  ℕ, String, Text, Bool, true, false, ◌&&◌, Option, none, some, List, [], ◌∷◌, if◌then◌else◌, ◌>>=◌,
}
use archiviste_nocilia.Chunk.{Citation}
use archiviste_nocilia.Llm.{Reply, content_or_empty}
use archiviste_nocilia.Tickets.{Ticket, TicketResult, create_or_increment}
use archiviste_nocilia.Contradiction.{
  Outcome, VerificationResult, derive_outcome, triggers, aggregate_verdicts, Panel, resolve_sources,
}
use archiviste_nocilia.Contradiction.Texts.{
  facts_lens, chronology_lens, entities_lens, reason_no_sources,
}
use archiviste_nocilia.Contradiction.Judges.{Verdict, Source, build_judge_messages, parse_verdict}
use archiviste_nocilia.Contradiction.Redaction.{redact_reason}

abbrev pub judge_timeout_s : ℕ
judge_timeout_s = 30

module _ {V : Type 0} (panel : Panel V) where
  abbrev pub verdict_of_reply : Reply → Option (Verdict × Text)
  verdict_of_reply Reply.timeout = some (Verdict.unclear, [])
  verdict_of_reply (Reply.upstream status) = some (Verdict.unclear, [])
  verdict_of_reply (Reply.message m) = parse_verdict panel.is_word (content_or_empty m)

  unfoldable pub run_judge : Text → List Source → Text → Option (Verdict × Text)
  unfolding build_judge_messages parse_verdict
  run_judge claim sources lens =
      verdict_of_reply (panel.invoke (build_judge_messages claim sources lens) judge_timeout_s)

  -- `asyncio.gather` over the lenses: the first exception goes on.
  unfoldable pub run_judges : Text → List Source → List Text → Option (List (Verdict × Text))
  unfolding run_judge
  run_judges claim sources [] = some []
  run_judges claim sources (lens ∷ lenses) = do
    outcome ← run_judge claim sources lens
    outcomes ← run_judges claim sources lenses
    some (outcome ∷ outcomes)

  -- `JUDGE_LENSES`
  abbrev pub judge_lenses : List Text
  judge_lenses = facts_lens ∷ chronology_lens ∷ entities_lens ∷ []

  abbrev pub not_raised : Verdict → Text → Outcome → VerificationResult
  not_raised verdict reason outcome = record {
    verdict = verdict;
    reason = reason;
    ticket_action = none;
    ticket_id = none;
    outcome = outcome;
  }

  abbrev pub with_ticket :
      Verdict
      → Text
      → Outcome
      → List (Ticket V) × TicketResult
      → List (Ticket V) × VerificationResult
  with_ticket verdict reason outcome (tickets, ticket) = (
    tickets,
    record {
      verdict = verdict;
      reason = reason;
      ticket_action = some ticket.action;
      ticket_id = ticket.ticket_id;
      outcome = outcome;
    },
  )

  -- The ticket policy, behind the verdicts of the judges.
  unfoldable pub conclude :
      List (Ticket V)
      → Text
      → Text
      → List Source
      → Bool
      → List (Verdict × Text)
      → List (Ticket V) × VerificationResult
  unfolding aggregate_verdicts redact_reason derive_outcome create_or_increment
  conclude tickets claim conversation_id sources force outcomes =
      let a = aggregate_verdicts outcomes in
      let safe_reason = redact_reason panel.lower a.reason a.verdict sources in
      let should_raise = a.has_majority && triggers a.verdict in
      if should_raise
      then with_ticket a.verdict safe_reason (derive_outcome a.verdict true)
          (create_or_increment panel.ticket_clients tickets conversation_id claim false false)
      else if force
      then with_ticket a.verdict safe_reason (derive_outcome a.verdict false)
          (create_or_increment panel.ticket_clients tickets conversation_id claim true true)
      else (tickets, not_raised a.verdict safe_reason (derive_outcome a.verdict false))

  abbrev pub no_sources : VerificationResult
  no_sources = not_raised Verdict.unclear reason_no_sources Outcome.indecisive

  abbrev pub verify_sources :
      List (Ticket V)
      → Text
      → Text
      → Bool
      → Option (List Source)
      → Option (List (Ticket V) × VerificationResult)
  verify_sources tickets claim conversation_id force none = some (tickets, no_sources)
  verify_sources tickets claim conversation_id force (some []) = some (tickets, no_sources)
  verify_sources tickets claim conversation_id force (some (s ∷ sources)) = do
    outcomes ← run_judges claim (s ∷ sources) judge_lenses
    some (conclude tickets claim conversation_id (s ∷ sources) force outcomes)

  -- `none` is an exception that leaves the function, with the tickets as they were.
  unfoldable pub verify_contradiction :
      List (Ticket V)
      → Text
      → Text
      → List Citation
      → String
      → Bool
      → Option (List (Ticket V) × VerificationResult)
  unfolding resolve_sources run_judges conclude
  verify_contradiction tickets claim conversation_id citations user_tier force =
      verify_sources tickets claim conversation_id force
        (resolve_sources panel citations user_tier claim)
