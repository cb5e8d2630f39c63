-- ===== src/Contradiction/Raised.antt =====
-- What the panel decides: majorities, tickets and outcomes.
use archiviste_nocilia.Prelude.{
  ℕ, ◌+◌, ◌≤◌, ◌<◌, Text, Bool, true, false, ◌≡◌, ◌≢◌, ◌⊎◌, ◌↔◌, refl, none, List, [], ◌∷◌, length,
  arith,
}
use archiviste_nocilia.Tickets.{Ticket, create_or_increment}
use archiviste_nocilia.Contradiction.{
  Outcome, VerificationResult, derive_outcome, tally, choose, Aggregate, aggregate_verdicts, Panel,
}
use archiviste_nocilia.Contradiction.Judges.{Verdict, Source}
use archiviste_nocilia.Contradiction.Verify.{conclude}

abbrev pub votes : Verdict → List (Verdict × Text) → ℕ
votes v outcomes = length (tally v outcomes)

-- A panel in which no verdict has two votes is undecided; otherwise the winner has two votes.
abbrev pub IsDecided : List (Verdict × Text) → Aggregate → Type 0
IsDecided outcomes a =
    ((a.has_majority ≡ true) × (2 ≤ votes a.verdict outcomes))
    ⊎ ((a.has_majority ≡ false)
        × (a.verdict ≡ Verdict.unclear)
        × (votes Verdict.contradiction outcomes < 2)
        × (votes Verdict.absent outcomes < 2)
        × (votes Verdict.present outcomes < 2)
        × (votes Verdict.unclear outcomes < 2))

-- The panel has a majority exactly if some verdict has two votes or more, and then the verdict of
-- the panel is one that has; without a majority it is unclear.
pub aggregate_verdicts-IsDecided :
    (outcomes : List (Verdict × Text)) → IsDecided outcomes (aggregate_verdicts outcomes)
unfolding aggregate_verdicts choose
aggregate_verdicts-IsDecided outcomes = ground arith

total_votes :
    (outcomes : List (Verdict × Text))
    → votes Verdict.contradiction outcomes
        + votes Verdict.absent outcomes
        + votes Verdict.present outcomes
        + votes Verdict.unclear outcomes
      ≡ length outcomes
unfolding tally
total_votes [] = refl
total_votes ((Verdict.present, r) ∷ outcomes) = omega (arith, total_votes outcomes)
total_votes ((Verdict.absent, r) ∷ outcomes) = omega (arith, total_votes outcomes)
total_votes ((Verdict.contradiction, r) ∷ outcomes) = omega (arith, total_votes outcomes)
total_votes ((Verdict.unclear, r) ∷ outcomes) = omega (arith, total_votes outcomes)

-- In a panel of at most three judges a verdict with two votes or more is the verdict of the panel, so the
-- order of the candidates and of the judges does not matter.
pub aggregate_verdicts-majority :
    (outcomes : List (Verdict × Text)) (v : Verdict)
    → length outcomes ≤ 3
    → (2 ≤ votes v outcomes)
      ↔ ((aggregate_verdicts outcomes).has_majority ≡ true)
        × ((aggregate_verdicts outcomes).verdict ≡ v)
unfolding aggregate_verdicts choose
aggregate_verdicts-majority outcomes Verdict.contradiction h = ground (arith, total_votes outcomes)
aggregate_verdicts-majority outcomes Verdict.absent h = ground (arith, total_votes outcomes)
aggregate_verdicts-majority outcomes Verdict.present h = ground (arith, total_votes outcomes)
aggregate_verdicts-majority outcomes Verdict.unclear h = ground (arith, total_votes outcomes)

-- The ticket that the panel asks for: a confirmed one with dedup, a forced one without.
abbrev pub IsPolicy :
    {V : Type 0}
    → Panel V
    → List (Ticket V)
    → Text
    → Text
    → Bool
    → List (Verdict × Text)
    → List (Ticket V) × VerificationResult
    → Type 0
IsPolicy panel tickets claim conversation_id force outcomes (tickets', result) =
    ((result.outcome ≡ Outcome.confirmed)
      ↔ ((2 ≤ votes Verdict.contradiction outcomes) ⊎ (2 ≤ votes Verdict.absent outcomes)))
    × ((result.outcome ≡ Outcome.refused) ↔ (2 ≤ votes Verdict.present outcomes))
    × (((result.outcome ≡ Outcome.confirmed)
          × (tickets'
              ≡ (create_or_increment panel.ticket_clients tickets conversation_id claim false
                  false).0))
        ⊎ ((result.outcome ≢ Outcome.confirmed)
            × (force ≡ true)
            × (tickets'
                ≡ (create_or_increment panel.ticket_clients tickets conversation_id claim true
                    true).0))
        ⊎ ((result.outcome ≢ Outcome.confirmed)
            × (force ≡ false)
            × (tickets' ≡ tickets)
            × (result.ticket_action ≡ none)))

-- With the verdicts of three judges, the outcome is `confirmed` exactly if two of them say absent or
-- two say contradiction, and `refused` exactly if two say present. A ticket is asked for if the
-- outcome is confirmed, or if the caller forces it, and then it is flagged; otherwise the tickets stay as they were.
pub conclude-IsPolicy :
    {V : Type 0} (panel : Panel V) (tickets : List (Ticket V)) (claim conversation_id : Text)
    (sources : List Source) (force : Bool) (o₁ o₂ o₃ : Verdict × Text)
    → let outcomes = o₁ ∷ o₂ ∷ o₃ ∷ [] in
      IsPolicy panel tickets claim conversation_id force outcomes
        (conclude panel tickets claim conversation_id sources force outcomes)
unfolding conclude derive_outcome
conclude-IsPolicy panel tickets claim conversation_id sources force o₁ o₂ o₃ =
    let outcomes = o₁ ∷ o₂ ∷ o₃ ∷ [] in
    ground (
      arith,
      aggregate_verdicts-IsDecided outcomes,
      aggregate_verdicts-majority outcomes Verdict.contradiction (omega arith),
      aggregate_verdicts-majority outcomes Verdict.absent (omega arith),
      aggregate_verdicts-majority outcomes Verdict.present (omega arith),
    )
