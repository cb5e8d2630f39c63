-- ===== src/Tickets/Dedup.antt =====
-- What the cosine dedup guarantees.
use archiviste_nocilia.Prelude.{
  ◌+◌, ◌≢◌, ◌≤◌, Text, Bool, true, false, ◌≡◌, ◌⊎◌, none, some, List, [], ◌∷◌, ◌++◌, map, filter,
  All,
}
use archiviste_nocilia.Services.{TicketAction}
use archiviste_nocilia.Tickets.{Ticket, TicketResult, TicketClients, matches}

module _ {V : Type 0} (clients : TicketClients V) where
  -- The part of a ticket that its birth fixes.
  abbrev pub birth : Ticket V → Ticket V
  birth t = record t { priority_score = 0 }

  -- The tickets of an id have one more in their score, and the others are as they were.
  abbrev pub Raised : Text → List (Ticket V) → List (Ticket V) → Type 0
  Raised id [] [] = Unit
  Raised id (t ∷ ts) (u ∷ us) =
      (((t.id ≡ id) × (u ≡ record t { priority_score = t.priority_score + 1 }))
        ⊎ ((t.id ≢ id) × (u ≡ t)))
      × Raised id ts us
  Raised id [] (u ∷ us) = ⊥
  Raised id (t ∷ ts) [] = ⊥

  -- A ticket that an open and similar ticket is not nearer than.
  abbrev pub NotNearer : V → Ticket V → Ticket V → Type 0
  NotNearer vector t u =
      (matches clients vector u ≡ false)
      ⊎ (clients.distance t.question_embedding vector
          ≤ clients.distance u.question_embedding vector)

  -- A member of the list, by the lists around it.
  abbrev pub IsIn : Ticket V → List (Ticket V) → Type 0
  IsIn t ts = (before : List (Ticket V)) × (after : List (Ticket V)) × (before ++ t ∷ after ≡ ts)

  abbrev pub Nearest : V → List (Ticket V) → Ticket V → Type 0
  Nearest vector ts t = IsIn t ts × (matches clients vector t ≡ true) × All (NotNearer vector t) ts

  -- The outcomes of a request for a ticket. It is skipped, and the table is as before. Or it
  -- increments: the request was not forced, the ticket found is in the table, open and similar, and
  -- none that is open and similar is nearer; only its score changes. Or it creates: one new ticket
  -- with the flag of the request stands behind the table as it was, and either the request was forced
  -- or no ticket of the table is open and similar.
  abbrev pub Requested :
      List (Ticket V) → Text → Text → Bool → Bool → List (Ticket V) × TicketResult → Type 0
  Requested ts conversation_id question judges_not_passed force (ts', result) =
      ((result.action ≡ TicketAction.skipped_error) × (ts' ≡ ts) × (result.ticket_id ≡ none))
      ⊎ (((vector : V) × (t : Ticket V) × (clients.encode question ≡ some vector)
            × (result.action ≡ TicketAction.incremented)
            × (force ≡ false)
            × (result.ticket_id ≡ some t.id)
            × (result.priority_score ≡ some (t.priority_score + 1))
            × Nearest vector ts t
            × Raised t.id ts ts'
            × (map birth ts' ≡ map birth ts))
          ⊎ ((vector : V) × (clients.encode question ≡ some vector)
              × (result.action ≡ TicketAction.created)
              × (result.ticket_id ≡ some clients.new_id)
              × (ts'
                  ≡ ts
                    ++ record {
                      id = clients.new_id;
                      conversation_id = conversation_id;
                      question = question;
                      question_embedding = vector;
                      priority_score = 1;
                      is_open = true;
                      judges_not_passed = judges_not_passed;
                    }
                      ∷ [])
              × ((force ≡ true) ⊎ (filter (matches clients vector) ts ≡ []))))
