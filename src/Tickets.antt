-- ===== src/Tickets.antt =====
-- workers/src/archiviste_workers/services/ticket_service.py: the lore-gap tickets. The table is a
-- list of rows; a transaction that fails leaves it. The embedder and the cosine distance of pgvector
-- are parameters; a distance is held in millionths. Of equally near tickets the first is taken.
pub mod Dedup
mod Tests
use archiviste_nocilia.Prelude.{
  ℕ, ◌+◌, ◌-◌, Text, Bool, true, false, ◌&&◌, Option, none, some, List, [], ◌∷◌, ◌++◌, map, filter,
  text_eq, leb, ltb, if◌then◌else◌,
}
use archiviste_nocilia.Services.{TicketAction}

-- One row of `tickets`, with the columns that the service reads or writes; `category` is always
-- 'uncategorized'.
pub record Ticket (V : Type 0) : Type 0 where
  pub id : Text
  pub conversation_id : Text
  pub question : Text
  pub question_embedding : V
  pub priority_score : ℕ
  pub is_open : Bool
  pub judges_not_passed : Bool

pub record TicketResult : Type 0 where
  pub action : TicketAction
  pub ticket_id : Option Text
  pub priority_score : Option ℕ

-- What the service calls: `none` is an embedder that raises, `available` a database that answers.
pub record TicketClients (V : Type 0) : Type 0 where
  pub encode : Text → Option V
  pub distance : V → V → ℕ
  pub available : Bool
  pub new_id : Text

-- 0.85
abbrev pub dedup_threshold : ℕ
dedup_threshold = 850000

abbrev pub skipped_result : TicketResult
skipped_result = record {
  action = TicketAction.skipped_error;
  ticket_id = none;
  priority_score = none;
}

module _ {V : Type 0} (clients : TicketClients V) where
  -- The `WHERE` of the dedup query.
  abbrev pub matches : V → Ticket V → Bool
  matches vector t =
      t.is_open && leb dedup_threshold (1000000 - clients.distance t.question_embedding vector)

  abbrev nearer : V → Ticket V → Option (Ticket V) → Ticket V
  nearer vector t none = t
  nearer vector t (some u) =
      if ltb (clients.distance u.question_embedding vector)
        (clients.distance t.question_embedding vector)
      then u
      else t

  -- `ORDER BY question_embedding <=> $1 ASC LIMIT 1` on the tickets that match
  unfoldable pub find_existing : V → List (Ticket V) → Option (Ticket V)
  find_existing vector [] = none
  find_existing vector (t ∷ ts) =
      let rest = find_existing vector ts in
      if matches vector t then some (nearer vector t rest) else rest

  abbrev pub bumped : Ticket V → Ticket V
  bumped t = record t { priority_score = t.priority_score + 1 }

  -- `UPDATE tickets SET priority_score = priority_score + 1 WHERE id = $1`
  unfoldable pub bump : Text → List (Ticket V) → List (Ticket V)
  bump id [] = []
  bump id (t ∷ ts) = (if text_eq t.id id then bumped t else t) ∷ bump id ts

  abbrev pub new_ticket : Text → Text → V → Bool → Ticket V
  new_ticket conversation_id question vector judges_not_passed = record {
    id = clients.new_id;
    conversation_id = conversation_id;
    question = question;
    question_embedding = vector;
    priority_score = 1;
    is_open = true;
    judges_not_passed = judges_not_passed;
  }

  -- `_run_transaction` behind the dedup query
  abbrev pub write :
      List (Ticket V) → Text → Text → V → Bool → Option (Ticket V) → List (Ticket V) × TicketResult
  write tickets conversation_id question vector judges_not_passed none = (
    tickets ++ new_ticket conversation_id question vector judges_not_passed ∷ [],
    record {
      action = TicketAction.created;
      ticket_id = some clients.new_id;
      priority_score = some 1;
    },
  )
  write tickets conversation_id question vector judges_not_passed (some t) = (
    bump t.id tickets,
    record {
      action = TicketAction.incremented;
      ticket_id = some t.id;
      priority_score = some (t.priority_score + 1);
    },
  )

  unfoldable pub run_transaction :
      List (Ticket V) → Text → Text → V → Bool → Bool → List (Ticket V) × TicketResult
  unfolding find_existing bump
  run_transaction tickets conversation_id question vector judges_not_passed force =
      write tickets conversation_id question vector judges_not_passed
        (if force then none else find_existing vector tickets)

  abbrev pub with_vector :
      List (Ticket V) → Text → Text → Bool → Bool → Option V → List (Ticket V) × TicketResult
  with_vector tickets conversation_id question judges_not_passed force none =
      (tickets, skipped_result)
  with_vector tickets conversation_id question judges_not_passed force (some vector) =
      if clients.available
      then run_transaction tickets conversation_id question vector judges_not_passed force
      else (tickets, skipped_result)

  unfoldable pub create_or_increment :
      List (Ticket V) → Text → Text → Bool → Bool → List (Ticket V) × TicketResult
  unfolding run_transaction
  create_or_increment tickets conversation_id question judges_not_passed force =
      with_vector tickets conversation_id question judges_not_passed force (clients.encode question)
