-- ===== src/Tickets/Tests.antt =====
-- Tickets over a table of one.
use archiviste_nocilia.Prelude.{
  ℕ, ◌+◌, ◌-◌, ◌*◌, ◌≡◌, refl, true, false, some, List, [], ◌∷◌, codes, length,
}
use archiviste_nocilia.Tickets.{Ticket, TicketClients, create_or_increment}

-- Vectors are numbers here, and far apart where they differ.
abbrev clients : TicketClients ℕ
clients = record {
  encode = λ question. some (length question);
  distance = λ u v. 100000 * ((u - v) + (v - u));
  available = true;
  new_id = codes "t2";
}

abbrev table : List (Ticket ℕ)
table =
    record {
      id = codes "t1";
      conversation_id = codes "c";
      question = codes "Qui ?";
      question_embedding = 5;
      priority_score = 1;
      is_open = true;
      judges_not_passed = false;
    }
    ∷ []

increments :
    (create_or_increment clients table (codes "c") (codes "Quoi ?") false false).1.priority_score
    ≡ some 2
unfolding create_or_increment
increments = refl
