-- ===== src/Pipeline/Finalized.antt =====
-- Views of a run: what it stores, the rows that it logs, the tickets that it tries, and the events
-- that it emits, each in order; and what one finalization adds to each.
use archiviste_nocilia.Prelude.{
  ℕ, Text, Bool, ◌&&◌, ◌≡◌, refl, sym, ◌∙◌, ap, append_assoc, List, [], ◌∷◌, ◌++◌, map, arith,
  if◌then◌else◌,
}
use archiviste_nocilia.Memory.{Role}
use archiviste_nocilia.Services.{Services}
use archiviste_nocilia.Pipeline.{
  QueryLogRow, SseEvent, Effect, append_turn, raise_ticket, log_query, emit, Context, PreparedMode,
  GenerationResult, is_lore_gap, success_row, finalize_generation,
}

abbrev pub one_turn : Effect → List (Role × Text)
one_turn (append_turn role content) = (role, content) ∷ []
one_turn _ = []

abbrev pub one_row : Effect → List QueryLogRow
one_row (log_query row) = row ∷ []
one_row _ = []

abbrev pub one_ticket : Effect → List Text
one_ticket (raise_ticket question) = question ∷ []
one_ticket _ = []

abbrev pub one_event : Effect → List SseEvent
one_event (emit event) = event ∷ []
one_event _ = []

-- What `f` sees of each effect, in order.
abbrev pub collect : {A : Type 0} → (Effect → List A) → List Effect → List A
collect f [] = []
collect f (e ∷ fx) = f e ++ collect f fx

pub collect-append :
    {A : Type 0} (f : Effect → List A) (fx gx : List Effect)
    → collect f (fx ++ gx) ≡ collect f fx ++ collect f gx
collect-append f [] gx = refl
collect-append f (e ∷ fx) gx =
    ap (λ t. f e ++ t) (collect-append f fx gx)
    ∙ sym (append_assoc (f e) (collect f fx) (collect f gx))

abbrev pub turns : List Effect → List (Role × Text)
turns fx = collect one_turn fx

abbrev pub rows : List Effect → List QueryLogRow
rows fx = collect one_row fx

abbrev pub tickets : List Effect → List Text
tickets fx = collect one_ticket fx

abbrev pub events : List Effect → List SseEvent
events fx = collect one_event fx

-- A run without the events.
abbrev pub silent_one : Effect → List Effect
silent_one (emit event) = []
silent_one e = e ∷ []

abbrev pub silent : List Effect → List Effect
silent fx = collect silent_one fx

abbrev pub statuses : List QueryLogRow → List ℕ
statuses rs = map (λ r. r.status_code) rs

-- The tickets of a finalization.
abbrev pub wants_ticket : Services → Context → PreparedMode → GenerationResult → Bool
wants_ticket s ctx prepared result =
    is_lore_gap prepared.mode
    && (s.append_ok Role.user ctx.parsed.query
        && s.append_ok Role.assistant result.persisted_content)
    && s.has_ticket_store

-- A finalization stores the raw query as the user's turn and the answer of the model, untouched, as
-- the assistant's, in this order; it logs one row with status 200 and the tokens of the result; and
-- it tries a ticket, for the raw query, exactly in the lore-gap mode with both turns stored and the
-- ticket store there.
pub finalize_generation_lem :
    (s : Services) (ctx : Context) (prepared : PreparedMode) (result : GenerationResult)
    → let fx = (finalize_generation s ctx prepared result).0 in
      (turns fx ≡ (Role.user, ctx.parsed.query) ∷ (Role.assistant, result.persisted_content) ∷ [])
      × (rows fx ≡ success_row s ctx prepared result ∷ [])
      × (tickets fx ≡ (if wants_ticket s ctx prepared result then ctx.parsed.query ∷ [] else []))
      × (events fx ≡ [])
unfolding finalize_generation
finalize_generation_lem s ctx prepared result =
    (ground arith, ground arith, ground arith, ground arith)
