-- ===== src/Memory/Window.antt =====
-- What the window holds: the longest run of newest turns within the budget, in order of time, from
-- a human turn on.
use mathlib.Core.List.{reverse}
use archiviste_nocilia.Prelude.{
  ℕ, ◌+◌, ◌≤◌, ◌<◌, Text, some, ◌≡◌, refl, sym, ap, List, [], ◌∷◌, ◌++◌, map, arith, ltb,
  if◌then◌else◌, append_nil, append_assoc, All, Bool-cases, inl, inr,
}
use archiviste_nocilia.Memory.{
  Role, Message, MessageRow, is_assistant, select_loop, select_within_budget, pop_assistants,
  to_message, render, last_user_turn_of,
}

abbrev pub total_tokens : List MessageRow → ℕ
total_tokens [] = 0
total_tokens (row ∷ rows) = row.token_count + total_tokens rows

-- The rows left out: none, or the first of them would pass the budget.
abbrev pub Overflows : ℕ → ℕ → List MessageRow → Type 0
Overflows budget total [] = Unit
Overflows budget total (row ∷ rows) = budget < total + row.token_count

-- The rows that a loop with `total` tokens behind it selects and leaves.
abbrev fits : ℕ → ℕ → List MessageRow → List MessageRow
fits budget total [] = []
fits budget total (row ∷ rows) =
    let rest = fits budget (total + row.token_count) rows in
    if ltb budget (total + row.token_count) then [] else row ∷ rest

abbrev leaves : ℕ → ℕ → List MessageRow → List MessageRow
leaves budget total [] = []
leaves budget total (row ∷ rows) =
    let rest = leaves budget (total + row.token_count) rows in
    if ltb budget (total + row.token_count) then row ∷ rows else rest

select_loop_lem :
    (budget total : ℕ) (selected rows : List MessageRow)
    → select_loop budget total selected rows ≡ selected ++ fits budget total rows
unfolding select_loop
select_loop_lem budget total selected [] = sym (append_nil selected)
select_loop_lem budget total selected (row ∷ rows) = ground (
  arith,
  select_loop_lem budget (total + row.token_count) (selected ++ row ∷ []) rows,
  append_assoc selected (row ∷ []) (fits budget (total + row.token_count) rows),
  append_nil selected,
)

fits-leaves :
    (budget total : ℕ) (rows : List MessageRow)
    → fits budget total rows ++ leaves budget total rows ≡ rows
fits-leaves budget total [] = refl
fits-leaves budget total (row ∷ rows) =
    ground (arith, fits-leaves budget (total + row.token_count) rows)

total-fits :
    (budget total : ℕ) (rows : List MessageRow)
    → total ≤ budget
    → total + total_tokens (fits budget total rows) ≤ budget
total-fits budget total [] h = omega arith
total-fits budget total (row ∷ rows) h =
    ground (arith, total-fits budget (total + row.token_count) rows)

leaves_overflow :
    (budget total sum : ℕ) (rows : List MessageRow)
    → sum ≡ total + total_tokens (fits budget total rows)
    → Overflows budget sum (leaves budget total rows)
leaves_overflow budget total sum [] e = tt
leaves_overflow budget total sum (row ∷ rows) e =
    elim (Bool-cases (ltb budget (total + row.token_count))) [
      | inl over ↦ rw over (ground arith)
      | inr under ↦
          rw under (leaves_overflow budget (total + row.token_count) sum rows (ground arith))
    ]

-- The window takes the longest run of newest turns whose tokens stay within the budget: what it
-- takes and what it leaves make up the tail, the tokens taken are within the budget, and the first
-- turn left would pass it.
pub select_within_budget_lem :
    (rows : List MessageRow) (budget : ℕ)
    → (left : List MessageRow) × (select_within_budget rows budget ++ left ≡ rows)
      × (total_tokens (select_within_budget rows budget) ≤ budget)
      × Overflows budget (total_tokens (select_within_budget rows budget)) left
unfolding select_within_budget
select_within_budget_lem rows budget = rw select_loop_lem (
  leaves budget 0 rows,
  fits-leaves budget 0 rows,
  ground (arith, total-fits budget 0 rows),
  leaves_overflow budget 0 (total_tokens (fits budget 0 rows)) rows (omega arith),
)

-- A message that a turn can become: never one of the system.
abbrev pub IsTurn : Message → Type 0
IsTurn (Message.system t) = ⊥
IsTurn (Message.human t) = Unit
IsTurn (Message.ai t) = Unit

abbrev pub OpensOnHuman : List Message → Type 0
OpensOnHuman [] = Unit
OpensOnHuman (Message.system t ∷ ms) = ⊥
OpensOnHuman (Message.human t ∷ ms) = Unit
OpensOnHuman (Message.ai t ∷ ms) = ⊥

to_message-IsTurn : (row : MessageRow) → IsTurn (to_message row)
unfolding to_message
to_message-IsTurn row = elim (Bool-cases (is_assistant row.role)) [
  | inl a ↦ rw a tt
  | inr h ↦ rw h tt
]

map-IsTurn : (rows : List MessageRow) → All IsTurn (map to_message rows)
map-IsTurn [] = tt
map-IsTurn (row ∷ rows) = (to_message-IsTurn row, map-IsTurn rows)

pop_assistants-OpensOnHuman :
    (rows : List MessageRow) → OpensOnHuman (map to_message (pop_assistants rows))
unfolding to_message pop_assistants
pop_assistants-OpensOnHuman [] = tt
pop_assistants-OpensOnHuman (row ∷ rows) = elim (Bool-cases (is_assistant row.role)) [
  | inl a ↦ rw a (pop_assistants-OpensOnHuman rows)
  | inr h ↦ rw (h, h) tt
]

abbrev pub IsAi : Message → Type 0
IsAi (Message.ai t) = Unit
IsAi m = ⊥

pop_assistants_parts :
    (rows : List MessageRow)
    → (popped : List Message) × All IsAi popped
      × (popped ++ map to_message (pop_assistants rows) ≡ map to_message rows)
unfolding to_message pop_assistants
pop_assistants_parts [] = ([], tt, refl)
pop_assistants_parts (row ∷ rows) = elim (Bool-cases (is_assistant row.role)) [
  | inl a ↦
      (let (popped, ais, e) = pop_assistants_parts rows in
        rw a (Message.ai row.content ∷ popped, (tt, ais), ap (λ ms. Message.ai row.content ∷ ms) e))
  | inr h ↦ rw (h, h) ([], tt, refl)
]

-- The rendered window is the selected turns in order of time, less the assistant turns before the
-- first human one: it opens on a human turn if it is not empty, and no message has the system role.
pub render_lem :
    (selected : List MessageRow)
    → OpensOnHuman (render selected)
      × All IsTurn (render selected)
      × ((popped : List Message) × All IsAi popped
          × (popped ++ render selected ≡ map to_message (reverse selected)))
unfolding render
render_lem selected = (
  pop_assistants-OpensOnHuman (reverse selected),
  map-IsTurn (pop_assistants (reverse selected)),
  pop_assistants_parts (reverse selected),
)

abbrev pub IsAssistant : MessageRow → Type 0
IsAssistant row = row.role ≡ Role.assistant

-- The last user turn is the content of the newest user row of the tail: all rows before it in the
-- tail are the assistant's.
pub last_user_turn_of_lem :
    (rows : List MessageRow) (t : Text)
    → last_user_turn_of rows ≡ some t
    → (before : List MessageRow) × (row : MessageRow) × (after : List MessageRow) × (before
          ++ row ∷ after
        ≡ rows)
      × All IsAssistant before
      × (row.role ≡ Role.user)
      × (row.content ≡ t)
unfolding last_user_turn_of
last_user_turn_of_lem [] t h = cc
last_user_turn_of_lem (row ∷ rows) t h = elim (Bool-cases (is_assistant row.role)) [
  | inl a ↦
      (let (before, found, after, e, ais, u, c) = last_user_turn_of_lem rows t (rw a at h) in
        (row ∷ before, found, after, ap (λ l. row ∷ l) e, (ground arith, ais), u, c))
  | inr n ↦ ([], row, rows, refl, tt, ground arith, ground arith)
]
