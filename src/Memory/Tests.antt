-- ===== src/Memory/Tests.antt =====
-- The memory window on a concrete conversation.
use archiviste_nocilia.Prelude.{◌≡◌, [], ◌∷◌, ◌++◌, map, List, All}
use mathlib.Core.List.{reverse}
use archiviste_nocilia.Memory.{Role, Message, MessageRow, render, to_message}
use archiviste_nocilia.Memory.Window.{IsTurn, OpensOnHuman, IsAi, render_lem}
use archiviste_nocilia.Fixtures.{stored}

abbrev newest_first : List MessageRow
newest_first =
    (stored Role.assistant 2 "Personne.").row ∷ (stored Role.user 1 "Qui regne ?").row ∷ []

render_lem_example :
    OpensOnHuman (render newest_first)
    × All IsTurn (render newest_first)
    × ((popped : List Message) × All IsAi popped
        × (popped ++ render newest_first ≡ map to_message (reverse newest_first)))
render_lem_example = render_lem newest_first
