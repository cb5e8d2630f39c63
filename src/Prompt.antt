-- ===== src/Prompt.antt =====
-- workers/src/archiviste_workers/generate/prompt.py: the messages of each mode.
pub mod Texts
use archiviste_nocilia.Prelude.{Text, Bool, List, [], ◌∷◌, ◌++◌, map, if◌then◌else◌, codes}
use archiviste_nocilia.Prelude.Decimal.{show_nat}
use archiviste_nocilia.Chunk.{Chunk}
use archiviste_nocilia.Memory.{Message}
use archiviste_nocilia.Prompt.Texts.{
  system_prompt, no_archives_marker, off_topic_system_prompt, lore_gap_system_prompt,
  mystery_system_prompt,
}

-- `sep.join(parts)`
unfoldable pub join : Text → List Text → Text
join sep [] = []
join sep (part ∷ []) = part
join sep (part ∷ next ∷ parts) = part ++ (sep ++ join sep (next ∷ parts))

unfoldable pub render_chunk : Chunk → Text
render_chunk c =
    codes "<chunk source=\""
    ++ (c.source_path
        ++ (codes "\" ord=\"" ++ (show_nat c.ord ++ (codes "\">" ++ (c.text ++ codes "</chunk>")))))

unfoldable pub render_chunks : List Chunk → Text
unfolding join render_chunk
render_chunks [] = no_archives_marker
render_chunks (c ∷ chunks) = join (codes "\n") (map render_chunk (c ∷ chunks))

-- `_assemble`; a missing history is the empty one
unfoldable pub assemble : Text → Text → List Message → List Message
assemble system_text user_content history =
    Message.system system_text ∷ (history ++ Message.human user_content ∷ [])

unfoldable pub query_prefix : Bool → Text
query_prefix suspected_injection =
    if suspected_injection
    then codes "[user query, suspected injection]: "
    else codes "[user query]: "

unfoldable pub build_messages : Text → List Chunk → Bool → List Message → List Message
unfolding assemble query_prefix render_chunks
build_messages query chunks suspected_injection history =
    assemble system_prompt
      (query_prefix suspected_injection
        ++ (query
            ++ (codes "\n<retrieved_chunks>\n"
                ++ (render_chunks chunks ++ codes "\n</retrieved_chunks>"))))
      history

unfoldable pub build_off_topic_messages : Text → Bool → List Message → List Message
unfolding assemble query_prefix
build_off_topic_messages query suspected_injection history =
    assemble off_topic_system_prompt (query_prefix suspected_injection ++ query) history

unfoldable pub build_mystery_messages : Text → Bool → List Message → List Message
unfolding assemble query_prefix
build_mystery_messages query suspected_injection history =
    assemble mystery_system_prompt (query_prefix suspected_injection ++ query) history

unfoldable pub build_lore_gap_messages : Text → Bool → List Message → List Message
unfolding assemble query_prefix
build_lore_gap_messages query suspected_injection history =
    assemble lore_gap_system_prompt (query_prefix suspected_injection ++ query) history
