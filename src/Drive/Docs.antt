-- ===== src/Drive/Docs.antt =====
-- scripts/gdrive_export/docs_md_renderer.py, with `extract_inline_objects` of images.py: a document of the Docs API, as far as
-- the export reads it, and its Markdown.
use archiviste_nocilia.Prelude.{
  ℕ, Text, Bool, true, false, not, ◌||◌, Option, none, some, List, [], ◌∷◌, ◌++◌, map, eqb, text_eq,
  is_empty, strip, if◌then◌else◌, codes, rstrip_by, ◌≡◌, refl,
}
use archiviste_nocilia.Drive.Assoc.{set_at, get_at}

pub record TextRun : Type 0 where
  pub content : Text
  pub link_url : Option Text
  pub is_bold : Bool
  pub is_italic : Bool

pub data Element : Type 0 where
  text_run : TextRun → Element
  inline_object : Text → Element
  page_break other_element : Element

pub record Paragraph : Type 0 where
  pub style_type : Text
  pub has_bullet : Bool
  pub elements : List Element

-- A cell has its paragraphs; its other content is not rendered.
abbrev pub Row : Type 0
Row = List (List Paragraph)

pub data Structure : Type 0 where
  paragraph : Paragraph → Structure
  table : List Row → Structure
  other_structure : Structure

-- The images are the ids with their `contentUri`, where they have one.
pub record Document : Type 0 where
  pub body : List Structure
  pub inline_objects : List (Text × Text)
  pub positioned_objects : List (Text × Text)

abbrev pub extract_from : List (Text × Text) → List (Text × Text) → List (Text × Text)
extract_from [] result = result
extract_from (o ∷ objects) result =
    extract_from objects (if is_empty o.1 then result else set_at o.0 o.1 result)

-- `extract_inline_objects`
unfoldable pub extract_inline_objects : Document → List (Text × Text)
unfolding text_eq
extract_inline_objects doc =
    extract_from doc.positioned_objects (extract_from doc.inline_objects [])

-- `ImageResolution`, without the id, and without `alt`, which is always None here.
pub data ImageResolution : Type 0 where
  ok : Text → ImageResolution
  failed oversized : ImageResolution

abbrev pub Resolutions : Type 0
Resolutions = List (Text × ImageResolution)

unfoldable pub heading_prefix : Text → Text
unfolding text_eq
heading_prefix style =
    if text_eq style (codes "HEADING_1") || text_eq style (codes "TITLE")
    then codes "# "
    else if text_eq style (codes "HEADING_2") || text_eq style (codes "SUBTITLE")
    then codes "## "
    else if text_eq style (codes "HEADING_3")
    then codes "### "
    else if text_eq style (codes "HEADING_4")
    then codes "#### "
    else if text_eq style (codes "HEADING_5")
    then codes "##### "
    else if text_eq style (codes "HEADING_6")
    then codes "###### "
    else []

-- A vertical tab is a line break of Markdown.
abbrev pub break_lines : Text → Text
break_lines [] = []
break_lines (c ∷ s) =
    let rest = break_lines s in if eqb c 11 then codes "  \n" ++ rest else c ∷ rest

abbrev pub is_newline : ℕ → Bool
is_newline c = eqb c 10

abbrev pub emphasized : Bool → Bool → Text → Text
emphasized true true s = codes "***" ++ (s ++ codes "***")
emphasized true false s = codes "**" ++ (s ++ codes "**")
emphasized false true s = codes "*" ++ (s ++ codes "*")
emphasized false false s = s

abbrev pub linked : Option Text → Bool → Bool → Text → Text
linked none bold italic s = emphasized bold italic s
linked (some url) bold italic s =
    if is_empty url
    then emphasized bold italic s
    else codes "[" ++ (s ++ (codes "](" ++ (url ++ codes ")")))

-- `_render_text_run`
unfoldable pub render_text_run : TextRun → Text
unfolding rstrip_by
render_text_run run =
    let content = rstrip_by is_newline (break_lines run.content) in
    if is_empty content then [] else linked run.link_url run.is_bold run.is_italic content

abbrev pub ref_of : Text → Option ImageResolution → Text
ref_of id none = []
ref_of id (some (ok path)) = codes "![](" ++ (path ++ codes ")")
ref_of id (some oversized) = codes "![image trop volumineuse](#oversized-" ++ (id ++ codes ")")
ref_of id (some failed) = codes "![image indisponible](#image-failed-" ++ (id ++ codes ")")

-- A list of texts with a separator
abbrev pub join_with : Text → List Text → Text
join_with sep [] = []
join_with sep (t ∷ []) = t
join_with sep (t ∷ u ∷ ts) = t ++ (sep ++ join_with sep (u ∷ ts))

module _ (resolutions : Resolutions) where
  abbrev pub image_ref : Text → Text
  image_ref id = ref_of id (get_at id resolutions)

  -- The fragments of elements, and the lines that they put into the output themselves
  abbrev pub render_elements : List Element → List Text × List Text
  render_elements [] = ([], [])
  render_elements (e ∷ es) = add e (render_elements es)
    where
      with_part : Text → List Text × List Text → List Text × List Text
      with_part part (parts, lines) = ((if is_empty part then parts else part ∷ parts), lines)

      add : Element → List Text × List Text → List Text × List Text
      add (text_run run) rest = with_part (render_text_run run) rest
      add (inline_object id) rest = with_part (image_ref id) rest
      add page_break (parts, lines) = (parts, codes "\n---\n" ∷ lines)
      add other_element rest = rest

  abbrev pub paragraph_prefix : Paragraph → Text
  paragraph_prefix p = if p.has_bullet then codes "- " else heading_prefix p.style_type

  -- `_render_paragraph`: the lines that it adds
  unfoldable pub render_paragraph : Paragraph → List Text
  unfolding render_text_run heading_prefix rstrip_by strip
  render_paragraph p =
      let (parts, lines) = render_elements p.elements in
      let text = rstrip_by is_newline (join_with [] parts) in
      lines
      ++ (if not (is_empty (strip text))
          then (paragraph_prefix p ++ text) ∷ []
          else if is_empty parts
          then [] ∷ []
          else [])

  abbrev pub cell_text : List Paragraph → Text
  unfolding strip render_text_run
  cell_text ps =
      strip
        (join_with (codes " ") (map (λ p. strip (join_with [] (render_elements p.elements).0)) ps))

  abbrev pub cell_lines : List Paragraph → List Text
  unfolding render_text_run
  cell_lines [] = []
  cell_lines (p ∷ ps) = (render_elements p.elements).1 ++ cell_lines ps

  abbrev pub row_lines : Row → List Text
  unfolding render_text_run
  row_lines [] = []
  row_lines (c ∷ cs) = cell_lines c ++ row_lines cs

  abbrev pub pipe_row : List Text → Text
  pipe_row cells = codes "| " ++ (join_with (codes " | ") cells ++ codes " |")

  abbrev pub render_rows : Bool → List Row → List Text
  unfolding strip render_text_run
  render_rows first [] = []
  render_rows first (r ∷ rows) =
      row_lines r
      ++ (pipe_row (map cell_text r)
          ∷ ((if first then pipe_row (map (λ c. codes "---") r) ∷ [] else [])
              ++ render_rows false rows))

  abbrev pub render_structure : Structure → List Text
  unfolding render_paragraph strip render_text_run
  render_structure (paragraph p) = render_paragraph p
  render_structure (table rows) = render_rows true rows
  render_structure other_structure = []

  abbrev pub render_body : List Structure → List Text
  unfolding render_paragraph
  render_body [] = []
  render_body (s ∷ body) = render_structure s ++ render_body body

  abbrev pub render_positioned : List (Text × Text) → List Text
  render_positioned [] = []
  render_positioned (o ∷ os) =
      let rest = render_positioned os in
      let ref = image_ref o.0 in if is_empty ref then rest else ref ∷ rest

-- `render_doc_markdown`
unfoldable pub render_doc_markdown : Document → Resolutions → Text
unfolding render_paragraph strip
render_doc_markdown doc resolutions = strip (
    join_with (codes "\n")
      (render_body resolutions doc.body ++ render_positioned resolutions doc.positioned_objects))

renders_one :
    render_doc_markdown
      (record {
        body =
            paragraph (record {
              style_type = codes "TITLE";
              has_bullet = false;
              elements =
                  text_run (record {
                    content = codes "Lunes\n";
                    link_url = none;
                    is_bold = true;
                    is_italic = false;
                  })
                  ∷ [];
            })
            ∷ paragraph (record {
              style_type = [];
              has_bullet = false;
              elements = inline_object (codes "i1") ∷ [];
            })
            ∷ [];
        inline_objects = [];
        positioned_objects = (codes "i2", []) ∷ [];
      })
      ((codes "i1", ok (codes "lunes.images/a.png")) ∷ (codes "i2", failed) ∷ [])
    ≡ codes "# **Lunes**\n![](lunes.images/a.png)\n![image indisponible](#image-failed-i2)"
unfolding render_doc_markdown
renders_one = refl
