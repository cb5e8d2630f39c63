-- ===== src/Drive/Sheets.antt =====
-- scripts/gdrive_export/gsheet_renderer.py: the text of a tab, a table of Markdown. NFKC and the format characters of Unicode are
-- parameters.
use archiviste_nocilia.Prelude.{
  ℕ, zero, suc, ◌-◌, max, Text, Bool, not, ◌≡◌, refl, Option, none, some, List, [], ◌∷◌, ◌++◌, map,
  filter, length, eqb, codes, if◌then◌else◌,
}
use archiviste_nocilia.Prelude.Decimal.{show_nat}
use archiviste_nocilia.Drive.Docs.{join_with}
use archiviste_nocilia.Drive.Gdocs.{normalize_body}
use archiviste_nocilia.Drive.Paths.{Tab}

abbrev pub replicate : ℕ → List Text
replicate zero = []
replicate (suc n) = [] ∷ replicate n

abbrev pub pad_row : List Text → ℕ → List Text
pad_row row width = row ++ replicate (width - length row)

-- `replace("|", r"\|").replace("\n", "<br>")`
abbrev pub escape_chars : Text → Text
escape_chars [] = []
escape_chars (c ∷ s) =
    let rest = escape_chars s in
    if eqb c b'|' then b'\\' ∷ b'|' ∷ rest else if eqb c 10 then codes "<br>" ++ rest else c ∷ rest

abbrev pub width_of : List (List Text) → ℕ
width_of [] = 0
width_of (r ∷ rows) = max (length r) (width_of rows)

abbrev pub separator : ℕ → List Text
separator zero = []
separator (suc n) = codes "---" ∷ separator n

abbrev pub table_line : List Text → Text
table_line cells = codes "| " ++ (join_with (codes " | ") cells ++ codes " |")

module _ (nfkc : Text → Text) (is_format : ℕ → Bool) where
  unfoldable pub escape_cell : Text → Text
  unfolding normalize_body
  escape_cell cell = escape_chars (filter (λ c. not (is_format c)) (normalize_body nfkc cell))

  abbrev pub render_row : ℕ → List Text → Text
  unfolding escape_cell
  render_row width row = table_line (map escape_cell (pad_row row width))

  abbrev pub table_of : List (List Text) → List Text
  unfolding escape_cell
  table_of [] = codes "*(empty sheet)*" ∷ []
  table_of (header ∷ rows) =
      let width = width_of (header ∷ rows) in
      render_row width header ∷ table_line (separator width) ∷ map (render_row width) rows

  unfoldable pub render_tab_markdown : Text → ℕ → List (List Text) → Text
  unfolding escape_cell show_nat
  render_tab_markdown file_id gid values = join_with (codes "\n") (
      (codes "<!-- gdrive: file=" ++ (file_id ++ (codes " tab=" ++ (show_nat gid ++ codes " -->"))))
      ∷ []
      ∷ table_of values)

  -- `_fetch_tab_content`; `none` is a DriveApiError or an OSError.
  unfoldable pub fetch_tab_content : Text → Tab → Option (List (List Text)) → Option Text
  unfolding render_tab_markdown normalize_body
  fetch_tab_content file_id tab none = none
  fetch_tab_content file_id tab (some values) =
      some (normalize_body nfkc (render_tab_markdown file_id tab.sheet_id values))

renders_table :
    render_tab_markdown
      (λ s. s)
      (λ c. eqb c 0x200b)
      (codes "3c")
      7
      ((codes "roi" ∷ codes "an" ∷ []) ∷ (codes "A|B" ∷ []) ∷ [])
    ≡ codes "<!-- gdrive: file=3c tab=7 -->\n\n| roi | an |\n| --- | --- |\n| A\\|B |  |"
unfolding render_tab_markdown
renders_table = refl
