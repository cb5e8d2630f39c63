-- ===== src/Ingest/Tests.antt =====
-- A run over two files and an empty corpus.
use archiviste_nocilia.Prelude.{
  ℕ, ◌+◌, ◌≤◌, ◌++◌, ◌≡◌, refl, true, none, some, Option, List, [], ◌∷◌, arith, codes, Text,
  text_eq, if◌then◌else◌, map, inr, is_empty,
}
use archiviste_nocilia.Ingest.{Document, Db}
use archiviste_nocilia.Ingest.Frontmatter.{Value, mapping, yaml_error}
use archiviste_nocilia.Ingest.Pipeline.{
  ProcessResult, File, PipelineDeps, process_files, count_results, no_counts, exit_code,
}
use archiviste_nocilia.Ingest.Rows.{with_id, IsIndexed}
use archiviste_nocilia.Ingest.Invariant.{process_files-IsIndexed}
use archiviste_nocilia.Ingest.Again.{process_files-again}
use archiviste_nocilia.Ingest.Settled.{skip_of}

-- More than every id.
abbrev next_id : List Document → ℕ
next_id [] = 1
next_id (d ∷ ds) = d.id + next_id ds

positive : (ds : List Document) → 1 ≤ next_id ds
positive [] = omega arith
positive (d ∷ ds) = omega (arith, positive ds)

above : (n : ℕ) (ds : List Document) → next_id ds ≤ n → with_id n ds ≡ 0
above n [] h = refl
above n (d ∷ ds) h = ground (arith, above n ds, positive ds)

-- A YAML reader that knows one text.
abbrev keys : Text → Option Value
keys k =
    if text_eq k (codes "title")
    then some (Value.string (codes "Lunes"))
    else if text_eq k (codes "access_tier")
    then some (Value.string (codes "members"))
    else none

abbrev deps : PipelineDeps ℕ
deps = record {
  load_yaml = λ s. if text_eq s (codes "lunes") then mapping keys else yaml_error;
  nfkc = λ s. s;
  digest = λ s. s;
  split_text = λ s. if is_empty s then [] else s ∷ s ∷ [];
  encode_batch = λ ts. some (map (λ t. 0) ts);
  reads = true;
  writes = true;
  new_id = next_id;
}

abbrev file : Text → Text → File
file path body = record {
  relative = path;
  size = some 100;
  raw = some (codes "---\nlunes\n---\n" ++ body);
}

abbrev files : List File
files = file (codes "a.md") (codes "Deux lunes.") ∷ file (codes "b.md") (codes "Une mer.") ∷ []

abbrev start : Db ℕ
start = record { documents = []; chunks = [] }

abbrev outcome : Db ℕ × Option (List ProcessResult)
unfolding process_files
outcome = process_files deps files start

fresh : (ds : List Document) → with_id (deps.new_id ds) ds ≡ 0
fresh ds = above (next_id ds) ds (omega arith)

start-IsIndexed : IsIndexed start
start-IsIndexed = record {
  one_path = λ path. omega arith;
  one_id = λ n. omega arith;
  in_order = λ n. refl;
  owned = λ n. inr refl;
}

abbrev filled : Db ℕ
filled = outcome.0

abbrev results : List ProcessResult
results = elim outcome.1 [ none ↦ [] | some rs ↦ rs ]

process_files-IsIndexed_example : IsIndexed (process_files deps files start).0
process_files-IsIndexed_example = process_files-IsIndexed deps fresh files start start-IsIndexed

process_files-again_example : process_files deps files filled ≡ (filled, some (map skip_of files))
unfolding process_files text_eq
process_files-again_example =
    process_files-again deps fresh files start filled results refl start-IsIndexed
      ((refl, tt), (tt, tt)) refl ((λ e. ground arith), ((λ e. ground arith), tt))

all_fine : exit_code (count_results no_counts results) ≡ 0
unfolding exit_code count_results outcome
all_fine = refl
