-- ===== src/Ingest/Again.antt =====
-- Ingesting an unchanged corpus again writes nothing.
use mathlib.Core.Path.{subst}
use mathlib.Core.Option.{some_inj}
use archiviste_nocilia.Prelude.{
  Text, true, false, ap, Option, none, none_not_some, ◌≡◌, ◌≢◌, refl, sym, ◌∙◌, some, List, [], ◌∷◌,
  map, text_eq, All,
}
use archiviste_nocilia.Ingest.{Document, Db}
use archiviste_nocilia.Ingest.Pipeline.{
  ProcessResult, ProcessStatus, File, PipelineDeps, process_file, process_files, then_file,
  with_result,
}
use archiviste_nocilia.Ingest.Rows.{with_id, IsIndexed}
use archiviste_nocilia.Ingest.Invariant.{process_file-IsIndexed}
use archiviste_nocilia.Ingest.Settled.{
  skip_of, parse_file, process_sized-parsed, IsSettled, skips_settled, keeps-IsSettled,
  parsed-IsSettled,
}

-- The paths of a run differ.
abbrev pub NotAmong : Text → List File → Type 0
NotAmong path [] = Unit
NotAmong path (g ∷ files) = (text_eq g.relative path ≡ false) × NotAmong path files

abbrev pub DistinctFiles : List File → Type 0
DistinctFiles [] = Unit
DistinctFiles (file ∷ files) = NotAmong file.relative files × DistinctFiles files

abbrev pub IsFine : ProcessResult → Type 0
IsFine r = r.status ≢ ProcessStatus.failed

module _ {V : Type 0} (deps : PipelineDeps V) where
  module _ (fresh : (ds : List Document) → with_id (deps.new_id ds) ds ≡ 0) where
    -- A run that returns has a first file that does, and a run over the others.
    taken_apart :
        (file : File) (files : List File) (db db' : Db V) (results : List ProcessResult)
        → process_files deps (file ∷ files) db ≡ (db', some results)
        → (db₁ : Db V) × (r : ProcessResult) × (rs : List ProcessResult) × (process_file deps file
              db
            ≡ some (db₁, r))
          × (process_files deps files db₁ ≡ (db', some rs))
          × (results ≡ r ∷ rs)
    unfolding process_files
    taken_apart file files db db' results e = by_file (process_file deps file db) refl e
      where
        by_rest :
            (db₁ : Db V) (r : ProcessResult) (more : Db V × Option (List ProcessResult))
            → with_result deps r more ≡ (db', some results)
            → (rs : List ProcessResult) × (more ≡ (db', some rs)) × (results ≡ r ∷ rs)
        by_rest db₁ r (d, none) k = absurd (none_not_some (ap (λ x. x.1) k))
        by_rest db₁ r (d, some rs) k =
            (rs, ap (λ x. (x.0, some rs)) k, sym (some_inj.0 (ap (λ x. x.1) k)))

        by_file :
            (one : Option (Db V × ProcessResult))
            → process_file deps file db ≡ one
            → then_file deps db one (process_files deps files) ≡ (db', some results)
            → (db₁ : Db V) × (r : ProcessResult) × (rs : List ProcessResult) × (process_file deps
                  file db
                ≡ some (db₁, r))
              × (process_files deps files db₁ ≡ (db', some rs))
              × (results ≡ r ∷ rs)
        by_file none n k = absurd (none_not_some (ap (λ x. x.1) k))
        by_file (some (db₁, r)) n k =
            let (rs, m, l) = by_rest db₁ r (process_files deps files db₁) k in (db₁, r, rs, n, m, l)

    run-keeps-IsSettled :
        (files : List File) (file : File) (db db' : Db V) (results : List ProcessResult)
        → process_files deps files db ≡ (db', some results)
        → IsIndexed db
        → NotAmong file.relative files
        → IsSettled deps db file
        → IsSettled deps db' file
    unfolding process_files
    run-keeps-IsSettled [] file db db' results e h apart s =
        subst (λ x. IsSettled deps x file) (ap (λ x. x.0) e) s
    run-keeps-IsSettled (g ∷ files) file db db' results e h apart s =
        let (db₁, r, rs, n, m, l) = taken_apart g files db db' results e in
        run-keeps-IsSettled files file db₁ db' rs m
          (process_file-IsIndexed deps fresh g db db₁ r n h) apart.1
          (keeps-IsSettled deps g file db db₁ r n h apart.0 s)

    -- Every file of a run without errors is settled behind it.
    All-IsSettled :
        (files : List File) (db db' : Db V) (results : List ProcessResult)
        → process_files deps files db ≡ (db', some results)
        → IsIndexed db
        → DistinctFiles files
        → All IsFine results
        → All (IsSettled deps db') files
    unfolding process_file
    All-IsSettled [] db db' results e h apart fine = tt
    All-IsSettled (file ∷ files) db db' results e h apart fine =
        let (db₁, r, rs, n, m, l) = taken_apart file files db db' results e in
        let fine' : All IsFine (r ∷ rs) = subst (All IsFine) l fine in
        let h₁ : IsIndexed db₁ = process_file-IsIndexed deps fresh file db db₁ r n h in
        let s₁ : IsSettled deps db₁ file =
          parsed-IsSettled deps file db db₁ r (parse_file deps file) refl
            (sym (process_sized-parsed deps file db file.size) ∙ n) fine'.0 in
        (
          run-keeps-IsSettled files file db₁ db' rs m h₁ apart.0 s₁,
          All-IsSettled files db₁ db' rs m h₁ apart.1 fine'.1,
        )

    run-skips :
        (files : List File) (db : Db V)
        → deps.reads ≡ true
        → All (IsSettled deps db) files
        → process_files deps files db ≡ (db, some (map skip_of files))
    unfolding process_files
    run-skips [] db reads s = refl
    run-skips (file ∷ files) db reads s =
        rw (skips_settled deps reads db file s.0) (rw (run-skips files db reads s.1) refl)

    -- If a run over files of different paths ends without an error, the same run again writes nothing and
    -- skips every file, while the files, the splitter and the digest are the same and the tables can be
    -- read, over tables that are indexed and give new documents new ids.
    pub process_files-again :
        (files : List File) (db db' : Db V) (results : List ProcessResult)
        → deps.reads ≡ true
        → IsIndexed db
        → DistinctFiles files
        → process_files deps files db ≡ (db', some results)
        → All IsFine results
        → process_files deps files db' ≡ (db', some (map skip_of files))
    process_files-again files db db' results reads h apart e fine =
        run-skips files db' reads (All-IsSettled files db db' results e h apart fine)
