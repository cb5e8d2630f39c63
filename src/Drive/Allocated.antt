-- ===== src/Drive/Allocated.antt =====
-- The paths that the files of a run get, in the order of the loop.
use mathlib.Core.Path.{subst}
use archiviste_nocilia.Prelude.{
  Text, true, false, ◌≡◌, refl, some, List, [], ◌∷◌, ◌++◌, take, codes, arith, Bool-cases,
  Option-cases, inl, inr,
}
use archiviste_nocilia.Drive.Slugs.{slugify}
use archiviste_nocilia.Drive.Paths.{
  is_taken, join_path, DriveFile, Tree, slug_folders, resolve_local_path, tab_paths, extension,
  is_sheet, allocate_paths, Allocation, file_at, tabs_at,
}

module _ (tree : Tree) where
  -- A path that is given is below the root and was not taken.
  resolve_local_path_lem :
      (components : List Text) (slug ext : Text) (taken : List Text) (id path : Text)
      → resolve_local_path tree components slug ext taken id ≡ some path
      → (tree.under_root path ≡ true) × (is_taken path taken ≡ false)
  unfolding resolve_local_path
  resolve_local_path_lem components slug ext taken id path h =
      let folders = slug_folders tree id components in
      let candidate = join_path tree.root folders (slugify tree.unicode slug id ++ ext) in
      let suffixed =
        join_path tree.root folders
          ((slugify tree.unicode slug id ++ (codes "-" ++ take 8 id)) ++ ext) in
      elim (Bool-cases (tree.under_root candidate)) [
        | inr a ↦ ground arith
        | inl a ↦ elim (Bool-cases (is_taken candidate taken)) [
          | inr b ↦
              (let k : candidate ≡ path = ground arith in
                subst (λ p. (tree.under_root p ≡ true) × (is_taken p taken ≡ false)) k (a, b))
          | inl b ↦ elim (Bool-cases (tree.under_root suffixed)) [
            | inr c ↦ ground arith
            | inl c ↦ elim (Bool-cases (is_taken suffixed taken)) [
              | inl d ↦ ground arith
              | inr d ↦
                  (let k : suffixed ≡ path = ground arith in
                    subst (λ p. (tree.under_root p ≡ true) × (is_taken p taken ≡ false)) k (c, d))
            ]
          ]
        ]
      ]

-- Each file has its paths, in order. That of a file which is no spreadsheet is below the root and not among those that were
-- taken, the paths of the files and tabs before it included; the tabs of a spreadsheet are not checked.
abbrev pub AreFresh : Tree → List DriveFile → List Allocation → List Text → Type 0
AreFresh tree [] [] taken = Unit
AreFresh tree (file ∷ files) (file_at id path ∷ rest) taken =
    (is_sheet tree file.mime ≡ false)
    × (file.id ≡ id)
    × (tree.under_root path ≡ true)
    × (is_taken path taken ≡ false)
    × AreFresh tree files rest (path ∷ taken)
AreFresh tree (file ∷ files) (tabs_at id paths ∷ rest) taken =
    (is_sheet tree file.mime ≡ true)
    × (file.id ≡ id)
    × (tab_paths tree file (tree.tabs file.id) ≡ paths)
    × AreFresh tree files rest (paths ++ taken)
AreFresh tree [] (a ∷ rest) taken = ⊥
AreFresh tree (file ∷ files) [] taken = ⊥

-- If the loop of a run gives paths to its files, each file that is not a spreadsheet has one below the root that
-- was not taken, and that neither a file nor a tab before it has, and each spreadsheet has those of its tabs.
pub allocate_paths-AreFresh :
    (tree : Tree) (files : List DriveFile) (taken : List Text) (given : List Allocation)
    → allocate_paths tree files taken ≡ some given
    → AreFresh tree files given taken
unfolding allocate_paths
allocate_paths-AreFresh tree [] taken given h =
    (let k : [] ≡ given = ground arith in subst (λ g. AreFresh tree [] g taken) k tt)
allocate_paths-AreFresh tree (file ∷ files) taken given h =
    elim (Bool-cases (is_sheet tree file.mime)) [
      | inl e ↦
          (let paths = tab_paths tree file (tree.tabs file.id) in
            elim (Option-cases (allocate_paths tree files (paths ++ taken))) [
              | inl m ↦ ground arith
              | inr (more, m) ↦
                  (let k : tabs_at file.id paths ∷ more ≡ given = ground arith in
                    subst (λ g. AreFresh tree (file ∷ files) g taken) k
                      (e, refl, refl, allocate_paths-AreFresh tree files (paths ++ taken) more m))
            ])
      | inr e ↦
          elim (Option-cases (
            resolve_local_path tree file.components (slugify tree.unicode file.name file.id)
              (extension tree file.mime) taken file.id)) [
                | inl n ↦ ground arith
                | inr (path, n) ↦ elim (Option-cases (allocate_paths tree files (path ∷ taken))) [
                  | inl m ↦ ground arith
                  | inr (more, m) ↦
                      (let k : file_at file.id path ∷ more ≡ given = ground arith in
                        let (under, free) =
                          resolve_local_path_lem tree file.components
                            (slugify tree.unicode file.name file.id) (extension tree file.mime)
                            taken file.id path n in
                        subst (λ g. AreFresh tree (file ∷ files) g taken) k
                          (
                            e,
                            refl,
                            under,
                            free,
                            allocate_paths-AreFresh tree files (path ∷ taken) more m,
                          ))
                ]
              ]
    ]
