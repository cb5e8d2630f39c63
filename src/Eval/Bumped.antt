-- ===== src/Eval/Bumped.antt =====
-- What a change is that gate B is not asked about.
use mathlib.Core.Option.{some_inj}
use archiviste_nocilia.Prelude.{
  Text, true, false, ◌≡◌, refl, ◌⊎◌, inl, inr, some, List, [], ◌∷◌, All, strip, eq_of_text_eq,
  Bool-cases, Option-cases, none_not_some, Text-cases, ◌∙◌, ◌>>=◌,
}
use archiviste_nocilia.Parser.Followups.{splitlines_from}
use archiviste_nocilia.Eval.Bump.{
  Ran, printed, exited, breaks, Git, baseline_file, is_bump, get_merge_base, clean_paths,
  get_changed_files_since, is_baseline_only, compare_files, should_skip_gate_b,
}

-- A line of a diff that is blank or the path of the baseline.
abbrev pub IsBaselineLine : Text → Type 0
unfolding strip
IsBaselineLine line = (strip line ≡ []) ⊎ (strip line ≡ baseline_file)

-- The message of HEAD is that of a bump, and the diff from the base of the branch on names the baseline only.
abbrev pub IsBump : Git → Type 0
unfolding is_bump get_merge_base strip splitlines_from
IsBump git =
    (head : Text) × ((base : Text) × ((diff : Text) × ((git.subject ≡ printed head)
          × ((is_bump (strip (strip head)) ≡ true)
              × ((get_merge_base git git.merge_base ≡ some base)
                  × ((git.diff base ≡ printed diff)
                      × All IsBaselineLine (splitlines_from false [] (strip diff))))))))

no_paths : (lines : List Text) → clean_paths lines ≡ [] → All IsBaselineLine lines
unfolding strip
no_paths [] h = tt
no_paths (line ∷ lines) h = elim (Text-cases (strip line)) [
  | inl e ↦ (inl e, no_paths lines (rw e at h))
  | inr (c, s, e) ↦ (let k : (c ∷ s) ∷ clean_paths lines ≡ [] = rw e at h in cc)
]

only_one :
    (path : Text) (rest : List Text)
    → is_baseline_only (path ∷ rest) ≡ true
    → (path ≡ baseline_file) × (rest ≡ [])
only_one path [] h = (eq_of_text_eq path baseline_file h, refl)
only_one path (next ∷ rest) h = cc

one_path :
    (lines : List Text) → is_baseline_only (clean_paths lines) ≡ true → All IsBaselineLine lines
unfolding strip
one_path [] h = tt
one_path (line ∷ lines) h = elim (Text-cases (strip line)) [
  | inl e ↦ (inl e, one_path lines (rw e at h))
  | inr (c, s, e) ↦
      let (same, none_left) = only_one (c ∷ s) (clean_paths lines) (rw e at h) in
      (inr (e ∙ same), no_paths lines none_left)
]

module _ (git : Git) where
  -- What a diff shows where it is the baseline only.
  compared :
      (base : Text) (r : Ran)
      → git.diff base ≡ r
      → (get_changed_files_since git base >>= λ files. some (is_baseline_only files)) ≡ some true
      → (diff : Text) × ((r ≡ printed diff)
          × All IsBaselineLine (splitlines_from false [] (strip diff)))
  unfolding get_changed_files_since
  compared base (printed s) e h =
      (s, (refl, one_path (splitlines_from false [] (strip s)) (some_inj.0 (rw e at h))))
  compared base exited e h = absurd (none_not_some (rw e at h))
  compared base breaks e h = absurd (none_not_some (rw e at h))

  compare_files-IsBump :
      (head : Text)
      → git.subject ≡ printed head
      → is_bump (strip (strip head)) ≡ true
      → compare_files git ≡ some true
      → IsBump git
  unfolding get_merge_base get_changed_files_since IsBump
  compare_files-IsBump head e b h = elim (Option-cases (get_merge_base git git.merge_base)) [
    | inl x ↦ absurd (none_not_some (rw x at h))
    | inr (base, x) ↦
        let (diff, (d, lines)) = compared base (git.diff base) refl (rw x at h) in
        (head, (base, (diff, (e, (b, (x, (d, lines)))))))
  ]

  subject-IsBump : (r : Ran) → git.subject ≡ r → should_skip_gate_b git ≡ some true → IsBump git
  unfolding should_skip_gate_b
  subject-IsBump (printed head) e h = elim (Bool-cases (is_bump (strip (strip head)))) [
    | inl b ↦ compare_files-IsBump head e b (rw (e, b) at h)
    | inr b ↦ (let k : some false ≡ some true = rw (e, b) at h in absurd (no_true (some_inj.0 k)))
  ]
    where
      no_true : false ≡ true → ⊥
      no_true k = cc
  subject-IsBump exited e h = absurd (none_not_some (rw e at h))
  subject-IsBump breaks e h = absurd (none_not_some (rw e at h))

  pub should_skip_gate_b-IsBump : should_skip_gate_b git ≡ some true → IsBump git
  should_skip_gate_b-IsBump h = subject-IsBump git.subject refl h
