-- ===== src/Drive/Kept.antt =====
-- What a run writes and records of a rendered file, and that the next run then leaves it.
use mathlib.Core.Path.{subst}
use archiviste_nocilia.Prelude.{
  Text, true, false, ◌≡◌, ◌⊎◌, refl, inl, inr, Option, none, some, List, [], ◌∷◌, text_eq_refl,
  eq_of_text_eq, Bool-cases, Option-cases, arith,
}
use archiviste_nocilia.Drive.Frontmatter.{
  LoadedYaml, Dict, file_text, existing_dict, script_managed, build_ordered, write_gdoc,
}
use archiviste_nocilia.Drive.Sync.{
  StateEntry, SyncContext, Run, Disk, Outcome, finished, raised, aborted, then_do, entry_at,
  set_entry, keep_entry, gdoc_status_and_rename, write_text, old_frontmatter, write_over,
  signature_of, fresh_entry, is_unchanged, count_unchanged, write_and_keep, apply_status,
  apply_state,
}

entry_at-set_entry :
    (key : Text) (e : StateEntry) (es : List (Text × StateEntry))
    → entry_at key (set_entry key e es) ≡ some e
entry_at-set_entry key e [] = ground (arith, text_eq_refl key)
entry_at-set_entry key e (f ∷ es) = ground (arith, text_eq_refl key, entry_at-set_entry key e es)

write_gdoc-file_text :
    (load : Text → LoadedYaml) (dump : Dict → Text)
    (title source_id drive_path exported_at body : Text) (old_fm : Option Text) (content : Text)
    → write_gdoc load dump title source_id drive_path exported_at body old_fm ≡ some content
    → (front : Text) × (content ≡ file_text front body)
unfolding write_gdoc
write_gdoc-file_text load dump title source_id drive_path exported_at body old_fm content h =
    elim (Option-cases (existing_dict load old_fm)) [
      | inl e ↦ ground arith
      | inr (d, e) ↦ (
        dump (build_ordered d (script_managed title source_id drive_path exported_at)),
        ground arith,
      )
    ]

-- The entry of a key is one that the same path and body leave unchanged, and the disk is as it was or the
-- file of the path ends in the body.
abbrev pub IsKept : Text → Text → Text → Text → Disk → SyncContext → Type 0
IsKept key path signature body disk ctx =
    ((e : StateEntry) × (entry_at key ctx.new_state ≡ some e)
      × (e.content_signature ≡ signature)
      × (e.local_path ≡ path))
    × ((ctx.disk ≡ disk) ⊎ ((front : Text) × (ctx.disk path ≡ some (file_text front body))))

module _ (run : Run) (key path body : Text) (disk : Disk) where
  Settles : Outcome → Type 0
  Settles (finished ctx) = IsKept key path (signature_of run body) body disk ctx
  Settles (raised ctx) = Unit
  Settles (aborted ctx) = Unit

  then_do-Settles :
      (o : Outcome) (next : SyncContext → Outcome)
      → ((c : SyncContext) → Settles (next c))
      → Settles (then_do o next)
  unfolding Settles
  then_do-Settles (finished ctx) next h = h ctx
  then_do-Settles (raised ctx) next h = tt
  then_do-Settles (aborted ctx) next h = tt

  keeps : SyncContext → Outcome
  keeps c =
      finished (keep_entry key (fresh_entry run path (signature_of run body) (run.sha256 body)) c)

  write_text-Settles :
      (ctx : SyncContext) (content : Option Text)
      → ((t : Text) → content ≡ some t → (front : Text) × (t ≡ file_text front body))
      → Settles (then_do (write_text run path ctx content) keeps)
  unfolding Settles keeps
  write_text-Settles ctx none h = tt
  write_text-Settles ctx (some content) h = elim (Bool-cases (run.writes path)) [
    | inr w ↦ rw w tt
    | inl w ↦ rw w (
        let (front, e) = h content refl in
        let fresh = fresh_entry run path (signature_of run body) (run.sha256 body) in
        (
          (fresh, entry_at-set_entry key fresh ctx.new_state, refl, refl),
          inr (front, ground (arith, text_eq_refl path)),
        ))
  ]

  write_over-Settles :
      (title drive_path : Text) (ctx : SyncContext) (old : Option (Option Text))
      → Settles (then_do (write_over run path title key drive_path body ctx old) keeps)
  unfolding Settles
  write_over-Settles title drive_path ctx none = tt
  write_over-Settles title drive_path ctx (some old_fm) =
      write_text-Settles ctx (write_gdoc run.load run.dump title key drive_path run.now body old_fm)
        (write_gdoc-file_text run.load run.dump title key drive_path run.now body old_fm)

  apply_status-Settles :
      (title drive_path : Text) (existing : Option StateEntry) (ctx : SyncContext)
      → run.dry_run ≡ false
      → Settles (apply_status run key path title drive_path body existing ctx)
  unfolding keeps Settles
  apply_status-Settles title drive_path existing ctx real =
      then_do-Settles (gdoc_status_and_rename run path existing ctx)
        (write_and_keep run key path title drive_path body
          (fresh_entry run path (signature_of run body) (run.sha256 body)) existing)
        (λ c.
          rw real (write_over-Settles title drive_path c (old_frontmatter run path (c.disk path))))

  apply_state-Settles :
      (title drive_path : Text) (existing : Option StateEntry) (ctx : SyncContext)
      → run.dry_run ≡ false
      → ctx.disk ≡ disk
      → Settles (apply_state run key path title drive_path body existing ctx)
  unfolding apply_state Settles
  apply_state-Settles title drive_path none ctx real same =
      apply_status-Settles title drive_path none ctx real
  apply_state-Settles title drive_path (some e) ctx real same =
      elim (Bool-cases (is_unchanged run path (signature_of run body) (some e))) [
        | inl u ↦ rw u (
          (
            e,
            entry_at-set_entry key e ctx.new_state,
            eq_of_text_eq e.content_signature (signature_of run body) (ground arith),
            eq_of_text_eq e.local_path path (ground arith),
          ),
          inl same,
        )
        | inr u ↦ rw u (apply_status-Settles title drive_path (some e) ctx real)
      ]

-- A call that returns in a run that is not dry records an entry for the file, and either left the disk as it was or
-- wrote a file that ends in the body. Any later call with this entry, the same path, the same body
-- and the same digest of it, whatever the name and the folder are then, only counts the file as unchanged.
pub apply_state-again :
    (run later : Run) (key path title drive_path body : Text) (existing : Option StateEntry)
    (ctx ctx' : SyncContext) (name folder : Text) (c : SyncContext)
    → run.dry_run ≡ false
    → later.sha256 body ≡ run.sha256 body
    → apply_state run key path title drive_path body existing ctx ≡ finished ctx'
    → ((e : StateEntry) × (entry_at key ctx'.new_state ≡ some e)
        × (apply_state later key path name folder body (some e) c
            ≡ finished (count_unchanged later key e c)))
      × ((ctx'.disk ≡ ctx.disk) ⊎ ((front : Text) × (ctx'.disk path ≡ some (file_text front body))))
unfolding Settles apply_state
apply_state-again run later key path title drive_path body existing ctx ctx' name folder c real same
      e =
    let ((entry, at, signed, placed), left) =
      subst (Settles run key path body ctx.disk) e
        (apply_state-Settles run key path body ctx.disk title drive_path existing ctx real refl) in
    let unchanged : is_unchanged later path (signature_of later body) (some entry) ≡ true =
      rw signed (
        rw placed
          (rw same (ground (arith, text_eq_refl (signature_of run body), text_eq_refl path)))) in
    ((entry, at, rw unchanged refl), left)
