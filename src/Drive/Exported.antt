-- ===== src/Drive/Exported.antt =====
-- From the export into the ingestion: what the author wrote in the frontmatter of a file.
use mathlib.Core.Path.{subst}
use archiviste_nocilia.Prelude.{
  Text, true, false, ◌≡◌, refl, sym, ◌∙◌, ap, inl, Option, none, some, List, [], ◌++◌, codes,
  text_eq, is_empty, strip, ◌>>=◌,
}
use archiviste_nocilia.Ingest.Frontmatter.{
  Value, Loaded, is_access_tier, build_frontmatter, parsed, parse_frontmatter,
}
use archiviste_nocilia.Drive.Frontmatter.{
  Yaml, Dict, lookup, or_else, build_ordered, default_of, LoadedYaml, existing_dict, script_managed,
  file_text, write_gdoc,
}
use archiviste_nocilia.Drive.Merge.{build_ordered_lem}
use archiviste_nocilia.Drive.Fences.{is_front, file_text-roundtrip}

-- A value as the ingestion tells it apart.
abbrev pub value_of : Yaml → Value
value_of (Yaml.text t) = Value.string t
value_of (Yaml.texts ts) = Value.strings ts
value_of (Yaml.flag b) = Value.scalar
value_of Yaml.null = Value.scalar
value_of Yaml.other = Value.scalar
value_of Yaml.mapped = Value.unhashable

abbrev pub value_at : Option Yaml → Option Value
value_at none = none
value_at (some y) = some (value_of y)

module _ (title source_id drive_path exported_at : Text) (existing : Dict) where
  abbrev built : Dict
  built = build_ordered existing (script_managed title source_id drive_path exported_at)

  built-title : lookup (codes "title") built ≡ some (Yaml.text title)
  unfolding lookup text_eq
  built-title =
      build_ordered_lem existing (script_managed title source_id drive_path exported_at)
        (codes "title") refl (inl refl)

  built-tags :
      lookup (codes "tags") built ≡ or_else (lookup (codes "tags") existing) (some (Yaml.texts []))
  unfolding lookup text_eq default_of
  built-tags =
      build_ordered_lem existing (script_managed title source_id drive_path exported_at)
        (codes "tags") refl (inl refl)

  built-access_tier :
      lookup (codes "access_tier") built
      ≡ or_else (lookup (codes "access_tier") existing) (some (Yaml.text (codes "public")))
  unfolding lookup text_eq default_of
  built-access_tier =
      build_ordered_lem existing (script_managed title source_id drive_path exported_at)
        (codes "access_tier") refl (inl refl)

-- If the text that YAML writes for the new frontmatter has no carriage return, ends in a line break and has no line `---`
-- behind its first, and the reader of the ingestion gives the dictionary back, then a file that the export writes
-- over another one is accepted by the ingestion, with the title of Drive, the tags and the tier of the file
-- that was there, or no tags and `public` where it had none, and the body that was exported. The tier
-- is a known one and the title is not blank.
pub write_gdoc-parse_frontmatter :
    (load_old : Text → LoadedYaml) (dump : Dict → Text) (load : Text → Loaded)
    → (title source_id drive_path exported_at body : Text) (old_fm : Option Text) (existing : Dict)
    → (tags : List Text) (tier yaml content : Text)
    → dump (build_ordered existing (script_managed title source_id drive_path exported_at))
      ≡ yaml ++ codes "\n"
    → is_front yaml ≡ true
    → load yaml
      ≡ Loaded.mapping (λ key. value_at (
          lookup key
            (build_ordered existing (script_managed title source_id drive_path exported_at))))
    → existing_dict load_old old_fm ≡ some existing
    → or_else (lookup (codes "tags") existing) (some (Yaml.texts [])) ≡ some (Yaml.texts tags)
    → or_else (lookup (codes "access_tier") existing) (some (Yaml.text (codes "public")))
      ≡ some (Yaml.text tier)
    → is_access_tier tier ≡ true
    → is_empty (strip title) ≡ false
    → write_gdoc load_old dump title source_id drive_path exported_at body old_fm ≡ some content
    → parse_frontmatter load content
      ≡ parsed (record { title = title; tags = tags; access_tier = tier }) body
unfolding write_gdoc parse_frontmatter build_frontmatter
write_gdoc-parse_frontmatter load_old dump load title source_id drive_path exported_at body old_fm
      existing tags tier yaml content dumps front loads e has_tags has_tier valid named written =
    let d = built title source_id drive_path exported_at existing in
    let h : some (file_text (dump d) body) ≡ some content =
      subst
        (λ o.
          (o >>= λ x. some (file_text (dump (built title source_id drive_path exported_at x)) body))
          ≡ some content)
        e written in
    let text : file_text (dump d) body ≡ content = cc in
    let same : file_text (yaml ++ codes "\n") body ≡ content =
      ap (λ x. file_text x body) (sym dumps) ∙ text in
    subst
      (λ x.
        parse_frontmatter load x
        ≡ parsed (record { title = title; tags = tags; access_tier = tier }) body)
      same
      (rw (file_text-roundtrip yaml body front).1 (
        rw loads (
          rw (built-title title source_id drive_path exported_at existing) (
            rw (built-tags title source_id drive_path exported_at existing ∙ has_tags) (
              rw (built-access_tier title source_id drive_path exported_at existing ∙ has_tier)
                (rw named (rw valid refl)))))))
