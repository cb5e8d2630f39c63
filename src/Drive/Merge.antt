-- ===== src/Drive/Merge.antt =====
-- Where each key of an exported frontmatter comes from.
use mathlib.Core.Path.{subst}
use archiviste_nocilia.Prelude.{
  Text, Bool, true, false, ◌||◌, Option, none, some, List, [], ◌∷◌, text_eq, if◌then◌else◌, codes,
  ◌≡◌, ◌⊎◌, refl, sym, ◌∙◌, ap, inl, inr, arith, Bool-cases, Option-cases, eq_of_text_eq,
}
use archiviste_nocilia.Drive.Frontmatter.{
  Yaml, Dict, lookup, set_key, is_some, has_key, fm_key_order, default_of, or_else, put, chosen,
  fill, add_extra, is_null, remove_key, drop_null, build_ordered,
}

lookup-set_key :
    (key other : Text) (value : Yaml) (d : Dict)
    → lookup other (set_key key value d)
      ≡ (if text_eq key other then some value else lookup other d)
unfolding lookup set_key
lookup-set_key key other value [] = refl
lookup-set_key key other value (e ∷ d) = elim (Bool-cases (text_eq e.0 key)) [
  | inl k ↦
      (let same : text_eq e.0 other ≡ text_eq key other =
          ap (λ x. text_eq x other) (eq_of_text_eq e.0 key k) in
        ground (arith, same))
  | inr k ↦ elim (Bool-cases (text_eq key other)) [
    | inl l ↦
        (let same : text_eq e.0 key ≡ text_eq e.0 other =
            ap (λ x. text_eq e.0 x) (eq_of_text_eq key other l) in
          ground (arith, same, lookup-set_key key other value d))
    | inr l ↦ ground (arith, lookup-set_key key other value d)
  ]
]

lookup-remove_key :
    (key other : Text) (d : Dict)
    → text_eq other key ≡ false
    → lookup other (remove_key key d) ≡ lookup other d
unfolding lookup remove_key
lookup-remove_key key other [] h = refl
lookup-remove_key key other (e ∷ d) h = elim (Bool-cases (text_eq e.0 other)) [
  | inl k ↦
      (let same : text_eq e.0 key ≡ false =
          ap (λ x. text_eq x key) (eq_of_text_eq e.0 other k) ∙ h in
        ground (arith, same))
  | inr k ↦ ground (arith, lookup-remove_key key other d h)
]

-- Whether a key is among keys.
abbrev pub among : Text → List Text → Bool
among key [] = false
among key (k ∷ ks) = text_eq k key || among key ks

module _ (existing script : Dict) where
  lookup-put :
      (key other : Text) (v : Option Yaml) (d : Dict)
      → lookup other (put key v d)
        ≡ (if text_eq key other then or_else v (lookup other d) else lookup other d)
  lookup-put key other none d = elim (Bool-cases (text_eq key other)) [
    | inl e ↦ rw e refl
    | inr e ↦ rw e refl
  ]
  lookup-put key other (some v) d = lookup-set_key key other v d

  or_else-same : (o c : Option Yaml) → (o ≡ none) ⊎ (o ≡ c) → or_else c o ≡ c
  or_else-same o none (inl h) = h
  or_else-same o none (inr h) = h
  or_else-same o (some v) h = refl

  lookup-put-same :
      (other : Text) (d : Dict)
      → (lookup other d ≡ none) ⊎ (lookup other d ≡ chosen existing script other)
      → (key : Text) → text_eq key other ≡ true
      → lookup other (put key (chosen existing script key) d) ≡ chosen existing script other
  lookup-put-same other d h key e =
      let same : chosen existing script key ≡ chosen existing script other =
        ap (chosen existing script) (eq_of_text_eq key other e) in
      let now : lookup other (put key (chosen existing script key) d)
          ≡ or_else (chosen existing script key) (lookup other d) =
        ground (arith, lookup-put key other (chosen existing script key) d) in
      now
      ∙ (ap (λ c. or_else c (lookup other d)) same
          ∙ or_else-same (lookup other d) (chosen existing script other) h)

  -- What is chosen for a key overwrites, or is what was there.
  lookup-fill :
      (keys : List Text) (other : Text) (d : Dict)
      → (lookup other d ≡ none) ⊎ (lookup other d ≡ chosen existing script other)
      → lookup other (fill existing script keys d)
        ≡ (if among other keys then chosen existing script other else lookup other d)
  unfolding fill
  lookup-fill [] other d h = refl
  lookup-fill (key ∷ keys) other d h = elim (Bool-cases (text_eq key other)) [
    | inl e ↦
        (let now : lookup other (put key (chosen existing script key) d)
              ≡ chosen existing script other =
            lookup-put-same other d h key e in
          ground
            (arith, now, lookup-fill keys other (put key (chosen existing script key) d) (inr now)))
    | inr e ↦
        (let kept : lookup other (put key (chosen existing script key) d) ≡ lookup other d =
            ground (arith, lookup-put key other (chosen existing script key) d) in
          ground (
            arith,
            kept,
            lookup-fill keys other (put key (chosen existing script key) d)
                (subst (λ x. (x ≡ none) ⊎ (x ≡ chosen existing script other)) (sym kept) h),
          ))
  ]

module _ (script : Dict) where
  next : Text × Yaml → Dict → Dict
  next e d = if has_key e.0 d || has_key e.0 script then d else set_key e.0 e.1 d

  lookup-next-same :
      (e : Text × Yaml) (other : Text) (d : Dict)
      → text_eq e.0 other ≡ true
      → lookup other (next e d)
        ≡ or_else (lookup other d) (if has_key other script then none else some e.1)
  unfolding next has_key
  lookup-next-same e other d k =
      let here : is_some (lookup e.0 d) ≡ is_some (lookup other d) =
        ap (λ x. is_some (lookup x d)) (eq_of_text_eq e.0 other k) in
      let there : is_some (lookup e.0 script) ≡ is_some (lookup other script) =
        ap (λ x. is_some (lookup x script)) (eq_of_text_eq e.0 other k) in
      elim (Option-cases (lookup other d)) [
        | inl n ↦ ground (arith, here, there, n, lookup-set_key e.0 other e.1 d)
        | inr (v, n) ↦ ground (arith, here, there, n)
      ]

  lookup-next-other :
      (e : Text × Yaml) (other : Text) (d : Dict)
      → text_eq e.0 other ≡ false
      → lookup other (next e d) ≡ lookup other d
  unfolding next
  lookup-next-other e other d k = ground (arith, lookup-set_key e.0 other e.1 d)

  lookup-add_extra :
      (es : Dict) (other : Text) (d : Dict)
      → lookup other (add_extra script es d)
        ≡ or_else (lookup other d) (if has_key other script then none else lookup other es)
  unfolding add_extra has_key lookup next
  lookup-add_extra [] other d = elim (Option-cases (lookup other d)) [
    | inl e ↦ rw e (elim (Bool-cases (is_some (lookup other script))) [
      | inl k ↦ rw k refl
      | inr k ↦ rw k refl
    ])
    | inr (v, e) ↦ rw e refl
  ]
  lookup-add_extra (e ∷ es) other d = elim (Bool-cases (text_eq e.0 other)) [
    | inl k ↦ ground (arith, lookup-add_extra es other (next e d), lookup-next-same e other d k)
    | inr k ↦ ground (arith, lookup-add_extra es other (next e d), lookup-next-other e other d k)
  ]

-- A key without a place is no key with a place.
unplaced :
    (key other : Text)
    → among key fm_key_order ≡ false
    → among other fm_key_order ≡ true
    → text_eq key other ≡ false
unplaced key other h placed = elim (Bool-cases (text_eq key other)) [
  | inl e ↦
      (let same : among key fm_key_order ≡ among other fm_key_order =
          ap (λ k. among k fm_key_order) (eq_of_text_eq key other e) in
        cc)
  | inr e ↦ e
]

-- A key without a place in the order has no default.
default_of-extra : (key : Text) → among key fm_key_order ≡ false → default_of key ≡ none
unfolding default_of text_eq
default_of-extra key h = rw (unplaced key (codes "tags") h refl) (
    rw (unplaced key (codes "access_tier") h refl) (
      rw (unplaced key (codes "archived") h refl)
        (rw (unplaced key (codes "archived_at") h refl) refl)))

-- What is filled in and what is added make what is chosen, for a key that has a place or is not the script's.
filled-chosen :
    (placed : Bool) (script existing default filled : Option Yaml)
    → filled ≡ (if placed then or_else script (or_else existing default) else none)
    → (placed ≡ true) ⊎ (script ≡ none)
    → (placed ≡ true) ⊎ (default ≡ none)
    → or_else filled (if is_some script then none else existing)
      ≡ or_else script (or_else existing default)
filled-chosen true (some v) existing default filled f h k = rw f refl
filled-chosen true none (some v) default filled f h k = rw f refl
filled-chosen true none none (some v) filled f h k = rw f refl
filled-chosen true none none none filled f h k = rw f refl
filled-chosen false (some v) existing default filled f h k = ground arith
filled-chosen false none (some v) default filled f h k = rw f refl
filled-chosen false none none (some v) filled f h k = ground arith
filled-chosen false none none none filled f h k = rw f refl

lookup-drop_null :
    (key : Text) (d : Dict)
    → text_eq key (codes "archived_at") ≡ false
    → lookup key (drop_null d) ≡ lookup key d
unfolding lookup
lookup-drop_null key d h = elim (Bool-cases (is_null (lookup (codes "archived_at") d))) [
  | inl e ↦ rw e (lookup-remove_key (codes "archived_at") key d h)
  | inr e ↦ rw e refl
]

-- A frontmatter that is built holds at every key but `archived_at` the value of the script, else the one of the
-- file, else the default of the key, for a key that has a place in the order or that the script does not manage.
pub build_ordered_lem :
    (existing script : Dict) (key : Text)
    → text_eq key (codes "archived_at") ≡ false
    → (among key fm_key_order ≡ true) ⊎ (lookup key script ≡ none)
    → lookup key (build_ordered existing script)
      ≡ or_else (lookup key script) (or_else (lookup key existing) (default_of key))
unfolding build_ordered has_key chosen
build_ordered_lem existing script key h placed =
    let filled = fill existing script fm_key_order [] in
    lookup-drop_null key (add_extra script existing filled) h
    ∙ (lookup-add_extra script existing key filled
        ∙ filled-chosen (among key fm_key_order) (lookup key script) (lookup key existing)
            (default_of key) (lookup key filled)
            (lookup-fill existing script fm_key_order key [] (inl refl)) placed
            (elim (Bool-cases (among key fm_key_order)) [
              | inl a ↦ inl a
              | inr a ↦ inr (default_of-extra key a)
            ]))
