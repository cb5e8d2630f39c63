-- ===== src/Drive/Slugged.antt =====
-- What a slug looks like, and that a slug of a slug is itself.
use archiviste_nocilia.Prelude.{
  Text-cases, ℕ, zero, suc, ◌≤◌, Text, Bool, true, false, not, ◌&&◌, ◌≡◌, ◌⊎◌, refl, ◌∙◌, ap, inl,
  inr, [], ◌∷◌, ◌++◌, map, filter, take, eqb, if◌then◌else◌, codes, arith, strip_by, lstrip_by,
  rstrip_by, length, Bool-cases,
}
use archiviste_nocilia.Drive.Slugs.{
  Unicode, max_len, translate_dash, is_alnum, replace_runs, collapse, is_dash, or_file, slug_of,
  slugify,
}

-- Letters, digits and dashes, with no two dashes together; the flag tells that a dash is in front.
unfoldable pub is_spaced : Bool → Text → Bool
unfolding is_alnum
is_spaced behind [] = true
is_spaced behind (c ∷ s) =
    let out = is_spaced false s in
    let inside = is_spaced true s in if eqb c 45 then not behind && inside else is_alnum c && out

-- The same, with no dash at the end.
unfoldable pub is_closed : Bool → Text → Bool
unfolding is_alnum
is_closed behind [] = not behind
is_closed behind (c ∷ s) =
    let out = is_closed false s in
    let inside = is_closed true s in if eqb c 45 then not behind && inside else is_alnum c && out

-- `^[a-z0-9]+(-[a-z0-9]+)*$`
unfoldable pub is_slug : Text → Bool
unfolding is_closed
is_slug = is_closed true

replace_runs-spaced : (b : Bool) (s : Text) → is_spaced b (replace_runs b s) ≡ true
unfolding is_spaced replace_runs
replace_runs-spaced b [] = refl
replace_runs-spaced b (c ∷ s) =
    ground (arith, replace_runs-spaced true s, replace_runs-spaced false s)

collapse-spaced : (b : Bool) (s : Text) → is_spaced b s ≡ true → collapse b s ≡ s
unfolding is_spaced collapse
collapse-spaced b [] h = refl
collapse-spaced b (c ∷ s) h = ground (arith, collapse-spaced true s, collapse-spaced false s)

lstrip-spaced :
    (b : Bool) (s : Text) → is_spaced b s ≡ true → is_spaced true (lstrip_by is_dash s) ≡ true
unfolding is_spaced lstrip_by
lstrip-spaced b [] h = refl
lstrip-spaced b (c ∷ s) h = ground (arith, lstrip-spaced true s)

take-spaced : (b : Bool) (n : ℕ) (s : Text) → is_spaced b s ≡ true → is_spaced b (take n s) ≡ true
unfolding is_spaced
take-spaced b zero s h = refl
take-spaced b (suc n) [] h = refl
take-spaced b (suc n) (c ∷ s) h = ground (arith, take-spaced true n s, take-spaced false n s)

-- `rstrip` drops a dash only where nothing is left behind it.
rstrip-cons :
    (c : ℕ) (s : Text)
    → (rstrip_by is_dash (c ∷ s) ≡ c ∷ rstrip_by is_dash s)
      ⊎ ((rstrip_by is_dash s ≡ []) × (rstrip_by is_dash (c ∷ s) ≡ []) × (is_dash c ≡ true))
unfolding rstrip_by
rstrip-cons c s = elim (Text-cases (rstrip_by is_dash s)) [
  | inl e ↦
      rw e (elim (Bool-cases (is_dash c)) [
        | inl k ↦ inr (refl, rw k refl, k)
        | inr k ↦ inl (rw k refl)
      ])
  | inr (d, t, e) ↦ rw e (inl refl)
]

rstrip-spaced :
    (b : Bool) (s : Text) → is_spaced b s ≡ true → is_spaced b (rstrip_by is_dash s) ≡ true
unfolding is_spaced rstrip_by
rstrip-spaced b [] h = refl
rstrip-spaced b (c ∷ s) h =
    ground (arith, rstrip-cons c s, rstrip-spaced true s, rstrip-spaced false s)

rstrip-closed :
    (b : Bool) (s : Text)
    → is_spaced b s ≡ true
    → (rstrip_by is_dash s ≡ []) ⊎ (is_closed b (rstrip_by is_dash s) ≡ true)
unfolding is_spaced is_closed rstrip_by
rstrip-closed b [] h = inl refl
rstrip-closed b (c ∷ s) h =
    ground (arith, rstrip-cons c s, rstrip-closed true s, rstrip-closed false s)

lstrip-length : (s : Text) → length (lstrip_by is_dash s) ≤ length s
unfolding lstrip_by
lstrip-length [] = omega arith
lstrip-length (c ∷ s) = ground (arith, lstrip-length s)

rstrip-length : (s : Text) → length (rstrip_by is_dash s) ≤ length s
unfolding rstrip_by
rstrip-length [] = omega arith
rstrip-length (c ∷ s) = ground (arith, rstrip-cons c s, rstrip-length s)

length-take : (n : ℕ) (s : Text) → length (take n s) ≤ n
length-take zero s = omega arith
length-take (suc n) [] = omega arith
length-take (suc n) (c ∷ s) = omega (arith, length-take n s)

slug_of-IsSlug :
    (s : Text) → ((slug_of s ≡ []) ⊎ (is_slug (slug_of s) ≡ true)) × (length (slug_of s) ≤ max_len)
unfolding slug_of strip_by is_slug
slug_of-IsSlug s =
    let run = replace_runs false s in
    let one = lstrip_by is_dash (collapse false run) in
    let cut = take max_len (rstrip_by is_dash one) in
    let spaced : is_spaced false (collapse false run) ≡ true =
      ap (is_spaced false) (collapse-spaced false run (replace_runs-spaced false s))
      ∙ replace_runs-spaced false s in
    let kept : is_spaced true cut ≡ true =
      take-spaced true max_len (rstrip_by is_dash one)
        (rstrip-spaced true one (lstrip-spaced false (collapse false run) spaced)) in
    (
      rstrip-closed true (lstrip_by is_dash cut) (lstrip-spaced true cut kept),
      omega (
        arith,
        rstrip-length (lstrip_by is_dash cut),
        lstrip-length cut,
        length-take max_len (rstrip_by is_dash one),
      ),
    )

-- A slug is at each step as it was.
closed-spaced : (b : Bool) (s : Text) → is_closed b s ≡ true → is_spaced b s ≡ true
unfolding is_spaced is_closed
closed-spaced b [] h = refl
closed-spaced b (c ∷ s) h = ground (arith, closed-spaced true s, closed-spaced false s)

replace_runs-same : (b : Bool) (s : Text) → is_spaced b s ≡ true → replace_runs b s ≡ s
unfolding is_spaced replace_runs is_alnum
replace_runs-same b [] h = refl
replace_runs-same b (c ∷ s) h = ground (arith, replace_runs-same true s, replace_runs-same false s)

translate-same : (b : Bool) (s : Text) → is_spaced b s ≡ true → map translate_dash s ≡ s
unfolding is_spaced is_alnum
translate-same b [] h = refl
translate-same b (c ∷ s) h = ground (arith, translate-same true s, translate-same false s)

lstrip-same : (s : Text) → is_closed true s ≡ true → lstrip_by is_dash s ≡ s
unfolding is_closed lstrip_by
lstrip-same [] h = refl
lstrip-same (c ∷ s) h = ground arith

rstrip-same : (b : Bool) (s : Text) → is_closed b s ≡ true → rstrip_by is_dash s ≡ s
unfolding is_closed rstrip_by
rstrip-same b [] h = refl
rstrip-same b (c ∷ s) h = ground (arith, rstrip-cons c s, rstrip-same true s, rstrip-same false s)

take-same : (n : ℕ) (s : Text) → length s ≤ n → take n s ≡ s
take-same zero [] h = refl
take-same zero (c ∷ s) h = absurd (omega arith)
take-same (suc n) [] h = refl
take-same (suc n) (c ∷ s) h = ground (arith, take-same n s)

spaced-behind : (s : Text) → is_spaced true s ≡ true → is_spaced false s ≡ true
unfolding is_spaced
spaced-behind [] h = refl
spaced-behind (c ∷ s) h = ground arith

slug_of-same : (s : Text) → is_slug s ≡ true → length s ≤ max_len → slug_of s ≡ s
unfolding slug_of strip_by is_slug
slug_of-same s h short =
    let spaced : is_spaced false s ≡ true = spaced-behind s (closed-spaced true s h) in
    rw (replace_runs-same false s spaced) (
      rw (collapse-spaced false s spaced) (
        rw (lstrip-same s h) (
          rw (rstrip-same true s h)
            (rw (take-same max_len s short) (rw (lstrip-same s h) (rstrip-same true s h))))))

or_file-IsSlug :
    (s id : Text)
    → ((s ≡ []) ⊎ (is_slug s ≡ true)) × (length s ≤ max_len)
    → (or_file s id ≡ codes "file-" ++ take 8 id)
      ⊎ ((is_slug (or_file s id) ≡ true) × (length (or_file s id) ≤ max_len))
or_file-IsSlug [] id h = inl refl
or_file-IsSlug (c ∷ s) id (inl e, short) = ground arith
or_file-IsSlug (c ∷ s) id (inr e, short) = inr (e, short)

or_file-slug : (s id : Text) → is_slug s ≡ true → or_file s id ≡ s
unfolding is_slug is_closed
or_file-slug [] id h = ground arith
or_file-slug (c ∷ s) id h = refl

-- Whatever the name, what `slugify` gives is the fallback of the id, or a slug: words of letters and digits with single dashes between
-- them, at most 80 characters, so with no dot and no slash.
pub slugify-IsSlug :
    (u : Unicode) (text id : Text)
    → (slugify u text id ≡ codes "file-" ++ take 8 id)
      ⊎ ((is_slug (slugify u text id) ≡ true) × (length (slugify u text id) ≤ max_len))
unfolding slugify
slugify-IsSlug u text id =
    let lowered = u.lower (filter (λ c. not (u.is_mn c)) (u.nfkd (map translate_dash text))) in
    or_file-IsSlug (slug_of lowered) id (slug_of-IsSlug lowered)

slugify-slug :
    (u : Unicode)
    → ((s : Text) → is_slug s ≡ true → u.lower (filter (λ c. not (u.is_mn c)) (u.nfkd s)) ≡ s)
    → (s id : Text) → is_slug s ≡ true
    → length s ≤ max_len
    → slugify u s id ≡ s
unfolding slugify is_slug
slugify-slug u ascii s id h short =
    rw (translate-same true s (closed-spaced true s h))
      (rw (ascii s h) (rw (slug_of-same s h short) (or_file-slug s id h)))

-- Where normalization and lower case leave a slug as it is, slugifying a name twice, as `resolve_local_path` does, is
-- slugifying it once, unless the first gives the fallback.
pub slugify-twice :
    (u : Unicode)
    → ((s : Text) → is_slug s ≡ true → u.lower (filter (λ c. not (u.is_mn c)) (u.nfkd s)) ≡ s)
    → (text id other : Text)
    → (slugify u text id ≡ codes "file-" ++ take 8 id)
      ⊎ (slugify u (slugify u text id) other ≡ slugify u text id)
slugify-twice u ascii text id other = elim (slugify-IsSlug u text id) [
  | inl e ↦ inl e
  | inr (h, short) ↦ inr (slugify-slug u ascii (slugify u text id) other h short)
]
