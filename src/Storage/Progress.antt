-- ===== src/Storage/Progress.antt =====
-- The append succeeds once the others leave the object alone.
use archiviste_nocilia.Prelude.{
  ℕ, zero, suc, ◌+◌, ◌*◌, ◌<◌, true, ◌≡◌, ◌∙◌, refl, ap, inl, inr, Option, some, List, ◌++◌, arith,
  Bool-cases, eqb_iff, length,
}
use archiviste_nocilia.Storage.{
  Object, Network, World, Written, appended, matches_generation, upload_at, attempts, max_attempts,
  read_modify_write,
}

-- The call returns.
abbrev pub Returns : Option Object × Written → Type 0
Returns (s, outcome) = (generation : ℕ) × (size : ℕ) × (outcome ≡ Written.written generation size)

module _ (w : World) (block : List ℕ) (downloads : (t : ℕ) → w.download t ≡ Network.works)
    (uploads : (t : ℕ) → w.upload t ≡ Network.works)
    (reloads : (t : ℕ) → w.reload t ≡ Network.works)
    (stays : (t : ℕ) (o : Object) → (o' : Object) × (w.others t (some o) ≡ some o')) where
  upload_at-matching :
      (t : ℕ) (read : Object) (s : Option Object) (again : Option Object × Written)
      → matches_generation read.generation s ≡ true
      → Returns (upload_at w block t read s (w.upload t) again)
  upload_at-matching t read s again h =
      let (after, e) = stays (t + 1) (appended block read) in
      rw (uploads t)
        (rw h (rw (reloads t) (rw e (after.generation, length (read.content ++ block), refl))))

  attempts-Returns :
      (k n t : ℕ) (o : Object)
      → k < n
      → ((p : Object) → w.others (t + 2 * k) (some p) ≡ some p)
      → Returns (attempts w block n t (some o))
  unfolding attempts
  attempts-Returns k zero t o h quiet = absurd (omega arith)
  attempts-Returns zero (suc n) t o h quiet =
      let still : w.others t (some o) ≡ some o =
        ap (λ u. w.others u (some o)) (omega arith) ∙ quiet o in
      rw (downloads t) (
        upload_at-matching t o (w.others t (some o))
          (attempts w block n (t + 2) (w.others (t + 1) (w.others t (some o))))
          (ap (matches_generation o.generation) still ∙ (eqb_iff o.generation o.generation).1 refl))
  attempts-Returns (suc k) (suc n) t o h quiet =
      let (o', e) = stays t o in
      let (o'', e') = stays (t + 1) o' in
      let moved : w.others (t + 1) (w.others t (some o)) ≡ some o'' =
        ap (w.others (t + 1)) e ∙ e' in
      let rest : Returns (attempts w block n (t + 2) (w.others (t + 1) (w.others t (some o)))) =
        rw moved (
          attempts-Returns k n (t + 2) o'' (omega arith)
            (λ p. ap (λ u. w.others u (some p)) (omega arith) ∙ quiet p)) in
      rw (downloads t) (elim (Bool-cases (matches_generation o.generation (w.others t (some o)))) [
        | inl m ↦
            upload_at-matching t o (w.others t (some o))
              (attempts w block n (t + 2) (w.others (t + 1) (w.others t (some o)))) m
        | inr m ↦ rw (uploads t) (rw m rest)
      ])

  -- If no call fails and the object stays, the call returns as soon as there is one attempt of the
  -- four at whose upload the others leave the object alone.
  pub read_modify_write-Returns :
      (k : ℕ) (o : Object)
      → k < 4
      → ((p : Object) → w.others (2 * k) (some p) ≡ some p)
      → Returns (read_modify_write w block (some o))
  unfolding read_modify_write
  read_modify_write-Returns k o h quiet =
      attempts-Returns k max_attempts 0 o h
        (λ p. ap (λ u. w.others u (some p)) (omega arith) ∙ quiet p)
