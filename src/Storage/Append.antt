-- ===== src/Storage/Append.antt =====
-- No write of another writer is lost, and the block is written at most once.
use mathlib.Core.Path.{subst}
use archiviste_nocilia.Prelude.{
  ℕ, zero, suc, ◌+◌, ◌*◌, ◌≤◌, true, false, ◌≡◌, ◌≢◌, ◌∙◌, Option-cases, refl, ap, inl, inr, Option,
  none, some, List, arith, Bool-cases,
}
use archiviste_nocilia.Storage.{
  Object, Network, World, Written, appended, matches_generation, reloaded, upload_at, attempt_at,
  attempts, max_attempts, read_modify_write,
}

module _ (w : World) (block : List ℕ) (from : ℕ) where
  -- What happens to a store from one tick on: the others move at every tick, none left out, and the block is only appended
  -- to the object as it stands behind the move between a download and its upload; the last counts are the next tick and
  -- the appends.
  pub data History (s : Option Object) : ℕ → ℕ → Option Object → Type 0 where
    begins : History s from 0 s
    moves : {t n : ℕ} {s' : Option Object} → History s t n s' → History s (t + 1) n (w.others t s')
    appends :
        {t n : ℕ} {o : Object} (attempt : ℕ)
        → t ≡ from + 2 * attempt + 1
        → History s t n (some o)
        → History s t (suc n) (some (appended block o))

  -- How many appends an outcome can have.
  abbrev pub Counts : Written → ℕ → Type 0
  Counts (Written.written generation size) n = n ≡ 1
  Counts Written.object_missing n = n ≡ 0
  Counts Written.concurrent_write n = n ≡ 0
  Counts Written.storage_unavailable n = n ≤ 1
  Counts Written.uncaught n = n ≡ 1

  abbrev pub IsAppend : Option Object → Option Object × Written → Type 0
  IsAppend s (s', outcome) = (n : ℕ) × Counts outcome n × ((t : ℕ) × History s t n s')

reloaded-Counts :
    (w : World) (block : List ℕ) (from : ℕ) (net : Network) (size : ℕ) (s : Option Object)
    → Counts w block from (reloaded net size s) 1
reloaded-Counts w block from (Network.fails _) size s = refl
reloaded-Counts w block from Network.works size none = refl
reloaded-Counts w block from Network.works size (some o) = refl

-- What the store promises: another writer that changes an object changes its generation, and the
-- generation of an object that is deleted is not 0.
module _ (w : World) (block : List ℕ) (from : ℕ)
    (versioned : (t : ℕ) (o o' : Object)
      → w.others t (some o) ≡ some o'
      → o'.generation ≡ o.generation
      → o' ≡ o)
    (positive : (t : ℕ) (o : Object) → w.others t (some o) ≡ none → o.generation ≢ 0) where
  -- An upload whose generation matches finds the object that was read.
  unmoved :
      (t : ℕ) (read : Object)
      → matches_generation read.generation (w.others t (some read)) ≡ true
      → w.others t (some read) ≡ some read
  unmoved t read h = elim (Option-cases (w.others t (some read))) [
    | inl e ↦ absurd (positive t read e (ground arith))
    | inr (o', e) ↦ e ∙ ap some (versioned t read o' e (ground arith))
  ]

  -- The object behind a move that kept it
  kept :
      (s₀ : Option Object) (t : ℕ) (read : Object)
      → History w block from s₀ t 0 (some read)
      → matches_generation read.generation (w.others t (some read)) ≡ true
      → History w block from s₀ (t + 1) 0 (some read)
  kept s₀ t read h e =
      subst (History w block from s₀ (t + 1) 0) (unmoved t read e) (History.moves h)

  upload_at-IsAppend :
      (s₀ : Option Object) (t attempt : ℕ) (read : Object) (net : Network)
      (again : Option Object × Written)
      → t ≡ from + 2 * attempt
      → History w block from s₀ t 0 (some read)
      → IsAppend w block from s₀ again
      → IsAppend w block from s₀ (upload_at w block t read (w.others t (some read)) net again)
  upload_at-IsAppend s₀ t attempt read Network.works again now h k =
      elim (Bool-cases (matches_generation read.generation (w.others t (some read)))) [
        | inl e ↦ rw e (
          1,
          reloaded-Counts w block from (w.reload t) _ _,
          (t + 1 + 1, History.moves (History.appends attempt (omega arith) (kept s₀ t read h e))),
        )
        | inr e ↦ rw e k
      ]
  upload_at-IsAppend s₀ t attempt read (Network.fails false) again now h k =
      (0, omega arith, (t + 1, History.moves h))
  upload_at-IsAppend s₀ t attempt read (Network.fails true) again now h k =
      elim (Bool-cases (matches_generation read.generation (w.others t (some read)))) [
        | inl e ↦
            rw e
              (1, omega arith, (t + 1, History.appends attempt (omega arith) (kept s₀ t read h e)))
        | inr e ↦ rw e (0, omega arith, (t + 1, History.moves h))
      ]

  attempt_at-IsAppend :
      (s₀ s : Option Object) (t attempt : ℕ) (net : Network) (again : Option Object × Written)
      → t ≡ from + 2 * attempt
      → History w block from s₀ t 0 s
      → IsAppend w block from s₀ again
      → IsAppend w block from s₀ (attempt_at w block t s net again)
  attempt_at-IsAppend s₀ s t attempt (Network.fails _) again now h k = (0, omega arith, (t, h))
  attempt_at-IsAppend s₀ none t attempt Network.works again now h k = (0, refl, (t, h))
  attempt_at-IsAppend s₀ (some read) t attempt Network.works again now h k =
      upload_at-IsAppend s₀ t attempt read (w.upload t) again now h k

  pub attempts-IsAppend :
      (n t attempt : ℕ) (s₀ s : Option Object)
      → t ≡ from + 2 * attempt
      → History w block from s₀ t 0 s
      → IsAppend w block from s₀ (attempts w block n t s)
  unfolding attempts
  attempts-IsAppend zero t attempt s₀ s now h = (0, refl, (t, h))
  attempts-IsAppend (suc n) t attempt s₀ s now h =
      attempt_at-IsAppend s₀ s t attempt (w.download t)
        (attempts w block n (t + 2) (w.others (t + 1) (w.others t s))) now h
        (attempts-IsAppend n (t + 2) (attempt + 1) s₀ (w.others (t + 1) (w.others t s))
          (omega arith)
          (subst (λ u. History w block from s₀ u 0 (w.others (t + 1) (w.others t s)))
            (let e : t + 1 + 1 ≡ t + 2 = omega arith in e) (History.moves (History.moves h))))

-- If other writers change the generation of an object that they change, and an object that is deleted has a generation other than 0, the store
-- ends behind all their moves, one for each tick and none left out, and behind appends of the block to the object as it stands: exactly one
-- append if the call returns, none if the object is missing or the attempts run out, at most one if the transport fails, and one if only
-- the last call fails.
pub read_modify_write-IsAppend :
    (w : World) (block : List ℕ)
    → ((t : ℕ) (o o' : Object)
        → w.others t (some o) ≡ some o'
        → o'.generation ≡ o.generation
        → o' ≡ o)
    → ((t : ℕ) (o : Object) → w.others t (some o) ≡ none → o.generation ≢ 0)
    → (s : Option Object) → IsAppend w block 0 s (read_modify_write w block s)
unfolding read_modify_write
read_modify_write-IsAppend w block versioned positive s =
    attempts-IsAppend w block 0 versioned positive max_attempts 0 0 s s (omega arith) History.begins
