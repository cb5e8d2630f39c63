-- ===== src/Conversation/Course.antt =====
-- What can have happened to the object of a conversation while one turn is posted.
use mathlib.Core.Path.{subst}
use archiviste_nocilia.Prelude.{
  ℕ, ◌≤◌, true, false, ◌≡◌, ◌≢◌, ◌⊎◌, refl, inl, Option, none, some, List, arith,
}
use archiviste_nocilia.Storage.{
  Object, Network, Written, attempts, max_attempts, Created, upload_header,
}
use archiviste_nocilia.Storage.Append.{History, IsAppend, attempts-IsAppend}
use archiviste_nocilia.Conversation.Post.{
  Run, Appended, appended_at, append_error, append_crash, second_ends, after_heal, first_ends,
  append_block,
}

module _ (run : Run) (block : List ℕ) (header : List ℕ) where
  -- Moves of the other writers, stretches of ticks in which the block is appended to the object as it stands, with all moves of the others
  -- in between, and a new object with its header where there is none.
  pub data Course (s : Option Object) : ℕ → Option Object → Type 0 where
    begins : Course s 0 s
    moves :
        {n : ℕ} {s' : Option Object} (t : ℕ) → Course s n s' → Course s n (run.world.others t s')
    works :
        {s₁ s₂ : Option Object} {t n : ℕ} (from : ℕ)
        → Course s 0 s₁
        → History run.world block from s₁ t n s₂
        → Course s n s₂
    creates :
        {n : ℕ}
        → Course s n none
        → Course s n (some (record { content = header; generation = run.fresh }))

  -- An append that returns is one, an error of the storage may hide one, any other error hides none.
  abbrev pub AppendCounts : Appended → ℕ → Type 0
  AppendCounts (appended_at generation) n = n ≡ 1
  AppendCounts (append_error status code) n = (n ≡ 0) ⊎ ((status ≡ 503) × (n ≡ 1))
  AppendCounts append_crash n = n ≤ 1

  abbrev pub IsAppended : Option Object → Option Object × Appended → Type 0
  IsAppended s (s', outcome) = (n : ℕ) × AppendCounts outcome n × Course s n s'

  second_ends-IsAppended :
      (from : ℕ) (s s₁ : Option Object) (r : Option Object × Written)
      → Course s 0 s₁
      → IsAppend run.world block from s₁ r
      → IsAppended s (second_ends r)
  second_ends-IsAppended from s s₁ (o, Written.written generation size) c (n, e, (t, h)) =
      (n, e, works from c h)
  second_ends-IsAppended from s s₁ (o, Written.object_missing) c (n, e, (t, h)) =
      (n, omega arith, works from c h)
  second_ends-IsAppended from s s₁ (o, Written.storage_unavailable) c (n, e, (t, h)) =
      (n, ground arith, works from c h)
  second_ends-IsAppended from s s₁ (o, Written.concurrent_write) c (n, e, (t, h)) =
      (n, inl e, works from c h)
  second_ends-IsAppended from s s₁ (o, Written.uncaught) c (n, e, (t, h)) =
      (n, omega arith, works from c h)

  -- Making an object appends nothing.
  pub upload_header-Course :
      (s s₁ : Option Object) (upload reload : Network)
      → Course s 0 s₁
      → Course s 0 (upload_header upload reload run.fresh header s₁).0
  unfolding upload_header
  upload_header-Course s none Network.works reload c = creates c
  upload_header-Course s (some o) Network.works reload c = c
  upload_header-Course s none (Network.fails true) reload c = creates c
  upload_header-Course s none (Network.fails false) reload c = c
  upload_header-Course s (some o) (Network.fails landed) reload c = c

  module _
      (versioned : (t : ℕ) (o o' : Object)
        → run.world.others t (some o) ≡ some o'
        → o'.generation ≡ o.generation
        → o' ≡ o)
      (positive : (t : ℕ) (o : Object)
        → run.world.others t (some o) ≡ none
        → o.generation ≢ 0) where
    after_heal-IsAppended :
        (s : Option Object) (made : Option Object × Created)
        → Course s 0 made.0
        → IsAppended s (after_heal run block header made)
    after_heal-IsAppended s (o, Created.created generation) c =
        second_ends-IsAppended 10 s o (attempts run.world block max_attempts 10 o) c (
          attempts-IsAppend run.world block 10 versioned positive max_attempts 10 0 o o
            (omega arith) History.begins)
    after_heal-IsAppended s (o, Created.already_exists) c =
        second_ends-IsAppended 10 s o (attempts run.world block max_attempts 10 o) c (
          attempts-IsAppend run.world block 10 versioned positive max_attempts 10 0 o o
            (omega arith) History.begins)
    after_heal-IsAppended s (o, Created.create_unavailable) c = (0, inl refl, c)
    after_heal-IsAppended s (o, Created.create_uncaught) c = (0, omega arith, c)

    first_ends-IsAppended :
        (from : ℕ) (s s₁ : Option Object) (r : Option Object × Written)
        → Course s 0 s₁
        → IsAppend run.world block from s₁ r
        → IsAppended s (first_ends run block header r)
    first_ends-IsAppended from s s₁ (o, Written.written generation size) c (n, e, (t, h)) =
        (n, e, works from c h)
    first_ends-IsAppended from s s₁ (o, Written.object_missing) c (n, e, (t, h)) =
        after_heal-IsAppended s
          (upload_header run.heal_upload run.heal_reload run.fresh header (run.world.others 8 o))
          (upload_header-Course s (run.world.others 8 o) run.heal_upload run.heal_reload
            (moves 8 (subst (λ k. Course s k o) e (works from c h))))
    first_ends-IsAppended from s s₁ (o, Written.storage_unavailable) c (n, e, (t, h)) =
        (n, ground arith, works from c h)
    first_ends-IsAppended from s s₁ (o, Written.concurrent_write) c (n, e, (t, h)) =
        (n, inl e, works from c h)
    first_ends-IsAppended from s s₁ (o, Written.uncaught) c (n, e, (t, h)) =
        (n, omega arith, works from c h)

    pub append_block-IsAppended :
        (s s₁ : Option Object) → Course s 0 s₁ → IsAppended s (append_block run block header s₁)
    unfolding append_block
    append_block-IsAppended s s₁ c =
        first_ends-IsAppended 0 s s₁ (attempts run.world block max_attempts 0 s₁) c (
          attempts-IsAppend run.world block 0 versioned positive max_attempts 0 0 s₁ s₁
            (omega arith) History.begins)
