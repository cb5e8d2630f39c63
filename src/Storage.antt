-- ===== src/Storage.antt =====
-- workers/src/archiviste_workers/conversation/gcs_storage.py, `_read_modify_write`: a block is
-- appended to the object of a conversation while other writers work on it. A conversation has one
-- object, or none. The other writers move at every clock tick between two calls of the client; the calls that
-- fail do so at given ticks. The waits between two attempts are left out.
pub mod Append
pub mod Progress
pub mod Writers
pub mod Refines
mod Tests
use archiviste_nocilia.Prelude.{
  ℕ, zero, suc, ◌+◌, Text, Bool, true, false, Option, none, some, List, [], ◌∷◌, ◌++◌, eqb, length,
  if◌then◌else◌,
}

-- The bytes and the generation of the blob.
pub record Object : Type 0 where
  pub content : List ℕ
  pub generation : ℕ

-- How a call ends: well, or in an error of the transport. A failed upload may have reached the store.
pub data Network : Type 0 where
  works : Network
  fails : Bool → Network

-- What the client meets from tick to tick.
pub record World : Type 0 where
  pub others : ℕ → Option Object → Option Object
  pub download : ℕ → Network
  pub upload : ℕ → Network
  pub reload : ℕ → Network

-- The value returned, or the exception: ConversationObjectMissingError, StorageUnavailableError,
-- ConcurrentWriteError, and an error of the last call, which nothing catches.
pub data Written : Type 0 where
  written : ℕ → ℕ → Written
  object_missing storage_unavailable concurrent_write uncaught : Written

-- The block behind the object that was read; the store gives the next generation.
abbrev pub appended : List ℕ → Object → Object
appended block o = record { content = o.content ++ block; generation = o.generation + 1 }

-- `if_generation_match`
abbrev pub matches_generation : ℕ → Option Object → Bool
matches_generation generation none = eqb generation 0
matches_generation generation (some o) = eqb o.generation generation

-- `blob.reload()` and the return.
abbrev pub reloaded : Network → ℕ → Option Object → Written
reloaded (fails _) size s = uncaught
reloaded works size none = uncaught
reloaded works size (some o) = written o.generation size

-- `len(_RETRY_BACKOFF_SECONDS) + 1`
abbrev pub max_attempts : ℕ
max_attempts = 4

module _ (w : World) (block : List ℕ) where
  -- The upload of `current + block` at a tick: `read` is what was downloaded, `s` the store now,
  -- and `again` the attempts that are left.
  abbrev pub upload_at :
      ℕ → Object → Option Object → Network → Option Object × Written → Option Object × Written
  upload_at t read s works again =
      if matches_generation read.generation s
      then (
        w.others (t + 1) (some (appended block read)),
        reloaded (w.reload t) (length (read.content ++ block))
            (w.others (t + 1) (some (appended block read))),
      )
      else again
  upload_at t read s (fails landed) again =
      if landed
      then (
        (if matches_generation read.generation s then some (appended block read) else s),
        storage_unavailable,
      )
      else (s, storage_unavailable)

  abbrev pub attempt_at :
      ℕ → Option Object → Network → Option Object × Written → Option Object × Written
  attempt_at t s (fails _) again = (s, storage_unavailable)
  attempt_at t none works again = (none, object_missing)
  attempt_at t (some read) works again =
      upload_at t read (w.others t (some read)) (w.upload t) again

  -- The loop, by the attempts left.
  unfoldable pub attempts : ℕ → ℕ → Option Object → Option Object × Written
  attempts zero t s = (s, concurrent_write)
  attempts (suc n) t s =
      let again = attempts n (t + 2) (w.others (t + 1) (w.others t s)) in
      attempt_at t s (w.download t) again

  unfoldable pub read_modify_write : Option Object → Option Object × Written
  unfolding attempts
  read_modify_write s = attempts max_attempts 0 s

-- ConversationAlreadyExistsError, StorageUnavailableError, and an error of the last call.
pub data Created : Type 0 where
  created : ℕ → Created
  already_exists create_unavailable create_uncaught : Created

-- `blob.reload()` and the return of `_upload_header`.
abbrev pub created_of : Network → ℕ → Created
created_of works generation = created generation
created_of (fails _) generation = create_uncaught

-- `_upload_header`: the upload asks that there is no object, and a new object has a fresh generation.
-- The moves of other writers are those of the ticks around it.
unfoldable pub upload_header :
    Network → Network → ℕ → List ℕ → Option Object → Option Object × Created
upload_header works reload fresh header none =
    (some (record { content = header; generation = fresh }), created_of reload fresh)
upload_header works reload fresh header (some o) = (some o, already_exists)
upload_header (fails landed) reload fresh header none = (
  (if landed then some (record { content = header; generation = fresh }) else none),
  create_unavailable,
)
upload_header (fails landed) reload fresh header (some o) = (some o, create_unavailable)
