-- ===== src/Storage/Writers.antt =====
-- Many calls of `_read_modify_write` on one object, each a sequence of the calls of the client, and what they
-- are meant to be: appends at one moment each.
use archiviste_nocilia.Prelude.{
  ℕ, zero, suc, Bool, true, false, some, List, ◌∷◌, ◌++◌, map, if◌then◌else◌,
}
use archiviste_nocilia.Storage.{Object, Network, works, fails, appended, matches_generation}

-- Where a call is: before a download with attempts left, with the object it read, or at one of its ends. Whether a
-- failed upload has landed is not known to the caller.
pub data Phase : Type 0 where
  ready : ℕ → Phase
  holding : ℕ → Object → Phase
  succeeded refused : Phase
  unavailable : Bool → Phase

pub record Writer : Type 0 where
  pub block : List ℕ
  pub phase : Phase

-- The upload, under `if_generation_match`.
abbrev pub upload : Writer → ℕ → Object → Object → Network → Object × Writer
upload w n read o works =
    if matches_generation read.generation (some o)
    then (appended w.block read, record w { phase = succeeded })
    else (o, record w { phase = ready n })
upload w n read o (fails landed) =
    if landed
    then (if matches_generation read.generation (some o)
        then (appended w.block read, record w { phase = unavailable true })
        else (o, record w { phase = unavailable false }))
    else (o, record w { phase = unavailable false })

abbrev pub download : Writer → ℕ → Object → Network → Object × Writer
download w n o works = (o, record w { phase = holding n o })
download w n o (fails _) = (o, record w { phase = unavailable false })

abbrev pub advance_from : Writer → Phase → Object → Network → Object × Writer
advance_from w (ready zero) o net = (o, record w { phase = refused })
advance_from w (ready (suc n)) o net = download w n o net
advance_from w (holding n read) o net = upload w n read o net
advance_from w succeeded o net = (o, w)
advance_from w refused o net = (o, w)
advance_from w (unavailable landed) o net = (o, w)

-- The next call of one writer.
unfoldable pub advance : Writer → Object → Network → Object × Writer
advance w o net = advance_from w w.phase o net

pub record System : Type 0 where
  pub object : Object
  pub writers : List Writer

-- One call of one writer, with the others where they are.
pub data Step : System → System → Type 0 where
  calls :
      (o : Object) (before : List Writer) (w : Writer) (after : List Writer) (net : Network)
      → Step
          (record { object = o; writers = before ++ w ∷ after })
          (record { object = (advance w o net).0; writers = before ++ (advance w o net).1 ∷ after })

pub data Reaches : System → System → Type 0 where
  stays : (s : System) → Reaches s s
  steps : {s t u : System} → Reaches s t → Step t u → Reaches s u

-- What is meant: a text, and the blocks with whether they are in it.
pub record Log : Type 0 where
  pub text : List ℕ
  pub blocks : List (List ℕ × Bool)

pub data Appends : Log → Log → Type 0 where
  rests : (l : Log) → Appends l l
  appends :
      {l : Log} (text block : List ℕ) (before after : List (List ℕ × Bool))
      → Appends l (record { text = text; blocks = before ++ (block, false) ∷ after })
      → Appends l (record { text = text ++ block; blocks = before ++ (block, true) ∷ after })

abbrev pub has_landed : Phase → Bool
has_landed (ready n) = false
has_landed (holding n read) = false
has_landed succeeded = true
has_landed refused = false
has_landed (unavailable landed) = landed

abbrev pub block_of : Writer → List ℕ × Bool
block_of w = (w.block, has_landed w.phase)

abbrev pub log_of : System → Log
log_of s = record { text = s.object.content; blocks = map block_of s.writers }
