-- ===== src/Eval/Clients.antt =====
-- eval/clients.py: the requests to the workers, tried again while they fail for a moment. The server is a function from the number of the
-- attempt to what comes back; the waits are seconds.
use archiviste_nocilia.Prelude.{
  ℕ, zero, suc, ◌+◌, ◌*◌, Text, Bool, true, false, ◌&&◌, ◌||◌, ◌≡◌, refl, Option, none, some, List,
  [], ◌∷◌, eqb, leb, codes, if◌then◌else◌,
}
use archiviste_nocilia.Prelude.Integers.{read_int}
use archiviste_nocilia.Eval.{EntryStatus, timeout, upstream_error, malformed}

-- The JSON of a response: what it is read as, a KeyError, ValueError or TypeError, or another error.
pub data Decoded (A : Type 0) : Type 0 where
  decoded : A → Decoded A
  undecodable escapes : Decoded A

pub record Response (A : Type 0) : Type 0 where
  pub status_code : ℕ
  pub retry_after : Option Text
  pub body : Decoded A

-- How `httpx.post` ends: a response, a TimeoutException, or another HTTPError.
pub data Reply (A : Type 0) : Type 0 where
  replied : Response A → Reply A
  timed_out broken : Reply A

-- A response, an `EntryError`, or the ValueError or OverflowError of a sleep.
pub data Posted (A : Type 0) : Type 0 where
  responded : Response A → Posted A
  failed : EntryStatus → Posted A
  crashed : Posted A

-- The end of the loop, with the requests that it took and its waits.
pub record Trace (A : Type 0) : Type 0 where
  pub result : Posted A
  pub posts : ℕ
  pub waits : List ℕ

abbrev pub retry_max_attempts : ℕ
retry_max_attempts = 4

-- `_RETRY_STATUSES`
unfoldable pub is_retried : ℕ → Bool
is_retried s = eqb s 429 || (eqb s 500 || (eqb s 502 || (eqb s 503 || eqb s 504)))

-- `_backoff_seconds`
unfoldable pub backoff_seconds : ℕ → ℕ
backoff_seconds zero = 1
backoff_seconds (suc attempt) = 2 * backoff_seconds attempt

-- The longest wait that `time.sleep` takes: 63 bits of nanoseconds.
abbrev pub longest_sleep : ℕ
longest_sleep = 9223372036

-- The wait, or `none` for one that is negative or too long: `_retry_after_seconds(resp) or _backoff_seconds(attempt)`.
abbrev pub wait_for : ℕ → Option (Bool × ℕ) → Option ℕ
wait_for attempt none = some (backoff_seconds attempt)
wait_for attempt (some (minus, zero)) = some (backoff_seconds attempt)
wait_for attempt (some (true, suc n)) = none
wait_for attempt (some (false, suc n)) = if leb (suc n) longest_sleep then some (suc n) else none

abbrev pub header_seconds : Option Text → Option (Bool × ℕ)
header_seconds none = none
header_seconds (some header) = read_int header

unfoldable pub wait_seconds : ℕ → Option Text → Option ℕ
unfolding backoff_seconds read_int
wait_seconds attempt header = wait_for attempt (header_seconds header)

module _ {A : Type 0} where
  abbrev pub end_with : Posted A → Trace A
  end_with result = record { result = result; posts = 1; waits = [] }

  abbrev pub again : Option ℕ → Trace A → Trace A
  again none rest = end_with crashed
  again (some wait) rest = record rest { posts = rest.posts + 1; waits = wait ∷ rest.waits }

  -- One turn of the loop with `n` attempts behind it, and the trace of these. No time is waited behind the last one.
  abbrev pub attempt_once : ℕ → ℕ → Trace A → Reply A → Trace A
  attempt_once zero attempt rest timed_out = end_with (failed timeout)
  attempt_once (suc n) attempt rest timed_out = again (some (backoff_seconds attempt)) rest
  attempt_once n attempt rest broken = end_with (failed upstream_error)
  attempt_once n attempt rest (replied r) =
      if is_retried r.status_code
      then retried n (wait_seconds attempt r.retry_after)
      else end_with (responded r)
    where
      retried : ℕ → Option ℕ → Trace A
      retried zero wait = end_with (failed upstream_error)
      retried (suc n) wait = again wait rest

  -- The loop from one attempt on, with `n` more behind it.
  unfoldable pub attempts_from : (ℕ → Reply A) → ℕ → ℕ → Trace A
  unfolding is_retried wait_seconds
  attempts_from server zero attempt = attempt_once zero attempt (end_with crashed) (server attempt)
  attempts_from server (suc n) attempt =
      attempt_once (suc n) attempt (attempts_from server n (attempt + 1)) (server attempt)

  -- `_post_with_retry`
  unfoldable pub post_with_retry : (ℕ → Reply A) → Trace A
  unfolding attempts_from
  post_with_retry server = attempts_from server 3 0

-- What a client gives back: a value, an `EntryError`, or an error that leaves it.
pub data Answer (A : Type 0) : Type 0 where
  answered : A → Answer A
  entry_error : EntryStatus → Answer A
  raises : Answer A

abbrev pub is_success : ℕ → Bool
is_success s = leb 200 s && leb s 299

abbrev pub decode_body : {A : Type 0} → Decoded A → Answer A
decode_body (decoded a) = answered a
decode_body undecodable = entry_error malformed
decode_body escapes = raises

abbrev pub read_posted : {A : Type 0} → Posted A → Answer A
read_posted (responded r) =
    if is_success r.status_code then decode_body r.body else entry_error upstream_error
read_posted (failed status) = entry_error status
read_posted crashed = raises

-- `RetrieveClient.search` and `GenerateClient.generate`, which differ in what they send and how they read the body.
unfoldable pub call_workers : {A : Type 0} → (ℕ → Reply A) → Answer A
unfolding post_with_retry
call_workers server = read_posted (post_with_retry server).result

waits_then_reads :
    (post_with_retry (λ n.
      if eqb n 0
      then timed_out
      else if eqb n 1
      then replied
          (record { status_code = 429; retry_after = some (codes " 30"); body = decoded tt })
      else replied (record { status_code = 200; retry_after = none; body = decoded tt }))).waits
    ≡ 1 ∷ 30 ∷ []
unfolding post_with_retry read_int
waits_then_reads = refl
