-- ===== src/Eval/Retried.antt =====
-- How often a request is tried, and for how long.
use mathlib.Core.Path.{subst}
use mathlib.Core.Option.{some_inj}
use Prim.Native.Nat.{◌^◌}
use archiviste_nocilia.Prelude.Integers.{read_int}
use archiviste_nocilia.Prelude.{
  ◌∙◌, ◌≤◌, Text, none_not_some, leb, ℕ, zero, suc, ◌+◌, Bool, true, false, ◌≡◌, refl, sym, ap, ◌⊎◌,
  inl, inr, Option, none, some, List, [], ◌∷◌, length, Bool-cases, arith,
}
use archiviste_nocilia.Eval.{EntryStatus, timeout, upstream_error}
use archiviste_nocilia.Eval.Clients.{
  Reply, replied, timed_out, broken, Response, Posted, responded, failed, crashed, Trace,
  is_retried, wait_for, header_seconds, longest_sleep, wait_seconds, backoff_seconds, end_with,
  again, attempt_once, attempts_from, post_with_retry,
}

abbrev pub is_zero : ℕ → Bool
is_zero zero = true
is_zero (suc n) = false

-- The five statuses that are tried again.
abbrev pub IsRetriedStatus : ℕ → Type 0
IsRetriedStatus s = (s ≡ 429) ⊎ ((s ≡ 500) ⊎ ((s ≡ 502) ⊎ ((s ≡ 503) ⊎ (s ≡ 504))))

is_retried-IsRetriedStatus : (s : ℕ) → is_retried s ≡ true → IsRetriedStatus s
unfolding is_retried
is_retried-IsRetriedStatus s h = ground arith

is_retried-false : (s : ℕ) → is_retried s ≡ false → ¬ (IsRetriedStatus s)
unfolding is_retried
is_retried-false s h = ground arith

-- One, two, four seconds
backoff_seconds-pow : (attempt : ℕ) → 2 ^ attempt ≡ backoff_seconds attempt
unfolding backoff_seconds
backoff_seconds-pow zero = refl
backoff_seconds-pow (suc attempt) = omega (arith, backoff_seconds-pow attempt)

module _ {A : Type 0} where
  -- A failure of a moment: a timeout, or one of the five statuses.
  abbrev pub IsTransient : Reply A → Type 0
  IsTransient timed_out = Unit
  IsTransient broken = ⊥
  IsTransient (replied r) = IsRetriedStatus r.status_code

  abbrev pub status_of : Reply A → EntryStatus
  status_of timed_out = timeout
  status_of broken = upstream_error
  status_of (replied r) = upstream_error

  -- The whole number of seconds in a Retry-After, with its sign
  abbrev pub Asks : Response A → Bool × ℕ → Type 0
  Asks r seconds =
      (header : Text) × ((r.retry_after ≡ some header) × (read_int header ≡ some seconds))

  -- A reply that asks for no time: it has no Retry-After, or one that is no whole number, or zero.
  abbrev pub AsksNothing : Response A → Type 0
  AsksNothing r =
      (r.retry_after ≡ none)
      ⊎ (((header : Text) × ((r.retry_after ≡ some header) × (read_int header ≡ none)))
          ⊎ ((sign : Bool) × Asks r (sign, 0)))

  -- The wait behind a reply: the seconds that it asks for, which are some and can be slept, or one, two, four by the attempt.
  abbrev pub IsWait : ℕ → Reply A → ℕ → Type 0
  IsWait attempt timed_out wait = 2 ^ attempt ≡ wait
  IsWait attempt broken wait = ⊥
  IsWait attempt (replied r) wait =
      (Asks r (false, wait) × ((1 ≤ wait) × (wait ≤ 9223372036)))
      ⊎ (AsksNothing r × (2 ^ attempt ≡ wait))

  -- A reply that asks for a time that no sleep takes
  abbrev pub AsksTooMuch : Response A → Type 0
  AsksTooMuch r =
      (seconds : ℕ) × ((Asks r (true, seconds) × (1 ≤ seconds))
        ⊎ (Asks r (false, seconds) × (9223372037 ≤ seconds)))

  -- The loop has a wait for each reply before the last one, and each of these is transient.
  abbrev pub Waits : (ℕ → Reply A) → ℕ → List ℕ → Type 0
  Waits server attempt [] = Unit
  Waits server attempt (wait ∷ waits) =
      (IsTransient (server attempt) × IsWait attempt (server attempt) wait)
      × Waits server (attempt + 1) waits

  -- What the last reply has to do with the result: it is not transient, or it is the last one that is allowed, or it asks for a time that no sleep takes.
  abbrev pub EndsBy : ℕ → Bool → Reply A → Posted A → Type 0
  EndsBy attempt is_last reply (responded r) =
      (reply ≡ replied r) × ¬ (IsRetriedStatus r.status_code)
  EndsBy attempt is_last reply (failed status) =
      (status_of reply ≡ status) × ((reply ≡ broken) ⊎ (IsTransient reply × (is_last ≡ true)))
  EndsBy attempt is_last reply crashed =
      (r : Response A) × ((reply ≡ replied r)
        × (IsRetriedStatus r.status_code × (AsksTooMuch r × (is_last ≡ false))))

  -- A trace that has `n` more attempts than its first one.
  abbrev pub IsRetried : (ℕ → Reply A) → ℕ → ℕ → Trace A → Type 0
  IsRetried server n attempt t =
      (left : ℕ) × ((left + length t.waits ≡ n)
        × ((t.posts ≡ length t.waits + 1)
            × (Waits server attempt t.waits
                × EndsBy (attempt + length t.waits) (is_zero left)
                    (server (attempt + length t.waits)) t.result)))

  abbrev EndsAt : (ℕ → Reply A) → Bool → Posted A → ℕ → Type 0
  EndsAt server is_last result at = EndsBy at is_last (server at) result

  again-IsRetried :
      (server : ℕ → Reply A) (n attempt wait : ℕ) (t : Trace A)
      → IsTransient (server attempt)
      → IsWait attempt (server attempt) wait
      → IsRetried server n (attempt + 1) t
      → IsRetried server (suc n) attempt (again (some wait) t)
  again-IsRetried server n attempt wait t transient is_wait (left, (total, (posts, (waits, end)))) =
      (
        left,
        (
          omega arith,
          (
            omega arith,
            (
              ((transient, is_wait), waits),
              subst (EndsAt server (is_zero left) t.result)
                  (let e : attempt + 1 + length t.waits ≡ attempt + suc (length t.waits) =
                      omega arith in
                    e)
                  end,
            ),
          ),
        ),
      )

  -- A trace that ends with its first reply.
  one-IsRetried :
      (server : ℕ → Reply A) (n attempt : ℕ) (result : Posted A)
      → EndsBy attempt (is_zero n) (server attempt) result
      → IsRetried server n attempt (end_with result)
  one-IsRetried server n attempt result h = (
    n,
    (
      omega arith,
      (
        refl,
        (
          tt,
          subst (EndsAt server (is_zero n) result)
              (let e : attempt ≡ attempt + 0 = omega arith in e) h,
        ),
      ),
    ),
  )

  -- What the header is read as
  wait_seconds_lem :
      (attempt : ℕ) (r : Response A) (wait : ℕ)
      → wait_seconds attempt r.retry_after ≡ some wait
      → IsWait attempt (replied r) wait
  unfolding wait_seconds
  wait_seconds_lem attempt r wait h = by_header r.retry_after refl h
    where
      by_seconds :
          (header : Text) (seconds : Option (Bool × ℕ))
          → r.retry_after ≡ some header
          → read_int header ≡ seconds
          → wait_for attempt seconds ≡ some wait
          → IsWait attempt (replied r) wait
      by_seconds header none e i k =
          inr (inr (inl (header, (e, i))), backoff_seconds-pow attempt ∙ some_inj.0 k)
      by_seconds header (some (sign, zero)) e i k = inr (
        inr (inr (sign, (header, (e, i)))),
        backoff_seconds-pow attempt ∙ some_inj.0 (zero_waits sign k),
      )
        where
          zero_waits :
              (sign : Bool)
              → wait_for attempt (some (sign, zero)) ≡ some wait
              → some (backoff_seconds attempt) ≡ some wait
          zero_waits s k = k
      by_seconds header (some (true, suc n)) e i k = absurd (none_not_some k)
      by_seconds header (some (false, suc n)) e i k =
          elim (Bool-cases (leb (suc n) longest_sleep)) [
            | inr l ↦ absurd (none_not_some (rw l at k))
            | inl l ↦
                let same : suc n ≡ wait = some_inj.0 (rw l at k) in
                let bound : suc n ≤ 9223372036 = ground arith in
                inl (
                  (header, (e, i ∙ ap (λ m. some (false, m)) same)),
                  (omega arith, omega (arith, bound, same)),
                )
          ]

      by_header :
          (header : Option Text)
          → r.retry_after ≡ header
          → wait_for attempt (header_seconds header) ≡ some wait
          → IsWait attempt (replied r) wait
      by_header none e k = inr (inl e, backoff_seconds-pow attempt ∙ some_inj.0 k)
      by_header (some header) e k = by_seconds header (read_int header) e refl k

  no_wait_lem :
      (attempt : ℕ) (r : Response A) → wait_seconds attempt r.retry_after ≡ none → AsksTooMuch r
  unfolding wait_seconds
  no_wait_lem attempt r h = by_header r.retry_after refl h
    where
      by_seconds :
          (header : Text) (seconds : Option (Bool × ℕ))
          → r.retry_after ≡ some header
          → read_int header ≡ seconds
          → wait_for attempt seconds ≡ none
          → AsksTooMuch r
      by_seconds header none e i k = absurd (none_not_some (sym k))
      by_seconds header (some (sign, zero)) e i k = absurd (none_not_some (sym k))
      by_seconds header (some (true, suc n)) e i k = (suc n, inl ((header, (e, i)), omega arith))
      by_seconds header (some (false, suc n)) e i k =
          elim (Bool-cases (leb (suc n) longest_sleep)) [
            | inl l ↦ absurd (none_not_some (sym (rw l at k)))
            | inr l ↦ (suc n, inr ((header, (e, i)), ground arith))
          ]

      by_header :
          (header : Option Text)
          → r.retry_after ≡ header
          → wait_for attempt (header_seconds header) ≡ none
          → AsksTooMuch r
      by_header none e k = absurd (none_not_some (sym k))
      by_header (some header) e k = by_seconds header (read_int header) e refl k

  again_or-IsRetried :
      (server : ℕ → Reply A) (n attempt : ℕ) (t : Trace A) (r : Response A) (wait : Option ℕ)
      → server attempt ≡ replied r
      → is_retried r.status_code ≡ true
      → wait_seconds attempt r.retry_after ≡ wait
      → IsRetried server n (attempt + 1) t
      → IsRetried server (suc n) attempt (again wait t)
  again_or-IsRetried server n attempt t r none e h w k =
      one-IsRetried server (suc n) attempt crashed
        (r, (e, (is_retried-IsRetriedStatus r.status_code h, (no_wait_lem attempt r w, refl))))
  again_or-IsRetried server n attempt t r (some wait) e h w k =
      again-IsRetried server n attempt wait t
        (subst IsTransient (sym e) (is_retried-IsRetriedStatus r.status_code h))
        (subst (λ reply. IsWait attempt reply wait) (sym e) (wait_seconds_lem attempt r wait w)) k

  last-IsRetried :
      (server : ℕ → Reply A) (attempt : ℕ) (reply : Reply A)
      → server attempt ≡ reply
      → IsRetried server 0 attempt (attempt_once 0 attempt (end_with crashed) reply)
  unfolding is_retried wait_seconds
  last-IsRetried server attempt timed_out e =
      one-IsRetried server 0 attempt (failed timeout)
        (ap status_of e, inr (subst IsTransient (sym e) tt, refl))
  last-IsRetried server attempt broken e =
      one-IsRetried server 0 attempt (failed upstream_error) (ap status_of e, inl e)
  last-IsRetried server attempt (replied r) e = elim (Bool-cases (is_retried r.status_code)) [
    | inl h ↦ rw h (
        one-IsRetried server 0 attempt (failed upstream_error) (
          ap status_of e,
          inr (subst IsTransient (sym e) (is_retried-IsRetriedStatus r.status_code h), refl),
        ))
    | inr h ↦
        rw h (one-IsRetried server 0 attempt (responded r) (e, is_retried-false r.status_code h))
  ]

  attempt_once-IsRetried :
      (server : ℕ → Reply A) (n attempt : ℕ) (t : Trace A) (reply : Reply A)
      → server attempt ≡ reply
      → IsRetried server n (attempt + 1) t
      → IsRetried server (suc n) attempt (attempt_once (suc n) attempt t reply)
  unfolding is_retried wait_seconds
  attempt_once-IsRetried server n attempt t timed_out e k =
      again-IsRetried server n attempt (backoff_seconds attempt) t (subst IsTransient (sym e) tt)
        (subst (λ reply. IsWait attempt reply (backoff_seconds attempt)) (sym e)
          (backoff_seconds-pow attempt))
        k
  attempt_once-IsRetried server n attempt t broken e k =
      one-IsRetried server (suc n) attempt (failed upstream_error) (ap status_of e, inl e)
  attempt_once-IsRetried server n attempt t (replied r) e k =
      elim (Bool-cases (is_retried r.status_code)) [
        | inl h ↦ rw h (
            again_or-IsRetried server n attempt t r (wait_seconds attempt r.retry_after) e h refl k)
        | inr h ↦ rw h (
            one-IsRetried server (suc n) attempt (responded r)
              (e, is_retried-false r.status_code h))
      ]

  attempts_from-IsRetried :
      (server : ℕ → Reply A) (n attempt : ℕ)
      → IsRetried server n attempt (attempts_from server n attempt)
  unfolding attempts_from
  attempts_from-IsRetried server zero attempt = last-IsRetried server attempt (server attempt) refl
  attempts_from-IsRetried server (suc n) attempt =
      attempt_once-IsRetried server n attempt (attempts_from server n (attempt + 1))
        (server attempt) refl (attempts_from-IsRetried server n (attempt + 1))

-- Whatever comes back, a request ends after at most four attempts, with one wait between two of them: the one that a reply asks for, or one, two and
-- four seconds. All replies but the last are timeouts or have one of the five statuses; the last one is a response with another status,
-- which is the result, a broken connection, the fourth failure, or one that asks for a negative time or one above 9223372036 seconds, which raises.
pub post_with_retry-IsRetried :
    {A : Type 0} (server : ℕ → Reply A) → IsRetried server 3 0 (post_with_retry server)
unfolding post_with_retry
post_with_retry-IsRetried server = attempts_from-IsRetried server 3 0
