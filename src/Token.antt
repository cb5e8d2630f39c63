-- ===== src/Token.antt =====
-- workers/src/archiviste_workers/auth_metadata/token.py: the cache of the access token. The tasks of the event loop
-- interleave at their awaits, so each stretch between two of these is one step. Times are in seconds.
pub mod Spaced
mod Tests
use archiviste_nocilia.Prelude.{
  ℕ, zero, suc, ◌+◌, Text, Bool, true, false, ◌≡◌, Option, none, some, List, [], ◌∷◌, ltb,
  if◌then◌else◌,
}

pub record CachedToken : Type 0 where
  pub bearer : Text
  pub expires_at : ℕ

-- A token that a call returned, when, and whether the call fetched it.
pub record Returned : Type 0 where
  pub token : CachedToken
  pub moment : ℕ
  pub is_fresh : Bool

-- The provider with the clock, the calls that wait for the lock, the start of the fetch of its holder, and two
-- logs: the fetches that gave a token, with their start and its expiry, and what was returned, newest first.
pub record Provider : Type 0 where
  pub now : ℕ
  pub cached : Option CachedToken
  pub waiting : ℕ
  pub is_fetching : Bool
  pub started : ℕ
  pub fetches : List (ℕ × ℕ)
  pub returns : List Returned

abbrev pub refresh_ahead_seconds : ℕ
refresh_ahead_seconds = 60

-- `_is_cache_valid`: the clock is before the expiry less the margin.
unfoldable pub is_cache_valid : ℕ → CachedToken → Bool
is_cache_valid now token = ltb (now + refresh_ahead_seconds) token.expires_at

abbrev pub give_back : CachedToken → Bool → Provider → Provider
give_back token fresh p = record p {
  returns = record { token = token; moment = p.now; is_fresh = fresh } ∷ p.returns;
}

-- The cached token, or what is done without a valid one.
abbrev pub cached_or : Option CachedToken → Provider → Provider → Provider
cached_or none p otherwise = otherwise
cached_or (some token) p otherwise =
    if is_cache_valid p.now token then give_back token false p else otherwise

-- `get_or_refresh` up to the lock
unfoldable pub get_cached : Provider → Provider
unfolding is_cache_valid
get_cached p = cached_or p.cached p (record p { waiting = p.waiting + 1 })

-- Behind the lock, with the number of the others that wait: the second check, and the start of the fetch
unfoldable pub enter_lock : ℕ → Provider → Provider
unfolding is_cache_valid
enter_lock others p =
    cached_or p.cached (record p { waiting = others })
      (record p { waiting = others; is_fetching = true; started = p.now })

-- The end of `_fetch` and of the call
unfoldable pub finish_fetch : Text → ℕ → Provider → Provider
finish_fetch bearer expires_in p =
    let token : CachedToken = record { bearer = bearer; expires_at = p.now + expires_in } in
    give_back token true (record p {
      cached = some token;
      is_fetching = false;
      fetches = (p.started, p.now + expires_in) ∷ p.fetches;
    })

-- A TokenFetchError leaves the lock and the cache.
unfoldable pub fail_fetch : Provider → Provider
fail_fetch p = record p { is_fetching = false }

pub data Step : Provider → Provider → Type 0 where
  calls : (p : Provider) → Step p (get_cached p)
  enters :
      (others : ℕ) (p : Provider)
      → p.is_fetching ≡ false
      → p.waiting ≡ suc others
      → Step p (enter_lock others p)
  fetches :
      (bearer : Text) (expires_in : ℕ) (p : Provider)
      → p.is_fetching ≡ true
      → Step p (finish_fetch bearer expires_in p)
  fails : (p : Provider) → p.is_fetching ≡ true → Step p (fail_fetch p)
  passes : (seconds : ℕ) (p : Provider) → Step p (record p { now = p.now + seconds })

pub data Reaches : Provider → Provider → Type 0 where
  stays : (p : Provider) → Reaches p p
  steps : {p q r : Provider} → Reaches p q → Step q r → Reaches p r
