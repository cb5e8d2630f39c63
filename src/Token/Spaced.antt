-- ===== src/Token/Spaced.antt =====
-- The token is fetched only when the last one runs out, and no call returns one that does.
use mathlib.Core.Path.{subst}
use archiviste_nocilia.Prelude.{
  ℕ, ◌+◌, ◌≤◌, ◌<◌, true, false, ◌≡◌, ◌⊎◌, refl, sym, inl, inr, Option, none, some, List, [], ◌∷◌,
  Bool-cases, arith, All,
}
use archiviste_nocilia.Token.{
  CachedToken, Returned, Provider, refresh_ahead_seconds, is_cache_valid, give_back, cached_or,
  get_cached, enter_lock, finish_fetch, fail_fetch, Step, calls, enters, fails, passes, Reaches,
  stays, steps,
}

-- A token that was fetched for the call, or had more than the margin left.
abbrev pub IsUsable : Returned → Type 0
IsUsable r = (r.is_fresh ≡ true) ⊎ (r.moment + refresh_ahead_seconds < r.token.expires_at)

-- The last token that was fetched is within the margin at a time.
abbrev pub IsDue : ℕ → List (ℕ × ℕ) → Type 0
IsDue start [] = Unit
IsDue start (f ∷ fs) = f.1 ≤ start + refresh_ahead_seconds

-- Every fetch started when the token before it was within the margin.
abbrev pub AreSpaced : List (ℕ × ℕ) → Type 0
AreSpaced [] = Unit
AreSpaced (f ∷ fs) = IsDue f.0 fs × AreSpaced fs

-- The cache holds the last token that was fetched.
abbrev pub IsLast : Option CachedToken → List (ℕ × ℕ) → Type 0
IsLast cached [] = cached ≡ none
IsLast cached (f ∷ fs) = (t : CachedToken) × (cached ≡ some t) × (t.expires_at ≡ f.1)

pub record IsCurrent (p : Provider) : Type 0 where
  pub usable : All IsUsable p.returns
  pub spaced : AreSpaced p.fetches
  pub last : IsLast p.cached p.fetches
  pub due : (p.is_fetching ≡ false) ⊎ IsDue p.started p.fetches

-- Without a valid token in the cache, a fetch is due.
not_valid-IsDue :
    (now : ℕ) (cached : Option CachedToken) (fs : List (ℕ × ℕ))
    → IsLast cached fs
    → ((t : CachedToken) → cached ≡ some t → is_cache_valid now t ≡ false)
    → IsDue now fs
unfolding is_cache_valid
not_valid-IsDue now cached [] h k = tt
not_valid-IsDue now cached (f ∷ fs) (t, e, same) k = ground (arith, k t e)

cached_or-cases :
    (cached : Option CachedToken) (p otherwise : Provider)
    → ((t : CachedToken) × (is_cache_valid p.now t ≡ true)
        × (cached_or cached p otherwise ≡ give_back t false p))
      ⊎ (((t : CachedToken) → cached ≡ some t → is_cache_valid p.now t ≡ false)
          × (cached_or cached p otherwise ≡ otherwise))
cached_or-cases none p otherwise = inr (λ t e. ground arith, refl)
cached_or-cases (some token) p otherwise = elim (Bool-cases (is_cache_valid p.now token)) [
  | inl v ↦ inl (token, v, rw v refl)
  | inr v ↦ inr (
    λ t e. (let same : token ≡ t = cc in subst (λ x. is_cache_valid p.now x ≡ false) same v),
    rw v refl,
  )
]

-- What is given back from the cache has more than the margin left.
give_back-IsCurrent :
    (t : CachedToken) (p : Provider)
    → is_cache_valid p.now t ≡ true
    → IsCurrent p
    → IsCurrent (give_back t false p)
unfolding is_cache_valid
give_back-IsCurrent t p v sound = record {
  usable = (inr (ground arith), sound.usable);
  spaced = sound.spaced;
  last = sound.last;
  due = sound.due;
}

waits-IsCurrent : (n : ℕ) (p : Provider) → IsCurrent p → IsCurrent (record p { waiting = n })
waits-IsCurrent n p sound = record {
  usable = sound.usable;
  spaced = sound.spaced;
  last = sound.last;
  due = sound.due;
}

-- No step breaks the invariant.
Step-IsCurrent : {p q : Provider} → Step p q → IsCurrent p → IsCurrent q
unfolding get_cached enter_lock finish_fetch fail_fetch
Step-IsCurrent (calls p) sound =
    elim (cached_or-cases p.cached p (record p { waiting = p.waiting + 1 })) [
      | inl (t, v, e) ↦ subst IsCurrent (sym e) (give_back-IsCurrent t p v sound)
      | inr (k, e) ↦ subst IsCurrent (sym e) (waits-IsCurrent (p.waiting + 1) p sound)
    ]
Step-IsCurrent (enters others p free waits) sound =
    let others_wait = record p { waiting = others } in
    let begins = record p { waiting = others; is_fetching = true; started = p.now } in
    elim (cached_or-cases p.cached others_wait begins) [
      | inl (t, v, e) ↦
          subst IsCurrent (sym e)
            (give_back-IsCurrent t others_wait v (waits-IsCurrent others p sound))
      | inr (k, e) ↦ subst IsCurrent (sym e) (record {
        usable = sound.usable;
        spaced = sound.spaced;
        last = sound.last;
        due = inr (not_valid-IsDue p.now p.cached p.fetches sound.last k);
      })
    ]
Step-IsCurrent (Step.fetches bearer expires_in p busy) sound =
    let due : IsDue p.started p.fetches = elim sound.due [
      | inl free ↦ absurd (ground arith)
      | inr d ↦ d
    ] in
    record {
      usable = (inl refl, sound.usable);
      spaced = (due, sound.spaced);
      last = (record { bearer = bearer; expires_at = p.now + expires_in }, refl, refl);
      due = inl refl;
    }
Step-IsCurrent (fails p busy) sound = record {
  usable = sound.usable;
  spaced = sound.spaced;
  last = sound.last;
  due = inl refl;
}
Step-IsCurrent (passes seconds p) sound = record {
  usable = sound.usable;
  spaced = sound.spaced;
  last = sound.last;
  due = sound.due;
}

-- However the calls are interleaved and the fetches end, this stays so from where it holds: a token that a call returns was fetched
-- for this call or had more than 60 seconds left, the cache holds the last token that was fetched, and a
-- fetch that gave a token, or that runs, started when the token before it had 60 seconds left or less.
pub Reaches-IsCurrent : {p q : Provider} → Reaches p q → IsCurrent p → IsCurrent q
Reaches-IsCurrent (stays p) sound = sound
Reaches-IsCurrent (steps path step) sound = Step-IsCurrent step (Reaches-IsCurrent path sound)
