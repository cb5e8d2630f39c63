-- ===== src/Eval/Reached.antt =====
-- How far `main` comes: it ends before the first question, or has a run to judge.
use mathlib.Core.Option.{some_inj}
use mathlib.Core.Path.{subst}
use archiviste_nocilia.Prelude.{
  ℕ, ◌≤◌, Text, true, false, ◌>>=◌, ◌≡◌, refl, ◌⊎◌, inl, inr, Option, none, some, none_not_some,
  List, Bool-cases, Option-cases, arith,
}
use archiviste_nocilia.Eval.{Floats, GoldenEntry}
use archiviste_nocilia.Eval.Target.{Split, is_authenticated_target, derive_audience}
use archiviste_nocilia.Eval.Runner.{
  RunFile, Setup, Ended, exits, no_effects, is_unreadable, maybe_persist, after_persist, run_golden,
  emit_summary, exceeds_error_rate, token_at, with_token, main_with, main,
}

module _ {W : Type 0} (floats : Floats W) where
  -- It has left nothing, and has a code of 2 or more.
  abbrev pub IsEarly : Ended W → Type 0
  IsEarly e = (e.effects ≡ no_effects floats) × (2 ≤ e.code)

  -- The token that the workers are called with: none in plain HTTP or on the same machine, and the one for their audience elsewhere.
  abbrev pub HasHeader : Setup W → Option Text → Type 0
  HasHeader s header =
      (parsed : Split) × ((s.workers_url ≡ some parsed)
        × (((is_authenticated_target parsed ≡ false) × (header ≡ none))
            ⊎ ((is_authenticated_target parsed ≡ true)
                × ((token : Text) × ((s.fetches (derive_audience parsed) ≡ some token)
                      × (header ≡ some token))))))

  -- It has put all questions, and ends as the run that they gave does.
  abbrev pub IsReached : Setup W → Ended W → Type 0
  IsReached s e =
      (header : Option Text) × ((golden : List GoldenEntry) × ((run : RunFile W) × ((s.golden
              ≡ some golden)
            × (HasHeader s header
                × ((run_golden floats s header golden ≡ some run)
                    × (after_persist floats s run (maybe_persist floats s run) ≡ some e))))))

  early :
      (code : ℕ) (e : Ended W)
      → 2 ≤ code
      → exits floats code (no_effects floats) ≡ some e
      → IsEarly e
  early code e at_least h = subst IsEarly (some_inj.0 h) (refl, at_least)

  with_token-Cases :
      (s : Setup W) (e : Ended W) (header : Option Text) (golden : List GoldenEntry)
      → s.golden ≡ some golden
      → HasHeader s header
      → with_token floats s golden (some header) ≡ some e
      → IsEarly e ⊎ IsReached s e
  unfolding run_golden maybe_persist emit_summary exceeds_error_rate
  with_token-Cases s e header golden g allowed h = elim (Bool-cases (s.is_reachable header)) [
    | inr y ↦ inl (early 3 e (omega arith) (rw y at h))
    | inl y ↦ elim (Bool-cases (is_unreadable floats s.baseline)) [
      | inl z ↦ inl (early 2 e (omega arith) (rw (y, z) at h))
      | inr z ↦ elim (Option-cases (run_golden floats s header golden)) [
        | inl r ↦ absurd (none_not_some (rw (y, z, r) at h))
        | inr (run, r) ↦ elim (Bool-cases s.writes_run) [
          | inl w ↦ inr (header, (golden, (run, (g, (allowed, (r, rw (y, z, r, w) at h))))))
          | inr w ↦ absurd (none_not_some (rw (y, z, r, w) at h))
        ]
      ]
    ]
  ]

  main_with-Cases :
      (s : Setup W) (e : Ended W) (golden : Option (List GoldenEntry))
      → s.golden ≡ golden
      → main_with floats s golden ≡ some e
      → IsEarly e ⊎ IsReached s e
  unfolding run_golden maybe_persist emit_summary exceeds_error_rate
  main_with-Cases s e none g h = inl (early 2 e (omega arith) h)
  main_with-Cases s e (some golden) g h = at_url s.workers_url refl h
    where
      at_url :
          (url : Option Split)
          → s.workers_url ≡ url
          → (token_at floats s url >>= with_token floats s golden) ≡ some e
          → IsEarly e ⊎ IsReached s e
      at_url none u k = absurd (none_not_some k)
      at_url (some parsed) u k = elim (Bool-cases (is_authenticated_target parsed)) [
        | inr a ↦ with_token-Cases s e none golden g (parsed, (u, inl (a, refl))) (rw a at k)
        | inl a ↦ elim (Option-cases (s.fetches (derive_audience parsed))) [
          | inr (token, f) ↦
              with_token-Cases s e (some token) golden g (parsed, (u, inr (a, (token, (f, refl)))))
                (rw (a, f) at k)
          | inl f ↦ inl (early 5 e (omega arith) (rw (a, f) at k))
        ]
      ]

  pub main-Cases : (s : Setup W) (e : Ended W) → main floats s ≡ some e → IsEarly e ⊎ IsReached s e
  unfolding main
  main-Cases s e h = main_with-Cases s e s.golden refl h
