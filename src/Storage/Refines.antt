-- ===== src/Storage/Refines.antt =====
-- The writers refine the log: what they do to the object is a sequence of appends, each of a whole block, once.
use mathlib.Core.Path.{subst}
use archiviste_nocilia.Prelude.{
  ℕ, zero, suc, ◌<◌, ◌≡◌, ◌⊎◌, refl, sym, ◌∙◌, ap, ap₂, true, false, some, List, [], ◌∷◌, ◌++◌, map,
  inl, inr, arith, All, All-append, Bool-cases,
}
use archiviste_nocilia.Storage.{Object, Network, works, fails, appended, matches_generation}
use archiviste_nocilia.Storage.Writers.{
  Phase, ready, holding, succeeded, refused, unavailable, Writer, advance, System, Step, calls,
  Reaches, stays, steps, Log, Appends, rests, appends, block_of, log_of,
}

-- What a writer read is the object as it stands, or older.
abbrev pub IsRead : Object → Phase → Type 0
IsRead o (holding n read) = (read.generation < o.generation) ⊎ (read ≡ o)
IsRead o (ready n) = Unit
IsRead o succeeded = Unit
IsRead o refused = Unit
IsRead o (unavailable landed) = Unit

abbrev pub Knows : Object → Writer → Type 0
Knows o w = IsRead o w.phase

abbrev pub IsCoherent : System → Type 0
IsCoherent s = All (Knows s.object) s.writers

-- What one call of a writer does: nothing to the object, or one append of its block, which it has then.
abbrev pub IsCall : Object → Writer → Object × Writer → Type 0
IsCall o w (o', w') =
    Knows o' w'
    × (((o' ≡ o) × (block_of w' ≡ block_of w))
        ⊎ ((o' ≡ appended w.block o)
            × (block_of w ≡ (w.block, false))
            × (block_of w' ≡ (w.block, true))))

-- A generation that matches is the one of the object that was read.
matches-same :
    (read o : Object)
    → (read.generation < o.generation) ⊎ (read ≡ o)
    → matches_generation read.generation (some o) ≡ true
    → read ≡ o
matches-same read o (inl older) m = absurd (ground arith)
matches-same read o (inr same) m = same

advance-IsCall :
    (o : Object) (block : List ℕ) (phase : Phase) (net : Network)
    → IsRead o phase
    → IsCall o
        (record { block = block; phase = phase })
        (advance (record { block = block; phase = phase }) o net)
unfolding advance
advance-IsCall o block (ready zero) net h = (tt, inl (refl, refl))
advance-IsCall o block (ready (suc n)) works h = (inr refl, inl (refl, refl))
advance-IsCall o block (ready (suc n)) (fails landed) h = (tt, inl (refl, refl))
advance-IsCall o block (holding n read) works h =
    elim (Bool-cases (matches_generation read.generation (some o))) [
      | inl m ↦ rw m (tt, inr (ap (appended block) (matches-same read o h m), refl, refl))
      | inr m ↦ rw m (tt, inl (refl, refl))
    ]
advance-IsCall o block (holding n read) (fails false) h = (tt, inl (refl, refl))
advance-IsCall o block (holding n read) (fails true) h =
    elim (Bool-cases (matches_generation read.generation (some o))) [
      | inl m ↦ rw m (tt, inr (ap (appended block) (matches-same read o h m), refl, refl))
      | inr m ↦ rw m (tt, inl (refl, refl))
    ]
advance-IsCall o block succeeded net h = (tt, inl (refl, refl))
advance-IsCall o block refused net h = (tt, inl (refl, refl))
advance-IsCall o block (unavailable landed) net h = (tt, inl (refl, refl))

-- An append makes what the others read older.
IsRead-appended :
    (o : Object) (block : List ℕ) (phase : Phase) → IsRead o phase → IsRead (appended block o) phase
IsRead-appended o block (holding n read) (inl older) = inl (omega arith)
IsRead-appended o block (holding n read) (inr same) = inl (ground arith)
IsRead-appended o block (ready n) h = tt
IsRead-appended o block succeeded h = tt
IsRead-appended o block refused h = tt
IsRead-appended o block (unavailable landed) h = tt

Knows-appended :
    (o : Object) (block : List ℕ) (ws : List Writer)
    → All (Knows o) ws
    → All (Knows (appended block o)) ws
Knows-appended o block [] h = tt
Knows-appended o block (w ∷ ws) h =
    (IsRead-appended o block w.phase h.0, Knows-appended o block ws h.1)

Knows-others :
    (o : Object) (w : Writer) (r : Object × Writer) (ws : List Writer)
    → IsCall o w r
    → All (Knows o) ws
    → All (Knows r.0) ws
Knows-others o w r ws (k, inl (same, e)) h = subst (λ x. All (Knows x) ws) (sym same) h
Knows-others o w r ws (k, inr (grown, e, f)) h =
    subst (λ x. All (Knows x) ws) (sym grown) (Knows-appended o w.block ws h)

All-split :
    (P : Writer → Type 0) (before after : List Writer) (w : Writer)
    → All P (before ++ w ∷ after)
    → All P before × (P w × All P after)
All-split P [] after w h = (tt, h)
All-split P (x ∷ before) after w h =
    let (b, rest) = All-split P before after w h.1 in ((h.0, b), rest)

pub Step-IsCoherent : {s t : System} → Step s t → IsCoherent s → IsCoherent t
Step-IsCoherent (calls o before w after net) h =
    let (b, (k, a)) = All-split (Knows o) before after w h in
    let c : IsCall o w (advance w o net) = advance-IsCall o w.block w.phase net k in
    All-append (Knows (advance w o net).0) before ((advance w o net).1 ∷ after)
      (Knows-others o w (advance w o net) before c b)
      (c.0, Knows-others o w (advance w o net) after c a)

blocks-split :
    (before after : List Writer) (w : Writer)
    → map block_of (before ++ w ∷ after) ≡ map block_of before ++ block_of w ∷ map block_of after
blocks-split [] after w = refl
blocks-split (x ∷ before) after w = ap (λ ws. block_of x ∷ ws) (blocks-split before after w)

-- One call of one writer is no step of the log, or one append.
Step-Appends :
    {l : Log} {s t : System} → Step s t → IsCoherent s → Appends l (log_of s) → Appends l (log_of t)
Step-Appends {l} (calls o before w after net) h path =
    let (b, (k, a)) = All-split (Knows o) before after w h in
    let s' = advance w o net in
    let (known, done) = advance-IsCall o w.block w.phase net k in
    elim done [
      | inl (same, e) ↦
          subst (Appends l)
            (ap₂ (λ x y. record { text = x; blocks = y }) (ap (λ x. x.content) (sym same))
              (blocks-split before after w
                ∙ (ap (λ x. map block_of before ++ x ∷ map block_of after) (sym e)
                    ∙ sym (blocks-split before after s'.1))))
            path
      | inr (grown, e, f) ↦
          subst (Appends l)
            (ap₂ (λ x y. record { text = x; blocks = y }) (ap (λ x. x.content) (sym grown))
              (ap (λ x. map block_of before ++ x ∷ map block_of after) (sym f)
                ∙ sym (blocks-split before after s'.1)))
            (appends o.content w.block (map block_of before) (map block_of after) (
              subst (Appends l)
                (ap (λ y. record { text = o.content; blocks = y })
                  (blocks-split before after w
                    ∙ ap (λ x. map block_of before ++ x ∷ map block_of after) e))
                path))
    ]

-- However the calls of any number of writers on one object are interleaved and whichever of them fail, from where each of them only holds the
-- object as it stands or an older one: what has happened to the object is a sequence of appends, each of the whole block of one
-- writer, at most one for a writer, and exactly one for each that returned well, so that no write is lost.
pub reaches-Appends :
    {s t : System} → Reaches s t → IsCoherent s → Appends (log_of s) (log_of t) × IsCoherent t
reaches-Appends (stays s) h = (rests (log_of s), h)
reaches-Appends (steps path step) h =
    let (log, h') = reaches-Appends path h in (Step-Appends step h' log, Step-IsCoherent step h')
