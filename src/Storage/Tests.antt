-- ===== src/Storage/Tests.antt =====
-- One other writer, who comes between the first read and the first upload.
use archiviste_nocilia.Prelude.{
  ℕ, ◌≡◌, ◌≢◌, refl, none, some, Option, [], ◌∷◌, arith, eqb, if◌then◌else◌, Bool-cases, inl, inr,
}
use archiviste_nocilia.Storage.{Object, Network, World, Written, appended, read_modify_write}
use archiviste_nocilia.Storage.Progress.{Returns, read_modify_write-Returns}
use archiviste_nocilia.Storage.Writers.{
  Writer, Phase, System, advance, calls, Reaches, stays, steps, Appends, log_of,
}
use archiviste_nocilia.Storage.Refines.{IsCoherent, reaches-Appends}
use archiviste_nocilia.Storage.Append.{IsAppend, read_modify_write-IsAppend}

-- At tick 0 the other writer appends a 9.
abbrev moved : ℕ → Option Object → Option Object
moved t none = none
moved t (some o) = if eqb t 0 then some (appended (9 ∷ []) o) else some o

abbrev world : World
world = record {
  others = moved;
  download = λ t. Network.works;
  upload = λ t. Network.works;
  reload = λ t. Network.works;
}

abbrev start : Option Object
start = some (record { content = 1 ∷ []; generation = 5 })

keeps_both :
    read_modify_write world (7 ∷ []) start
    ≡ (some (record { content = 1 ∷ 9 ∷ 7 ∷ []; generation = 7 }), Written.written 7 3)
unfolding read_modify_write
keeps_both = refl

world-versioned :
    (t : ℕ) (o o' : Object) → moved t (some o) ≡ some o' → o'.generation ≡ o.generation → o' ≡ o
world-versioned t o o' h e = elim (Bool-cases (eqb t 0)) [
  | inl z ↦ ground arith
  | inr z ↦ ground arith
]

world-positive : (t : ℕ) (o : Object) → moved t (some o) ≡ none → o.generation ≢ 0
world-positive t o h = ground arith

read_modify_write-IsAppend_example :
    IsAppend world (7 ∷ []) 0 start (read_modify_write world (7 ∷ []) start)
read_modify_write-IsAppend_example =
    read_modify_write-IsAppend world (7 ∷ []) world-versioned world-positive start

world-stays : (t : ℕ) (o : Object) → (o' : Object) × (moved t (some o) ≡ some o')
world-stays t o = elim (Bool-cases (eqb t 0)) [
  | inl z ↦ rw z (appended (9 ∷ []) o, refl)
  | inr z ↦ rw z (o, refl)
]

read_modify_write-Returns_example :
    Returns (read_modify_write world (7 ∷ []) (some (record { content = 1 ∷ []; generation = 5 })))
read_modify_write-Returns_example =
    read_modify_write-Returns world (7 ∷ []) (λ t. refl) (λ t. refl) (λ t. refl) world-stays 1
      (record { content = 1 ∷ []; generation = 5 }) (omega arith) (λ p. refl)

-- Two writers read one object; the second upload is refused and tried again.
abbrev writer : ℕ → Phase → Writer
writer n phase = record { block = n ∷ []; phase = phase }

abbrev old : Object
old = record { content = 1 ∷ []; generation = 5 }

abbrev new : Object
new = record { content = 1 ∷ 7 ∷ []; generation = 6 }

abbrev newer : Object
newer = record { content = 1 ∷ 7 ∷ 9 ∷ []; generation = 7 }

abbrev at : Object → Phase → Phase → System
at o p q = record { object = o; writers = writer 7 p ∷ writer 9 q ∷ [] }

abbrev began : System
began = at old (Phase.ready 2) (Phase.ready 2)

abbrev ended : System
ended = at newer Phase.succeeded Phase.succeeded

both_write : Reaches began ended
unfolding advance
both_write =
    let s1 : Reaches began (at old (Phase.holding 1 old) (Phase.ready 2)) =
      steps (stays began)
        (calls old [] (writer 7 (Phase.ready 2)) (writer 9 (Phase.ready 2) ∷ []) Network.works) in
    let s2 : Reaches began (at old (Phase.holding 1 old) (Phase.holding 1 old)) = steps s1 (
      calls old (writer 7 (Phase.holding 1 old) ∷ []) (writer 9 (Phase.ready 2)) []
        Network.works) in
    let s3 : Reaches began (at new Phase.succeeded (Phase.holding 1 old)) = steps s2 (
      calls old [] (writer 7 (Phase.holding 1 old)) (writer 9 (Phase.holding 1 old) ∷ [])
        Network.works) in
    let s4 : Reaches began (at new Phase.succeeded (Phase.ready 1)) = steps s3 (
      calls new (writer 7 Phase.succeeded ∷ []) (writer 9 (Phase.holding 1 old)) []
        Network.works) in
    let s5 : Reaches began (at new Phase.succeeded (Phase.holding 0 new)) =
      steps s4
        (calls new (writer 7 Phase.succeeded ∷ []) (writer 9 (Phase.ready 1)) [] Network.works) in
    steps s5
      (calls new (writer 7 Phase.succeeded ∷ []) (writer 9 (Phase.holding 0 new)) [] Network.works)

reaches-Appends_example : Appends (log_of began) (log_of ended) × IsCoherent ended
reaches-Appends_example = reaches-Appends both_write (tt, (tt, tt))
