-- ===== src/Contradiction/Leaks.antt =====
-- How long a copied passage must be for the redaction to see it.
use archiviste_nocilia.Prelude.{
  ℕ, zero, suc, ◌+◌, ◌-◌, ◌≤◌, ◌<◌, Text, true, ◌≡◌, refl, inl, inr, List, [], ◌∷◌, ◌++◌, length,
  take, drop, ltb, arith, Bool-cases, ap, sym, ◌∙◌, append_assoc, length-append,
}
use archiviste_nocilia.Contradiction.Judges.{Verdict, Source}
use archiviste_nocilia.Contradiction.Redaction.{
  safe_reason, starts_with, contains, leaks_loop, leaks, redact_reason,
}

take-drop : (n : ℕ) (u : Text) → take n u ++ drop n u ≡ u
take-drop zero u = refl
take-drop (suc n) [] = refl
take-drop (suc n) (c ∷ u) = ap (λ t. c ∷ t) (take-drop n u)

length-drop : (n : ℕ) (u : Text) → length (drop n u) ≡ length u - n
length-drop zero u = omega arith
length-drop (suc n) [] = omega arith
length-drop (suc n) (c ∷ u) = omega (arith, length-drop n u)

take-append : (n : ℕ) (u q : Text) → n ≤ length u → take n (u ++ q) ≡ take n u
take-append zero u q h = refl
take-append (suc n) [] q h = absurd (omega arith)
take-append (suc n) (c ∷ u) q h = ap (λ t. c ∷ t) (take-append n u q (omega arith))

drop-append : (n : ℕ) (u q : Text) → n ≤ length u → drop n (u ++ q) ≡ drop n u ++ q
drop-append zero u q h = refl
drop-append (suc n) [] q h = absurd (omega arith)
drop-append (suc n) (c ∷ u) q h = drop-append n u q (omega arith)

drop_past : (p s : Text) (n k : ℕ) → n ≡ length p + k → drop n (p ++ s) ≡ drop k s
drop_past [] s n k h = ap (λ m. drop m s) (omega arith)
drop_past (c ∷ p) s zero k h = absurd (omega arith)
drop_past (c ∷ p) s (suc n) k h = drop_past p s n k (omega arith)

starts_with-append : (w q : Text) → starts_with w (w ++ q) ≡ true
unfolding starts_with
starts_with-append [] q = refl
starts_with-append (c ∷ w) q = ground (arith, starts_with-append w q)

pub contains-infix : (a w b : Text) → contains w (a ++ (w ++ b)) ≡ true
unfolding contains
contains-infix [] [] [] = refl
contains-infix [] [] (c ∷ b) = ground (arith, starts_with-append [] (c ∷ b))
contains-infix [] (c ∷ w) b = ground (arith, starts_with-append (c ∷ w) b)
contains-infix (c ∷ a) w b = ground (arith, contains-infix a w b)

-- A window that lies within a passage of the reason is found.
window-found :
    (fuel : ℕ) (s u q a b : Text)
    → s ≡ u ++ q
    → 24 ≤ length u
    → length s ≤ fuel
    → leaks_loop fuel s (a ++ (u ++ b)) ≡ true
unfolding leaks_loop
window-found zero s u q a b e h f = absurd (omega (arith, ap length e, length-append u q))
window-found (suc fuel) s u q a b e h f =
    let window : take 24 s ≡ take 24 u = ap (take 24) e ∙ take-append 24 u q h in
    let split : take 24 u ++ (drop 24 u ++ b) ≡ u ++ b =
      sym (append_assoc (take 24 u) (drop 24 u) b) ∙ ap (λ t. t ++ b) (take-drop 24 u) in
    let hit : contains (take 24 s) (a ++ (u ++ b)) ≡ true =
      ap (λ t. contains t (a ++ (u ++ b))) window
      ∙ (ap (λ t. contains (take 24 u) (a ++ t)) (sym split)
          ∙ contains-infix a (take 24 u) (drop 24 u ++ b)) in
    let long : 24 ≤ length s = omega (arith, ap length e, length-append u q) in ground arith

-- A passage of 47 characters of the text holds a whole window, wherever it begins.
passage-found :
    (fuel : ℕ) (s p w q a b : Text)
    → s ≡ p ++ (w ++ q)
    → 47 ≤ length w
    → length s ≤ fuel
    → leaks_loop fuel s (a ++ (w ++ b)) ≡ true
unfolding leaks_loop
passage-found zero s p w q a b e h f =
    absurd (omega (arith, ap length e, length-append p (w ++ q), length-append w q))
passage-found (suc fuel) s [] w q a b e h f = window-found (suc fuel) s w q a b e (omega arith) f
passage-found (suc fuel) s (c ∷ p') w q a b e h f =
    let p = c ∷ p' in
    let len : length s ≡ length p + (length w + length q) =
      omega (arith, ap length e, length-append p (w ++ q), length-append w q) in
    let long : 24 ≤ length s = omega arith in
    let shorter : length (drop 24 s) ≤ fuel = omega (arith, length-drop 24 s) in
    elim (Bool-cases (ltb (length p) 24)) [
      | inl l ↦
          (let k = 24 - length p in
            let short : length p < 24 = ground arith in
            let rest : drop 24 s ≡ drop k w ++ q =
              ap (drop 24) e
              ∙ (drop_past p (w ++ q) 24 k (omega arith) ∙ drop-append k w q (omega arith)) in
            let whole : (a ++ take k w) ++ (drop k w ++ b) ≡ a ++ (w ++ b) =
              append_assoc a (take k w) (drop k w ++ b)
              ∙ ap (λ t. a ++ t)
                  (sym (append_assoc (take k w) (drop k w) b) ∙ ap (λ t. t ++ b) (take-drop k w)) in
            let seen : leaks_loop fuel (drop 24 s) (a ++ (w ++ b)) ≡ true =
              ap (leaks_loop fuel (drop 24 s)) (sym whole)
              ∙ window-found fuel (drop 24 s) (drop k w) q (a ++ take k w) b rest
                  (omega (arith, length-drop k w)) shorter in
            ground arith)
      | inr l ↦
          (let seen : leaks_loop fuel (drop 24 s) (a ++ (w ++ b)) ≡ true =
              passage-found fuel (drop 24 s) (drop 24 p) w q a b
                (ap (drop 24) e ∙ drop-append 24 p (w ++ q) (ground arith)) h shorter in
            ground arith)
    ]

leaks-passage :
    (lower : Text → Text) (source : Source) (p w q a b : Text)
    → 24 ≤ length source.body
    → lower source.body ≡ p ++ (w ++ q)
    → 47 ≤ length w
    → leaks lower (a ++ (w ++ b)) source ≡ true
unfolding leaks
leaks-passage lower source p w q a b k e h = ground (
  arith,
  passage-found (length (lower source.body)) (lower source.body) p w q a b e h (omega arith),
)

-- A reason that shares a passage of 47 characters or more with the body of a source, both in lower
-- case, is replaced by the fixed sentence of the verdict, wherever the passage stands in either, if the body has 24 characters.
pub redact_reason-passage :
    (lower : Text → Text) (reason : Text) (verdict : Verdict) (before : List Source)
    (source : Source) (after : List Source) (p w q a b : Text)
    → 24 ≤ length source.body
    → lower source.body ≡ p ++ (w ++ q)
    → lower reason ≡ a ++ (w ++ b)
    → 47 ≤ length w
    → redact_reason lower reason verdict (before ++ source ∷ after) ≡ safe_reason verdict
unfolding redact_reason
redact_reason-passage lower reason verdict [] source after p w q a b k e r h =
    ground (arith, leaks-passage lower source p w q a b k e h)
redact_reason-passage lower reason verdict (s ∷ before) source after p w q a b k e r h =
    ground (arith, redact_reason-passage lower reason verdict before source after p w q a b k e r h)
