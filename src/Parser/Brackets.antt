-- ===== src/Parser/Brackets.antt =====
-- The scanners under `extract_citations`: the pattern `\[([^\]\s][^\]]*)\]` and `str.split`.
use Prim.Native.Nat.{ℕ}
use archiviste_nocilia.Prelude.{
  Text, Bool, ◌||◌, List, [], ◌∷◌, ◌++◌, ◌≡◌, refl, eqb, if◌then◌else◌, is_space, codes,
}

abbrev pub comma : ℕ
comma = 44

abbrev pub open_bracket : ℕ
open_bracket = 91

abbrev pub close_bracket : ℕ
close_bracket = 93

-- Where a scan stands: outside a bracket, just behind an opening one, or inside a group.
pub data Scan : Type 0 where
  outside opened : Scan
  inside : Text → Scan

-- What `[^\]\s]` does not match. It is no opening bracket either, so that the scan goes on outside.
pub no_group_start : ℕ → Bool
unfolding is_space
no_group_start c = eqb c close_bracket || is_space c

-- `findall`: the groups, left to right. A group that no bracket closes is no match, and no match
-- begins behind its opening bracket either, since every match ends in a closing one.
unfoldable pub scan : Scan → Text → List Text
unfolding no_group_start
scan state [] = []
scan Scan.outside (c ∷ s) = scan (if eqb c open_bracket then Scan.opened else Scan.outside) s
scan Scan.opened (c ∷ s) = scan (if no_group_start c then Scan.outside else Scan.inside (c ∷ [])) s
scan (Scan.inside group) (c ∷ s) =
    if eqb c close_bracket
    then group ∷ scan Scan.outside s
    else scan (Scan.inside (group ++ c ∷ [])) s

unfoldable pub bracketed : Text → List Text
unfolding scan
bracketed = scan Scan.outside

abbrev pub cons_first : ℕ → List Text → List Text
cons_first c [] = (c ∷ []) ∷ []
cons_first c (piece ∷ pieces) = (c ∷ piece) ∷ pieces

-- `str.split(sep)` at one character: always at least one piece.
unfoldable pub split_on : ℕ → Text → List Text
split_on sep [] = [] ∷ []
split_on sep (c ∷ s) =
    let pieces = split_on sep s in if eqb c sep then [] ∷ pieces else cons_first c pieces

scan_groups : bracketed (codes "a[b.md][ c][][[d, e]x]f[g") ≡ codes "b.md" ∷ codes "[d, e" ∷ []
unfolding bracketed
scan_groups = refl
