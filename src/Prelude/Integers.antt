-- ===== src/Prelude/Integers.antt =====
-- `int` on a text of ASCII.
use Prim.Native.Nat.{ℕ, ◌+◌, ◌-◌, ◌*◌}
use mathlib.Core.Bool.{Bool, true, false, ◌&&◌}
use mathlib.Core.Option.{Option, none, some}
use mathlib.Core.List.{[], ◌∷◌}
use archiviste_nocilia.Prelude.Tests.{leb, eqb, if◌then◌else◌}
use archiviste_nocilia.Prelude.Texts.{Text, strip}

-- Digits, with single underscores between them.
abbrev pub read_digits : ℕ → Bool → Text → Option ℕ
read_digits acc seen [] = if seen then some acc else none
read_digits acc seen (c ∷ s) =
    let digit = read_digits (acc * 10 + (c - 48)) true s in
    let gap = read_digits acc false s in
    if leb 48 c && leb c 57 then digit else if eqb c b'_' && seen then gap else none

abbrev pub signed : Bool → Option ℕ → Option (Bool × ℕ)
signed sign none = none
signed sign (some n) = some (sign, n)

abbrev pub read_signed : Text → Option (Bool × ℕ)
read_signed [] = none
read_signed (c ∷ s) =
    if eqb c b'-'
    then signed true (read_digits 0 false s)
    else if eqb c b'+'
    then signed false (read_digits 0 false s)
    else signed false (read_digits 0 false (c ∷ s))

-- `int(s)`, as whether it has a minus and its amount; `none` is a ValueError.
unfoldable pub read_int : Text → Option (Bool × ℕ)
unfolding strip
read_int s = read_signed (strip s)
