-- ===== src/Prelude/Text.antt =====
-- Texts: decimal and hexadecimal digits of numbers, as `str(n)` and f"{n:04x}" print them.
use Prim.Native.Nat.{ℕ, zero, suc, ◌+◌, ◌/◌, ◌%◌}
use Prim.Native.String.{String, ◌++◌ as ◌<>◌}
use mathlib.Core.Path.{◌≡◌, refl}
use mathlib.Core.List.{List, [], ◌∷◌}
use canokey_usbip.Prelude.Tests.{ltb, eqb, if◌then◌else◌}
use canokey_usbip.Prelude.Signed.{ℤ, pos, negsuc}

-- One digit, in a base up to 16.
unfoldable pub digit : ℕ → String
digit d =
    if eqb d 0
    then "0"
    else if eqb d 1
    then "1"
    else if eqb d 2
    then "2"
    else if eqb d 3
    then "3"
    else if eqb d 4
    then "4"
    else if eqb d 5
    then "5"
    else if eqb d 6
    then "6"
    else if eqb d 7
    then "7"
    else if eqb d 8
    then "8"
    else if eqb d 9
    then "9"
    else if eqb d 10
    then "a"
    else if eqb d 11
    then "b"
    else if eqb d 12
    then "c"
    else if eqb d 13
    then "d"
    else if eqb d 14
    then "e"
    else "f"

-- A number has fewer digits than its successor's value, so the fuel n + 1 suffices.
digits_onto : ℕ → ℕ → ℕ → String → String
digits_onto base zero n acc = acc
digits_onto base (suc f) n acc =
    let rest = digits_onto base f (n / base) (digit (n % base) <> acc) in
    if ltb n base then digit n <> acc else rest

unfoldable pub show : ℕ → String
unfolding digits_onto digit
show n = digits_onto 10 (n + 1) n ""

-- f"{n:0wx}": the hexadecimal digits, with zeros in front up to the width.
unfoldable pub show_hex_wide : ℕ → ℕ → String
unfolding digits_onto digit
show_hex_wide zero n = if eqb n 0 then "" else digits_onto 16 (n + 1) n ""
show_hex_wide (suc w) n = show_hex_wide w (n / 16) <> digit (n % 16)

-- str(n)
unfoldable pub show_int : ℤ → String
unfolding show
show_int (pos n) = show n
show_int (negsuc n) = "-" <> show (n + 1)

-- sep.join(parts)
unfoldable pub joined : String → List String → String
joined sep [] = ""
joined sep (x ∷ []) = x
joined sep (x ∷ y ∷ ys) = x <> (sep <> joined sep (y ∷ ys))

show-1024 : show 1024 ≡ "1024"
unfolding show
show-1024 = refl
