-- ===== src/Base/Decimal.antt =====
-- Numbers as decimal text: `Display` of the integers.
use Prim.Native.Char.{Char}
use Prim.Native.Nat.{ℕ, zero, suc, ◌+◌, ◌/◌, ◌%◌}
use Prim.Native.String.{String}
use superkube.Base.Tests.{if◌then◌else◌, eqb}
use superkube.Base.Int.{ℤ, pos, negsuc}
use superkube.Base.Text.{append}

unfoldable pub digit : ℕ → Char
digit n =
    if eqb n 0
    then "0"
    else if eqb n 1
    then "1"
    else if eqb n 2
    then "2"
    else if eqb n 3
    then "3"
    else if eqb n 4
    then "4"
    else if eqb n 5
    then "5"
    else if eqb n 6
    then "6"
    else if eqb n 7
    then "7"
    else if eqb n 8
    then "8"
    else "9"

-- The digits of `n` in front of `rest`, by fuel.
unfoldable pub show_text_before : ℕ → ℕ → String → String
unfolding digit
show_text_before zero n rest = rest
show_text_before (suc fuel) n rest =
    let more = show_text_before fuel (n / 10) (String.◌∷◌ (digit (n % 10)) rest) in
    if eqb (n / 10) 0 then String.◌∷◌ (digit (n % 10)) rest else more

unfoldable pub show_text : ℕ → String
unfolding show_text_before
show_text n = show_text_before (n + 1) n ""

unfoldable pub show_int : ℤ → String
unfolding show_text
show_int (pos n) = show_text n
show_int (negsuc n) = append "-" (show_text (n + 1))
