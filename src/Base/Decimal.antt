-- ===== src/Base/Decimal.antt =====
-- Numbers as text: `%d`, `strconv.FormatInt` in a base up to 36, and `strconv.Atoi` on digits.
use Prim.Native.Nat.{ℕ, zero, suc, ◌+◌, ◌-◌, ◌*◌, ◌/◌, ◌%◌}
use mathlib.Core.Bool.{◌&&◌}
use mathlib.Core.Option.{Option, none, some}
use mathlib.Core.List.{[], ◌∷◌}
use borgbase_operator.Base.Tests.{leb, ltb, if◌then◌else◌}
use borgbase_operator.Base.Strings.{Text}
use borgbase_operator.Base.Int.{ℤ, pos, negsuc}

-- The digits 0-9a-z.
unfoldable pub digit_char : ℕ → ℕ
digit_char d = if ltb d 10 then b'0' + d else b'a' + (d - 10)

-- The digits of `n` in front of `out`, on fuel.
unfoldable pub format_onto : ℕ → ℕ → ℕ → Text → Text
format_onto zero base n out = out
format_onto (suc fuel) base n out =
    let more = format_onto fuel base (n / base) (digit_char (n % base) ∷ out) in
    if ltb n base then digit_char n ∷ out else more

-- strconv.FormatInt for a number that is not negative; a number has at most as many digits
-- as its value, plus one.
unfoldable pub format_base : ℕ → ℕ → Text
unfolding format_onto digit_char
format_base base n = format_onto (suc n) base n []

-- `%d`
unfoldable pub format_nat : ℕ → Text
unfolding format_base
format_nat n = format_base 10 n

unfoldable pub format_int : ℤ → Text
unfolding format_nat
format_int (pos n) = format_nat n
format_int (negsuc n) = b'-' ∷ format_nat (suc n)

-- strconv.Atoi on text with no sign.
unfoldable pub scan_digits : Text → ℕ → Option ℕ
scan_digits [] n = some n
scan_digits (c ∷ s) n =
    let rest = scan_digits s (n * 10 + (c - b'0')) in
    if leb b'0' c && leb c b'9' then rest else none

unfoldable pub parse_nat : Text → Option ℕ
unfolding scan_digits
parse_nat [] = none
parse_nat (c ∷ s) = scan_digits (c ∷ s) 0
