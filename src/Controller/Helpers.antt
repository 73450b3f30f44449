-- ===== src/Controller/Helpers.antt =====
-- internal/controller/helpers.go, and the durations of the two reconcilers in nanoseconds.
use borgbase_operator.Base.{
  ℕ, ◌+◌, ◌*◌, ◌/◌, ◌%◌, ◌^◌, ltb, leb, Text, codes, format_nat, format_int, ℤ, is_positive, not,
  ◌++◌, [], if◌then◌else◌,
}
use borgbase_operator.Borgbase.Types.{Float64, float_positive}

abbrev pub second : ℕ
second = 1000000000

abbrev pub minute : ℕ
minute = 60 * second

abbrev pub hour : ℕ
hour = 60 * minute

abbrev pub label_managed_by : Text
label_managed_by = codes "app.kubernetes.io/managed-by"

abbrev pub managed_by_value : Text
managed_by_value = codes "borgbase-operator"

-- The nearest whole number to a / b, where halves go up (`math.Round` of a positive number).
abbrev round_half_up : ℕ → ℕ → ℕ
round_half_up a b = (2 * a + b) / (2 * b)

-- The nearest whole number to a / b, where halves go to the even one (`%.1f`).
round_half_even : ℕ → ℕ → ℕ
round_half_even a b =
    let q = a / b in
    let r = 2 * (a % b) in if ltb r b then q else if ltb b r then q + 1 else q + q % 2

-- `%.1f` of a / b.
one_decimal : ℕ → ℕ → Text
unfolding round_half_even
one_decimal a b =
    let tenths = round_half_even (10 * a) b in
    format_nat (tenths / 10) ++ (codes "." ++ format_nat (tenths % 10))

-- `func formatUsage`, where products and quotients are not rounded to a float64.
unfoldable pub format_usage : Float64 → Text
unfolding one_decimal
format_usage gb =
    if not (float_positive gb)
    then codes "0"
    else if ltb gb.magnitude (2 ^ gb.scale)
    then format_nat (round_half_up (1000 * gb.magnitude) (2 ^ gb.scale)) ++ codes "MB"
    else if leb (1000 * 2 ^ gb.scale) gb.magnitude
    then one_decimal gb.magnitude (1000 * 2 ^ gb.scale) ++ codes "TB"
    else one_decimal gb.magnitude (2 ^ gb.scale) ++ codes "GB"

-- `func formatQuota`
unfoldable pub format_quota : ℤ → Text
format_quota gb = if not (is_positive gb) then [] else format_int gb ++ codes "GB"
