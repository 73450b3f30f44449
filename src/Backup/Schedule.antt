-- ===== src/Backup/Schedule.antt =====
-- internal/backup/schedule.go: cron shorthands.
pub mod Steps
use borgbase_operator.Base.{
  ℕ, suc, ◌+◌, ◌*◌, ◌/◌, ◌%◌, ◌^◌, bit_xor, ltb, ◌==◌, Text, codes, is_empty, text_eq, has_prefix,
  trim_space, fields, format_nat, length, drop, Bool, not, ◌||◌, List, [], ◌∷◌, ◌++◌, ℤ, pos,
  negsuc, if◌then◌else◌,
}
use borgbase_operator.Errors.{plain, wrap, Result, ok, err}
use borgbase_operator.Backup.Tools.{Tools}

abbrev pub ns_minute : ℕ
ns_minute = 60000000000

abbrev pub ns_hour : ℕ
ns_hour = 3600000000000

-- hash/fnv: `New32a` and `Write`, on 32 bits.
unfoldable pub fnv32a : Text → ℕ → ℕ
fnv32a [] h = h
fnv32a (b ∷ s) h = fnv32a s ((bit_xor h b * 16777619) % 2 ^ 32)

-- `func jitter`
unfoldable pub jitter : Text → ℕ
unfolding fnv32a
jitter key = fnv32a key 2166136261 % 2 ^ 24

-- `"<before>%q<after>"`
abbrev quoting : Text → Text → Text → Text
quoting before d after = before ++ (codes "\"" ++ (d ++ (codes "\"" ++ after)))

abbrev every_error : Text → Text → Result Text
every_error d problem = err (plain (quoting (codes "@every duration ") d problem))

-- A number of minutes that is below an hour.
unfoldable every_minutes : Text → ℕ → ℕ → Result Text
every_minutes d minute dur =
    let mins = dur / ns_minute in
    if (mins == 0) || not (dur % ns_minute == 0)
    then every_error d (codes " must be a whole number of minutes")
    else if not (60 % mins == 0)
    then every_error d (codes " must divide evenly into an hour")
    else ok (format_nat (minute % mins) ++ (codes "-59/" ++ (format_nat mins ++ codes " * * * *")))

-- A number of hours that is below a day.
unfoldable every_hours : Text → ℕ → ℕ → ℕ → Result Text
every_hours d minute hour dur =
    let hours = dur / ns_hour in
    if not (dur % ns_hour == 0)
    then every_error d (codes " must be a whole number of hours")
    else if not (24 % hours == 0)
    then every_error d (codes " must divide evenly into a day")
    else ok (
        format_nat minute
        ++ (codes " "
            ++ (format_nat (hour % hours)
                ++ (codes "-23/" ++ (format_nat hours ++ codes " * * *")))))

-- The switch of `resolveEvery` on the parsed duration.
unfoldable pub every : Text → ℕ → ℕ → ℤ → Result Text
unfolding every_minutes every_hours
every d minute hour (negsuc _) = every_error d (codes " must be positive")
every d minute hour (pos dur) =
    if dur == 0
    then every_error d (codes " must be positive")
    else if ltb dur ns_hour
    then every_minutes d minute dur
    else if dur == ns_hour
    then ok (format_nat minute ++ codes " * * * *")
    else if ltb dur (24 * ns_hour)
    then every_hours d minute hour dur
    else if dur == 24 * ns_hour
    then ok (format_nat minute ++ (codes " " ++ (format_nat hour ++ codes " * * *")))
    else every_error d (codes " is longer than a day; use an explicit cron expression")

module _ (tools : Tools) where
  -- `func resolveEvery`
  unfoldable pub resolve_every : Text → ℕ → ℕ → Result Text
  resolve_every d minute hour = elim (tools.parse_duration d) [
    | ok dur ↦ every d minute hour dur
    | err e ↦ err (wrap (quoting (codes "parsing @every duration ") d (codes ": ")) e [])
  ]

  -- A shorthand, with the hash of the key.
  unfoldable pub resolve_shorthand : Text → ℕ → Result Text
  unfolding resolve_every
  resolve_shorthand schedule h =
      let minute = h % 60 in
      let hour = (h / 60) % 24 in
      let at : Text → Result Text =
        λ days. ok (format_nat minute ++ (codes " " ++ (format_nat hour ++ (codes " " ++ days)))) in
      if text_eq schedule (codes "@hourly")
      then ok (format_nat minute ++ codes " * * * *")
      else if text_eq schedule (codes "@daily") || text_eq schedule (codes "@midnight")
      then at (codes "* * *")
      else if text_eq schedule (codes "@weekly")
      then at (codes "* * " ++ format_nat ((h / 1440) % 7))
      else if text_eq schedule (codes "@monthly")
      then at (format_nat ((h / 1440) % 28 + 1) ++ codes " * *")
      else if text_eq schedule (codes "@yearly") || text_eq schedule (codes "@annually")
      then at (
          format_nat ((h / 1440) % 28 + 1)
          ++ (codes " " ++ (format_nat ((h / 40320) % 12 + 1) ++ codes " *")))
      else if has_prefix schedule (codes "@every ")
      then resolve_every (trim_space (drop 7 schedule)) minute hour
      else err (plain (quoting (codes "unknown schedule shorthand ") schedule []))

  -- `func ResolveSchedule`
  unfoldable pub resolve_schedule : Text → Text → Result Text
  unfolding resolve_shorthand
  resolve_schedule given key =
      let schedule = trim_space given in
      if is_empty schedule
      then err (plain (codes "schedule is empty"))
      else if has_prefix schedule (codes "@")
      then resolve_shorthand schedule (jitter key)
      else if length (fields schedule) == 5
      then ok schedule
      else err (
          plain (
            quoting (codes "cron expression ") schedule (
              codes " has " ++ (format_nat (length (fields schedule)) ++ codes " fields, want 5"))))
