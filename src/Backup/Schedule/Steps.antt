-- ===== src/Backup/Schedule/Steps.antt =====
-- schedule.go, resolveEvery: which durations `@every` takes.
use borgbase_operator.Base.{ℕ, ◌*◌, ◌/◌, ◌%◌, ◌≤◌, ◌<◌, Text, ℤ, pos, negsuc, ◌≡◌, ◌⊎◌, refl, arith}
use borgbase_operator.Errors.{Result, ok, err}
use borgbase_operator.Backup.Schedule.{ns_minute, ns_hour, every, every_minutes, every_hours}

-- A duration after which a cron schedule can repeat evenly: a whole number of minutes that
-- divides an hour, or a whole number of hours that divides a day.
abbrev pub IsEven : ℤ → Type 0
IsEven (negsuc _) = ⊥
IsEven (pos dur) =
    (0 < dur)
    × (((dur < ns_hour) × ((dur % ns_minute ≡ 0) × (60 % (dur / ns_minute) ≡ 0)))
        ⊎ ((ns_hour ≤ dur)
            × ((dur ≤ 24 * ns_hour) × ((dur % ns_hour ≡ 0) × (24 % (dur / ns_hour) ≡ 0)))))

abbrev Accepted : Result Text → Type 0
Accepted (ok _) = Unit
Accepted (err _) = ⊥

Accepted-ok : (r : Result Text) → Accepted r → (t : Text) × (r ≡ ok t)
Accepted-ok (ok t) h = (t, refl)
Accepted-ok (err _) h = absurd h

module _ (d : Text) (minute hour dur : ℕ) where
  minutes-IsEven :
      0 < dur
      → dur < ns_hour
      → ((dur % ns_minute ≡ 0) × (60 % (dur / ns_minute) ≡ 0))
      → Accepted (every_minutes d minute dur)
  unfolding every_minutes
  minutes-IsEven positive below even = ground arith

  even-minutes :
      Accepted (every_minutes d minute dur) → (dur % ns_minute ≡ 0) × (60 % (dur / ns_minute) ≡ 0)
  unfolding every_minutes
  even-minutes h = ground arith

  hours-IsEven :
      ((dur % ns_hour ≡ 0) × (24 % (dur / ns_hour) ≡ 0)) → Accepted (every_hours d minute hour dur)
  unfolding every_hours
  hours-IsEven even = ground arith

  even-hours :
      Accepted (every_hours d minute hour dur) → (dur % ns_hour ≡ 0) × (24 % (dur / ns_hour) ≡ 0)
  unfolding every_hours
  even-hours h = ground arith

  every_accepts : Accepted (every d minute hour (pos dur)) → IsEven (pos dur)
  unfolding every
  every_accepts h = ground (arith, even-minutes, even-hours)

  every_covers : IsEven (pos dur) → Accepted (every d minute hour (pos dur))
  unfolding every
  every_covers e = ground (arith, minutes-IsEven, hours-IsEven)

accepts : (d : Text) (minute hour : ℕ) (dur : ℤ) → Accepted (every d minute hour dur) → IsEven dur
unfolding every
accepts d minute hour (pos dur) h = every_accepts d minute hour dur h
accepts d minute hour (negsuc n) h = h

covers : (d : Text) (minute hour : ℕ) (dur : ℤ) → IsEven dur → Accepted (every d minute hour dur)
covers d minute hour (pos dur) e = every_covers d minute hour dur e
covers d minute hour (negsuc n) e = absurd e

-- `@every` with a duration of `dur` nanoseconds, which may be negative, has a schedule exactly if
-- the duration is even: a positive whole number of minutes that divides an hour, or of hours that
-- divides a day.
pub every-IsEven :
    (d : Text) (minute hour : ℕ) (dur : ℤ)
    → (((t : Text) × (every d minute hour dur ≡ ok t)) → IsEven dur)
      × (IsEven dur → (t : Text) × (every d minute hour dur ≡ ok t))
every-IsEven d minute hour dur = (
  (λ (t, h). accepts d minute hour dur (rw h tt)),
  λ e. Accepted-ok _ (covers d minute hour dur e),
)
