-- ===== src/Core/Time/Format.antt =====
-- mcps-core/src/time.rs: the formatter, by Hinnant's inverse.
use mcps.Prelude.{ℕ, suc, ◌/◌, ◌%◌, Str, [], ◌∷◌, leb, if◌then◌else◌, ◌++◌}
use mcps.Prelude.Int.{
  ℤ, pos, negsuc, pos_part, ◌+ℤ◌, ◌-ℤ◌, ltb_ℤ, times, quot, div_euclid, rem_euclid,
}
use mcps.Prelude.Decimal.{decimal, pad_zeros}
use mcps.Core.Time.{era_of, within_era}

-- Hinnant's inverse.
unfoldable pub year_of_era : ℤ → ℤ
unfolding quot ◌+ℤ◌ ◌-ℤ◌
year_of_era doe = quot (doe -ℤ quot doe 1460 +ℤ quot doe 36524 -ℤ quot doe 146096) 365

unfoldable pub day_in_year : ℤ → ℤ → ℤ
unfolding times quot ◌+ℤ◌ ◌-ℤ◌
day_in_year doe yoe = doe -ℤ (times yoe 365 +ℤ quot yoe 4 -ℤ quot yoe 100)

unfoldable pub month_position : ℤ → ℤ
unfolding times quot ◌+ℤ◌
month_position doy = quot (times doy 5 +ℤ pos 2) 153

-- The casts to `u32` are of values that are not negative.
unfoldable pub day_in_month : ℤ → ℤ → ℕ
unfolding times quot ◌+ℤ◌ ◌-ℤ◌
day_in_month doy mp = pos_part (doy -ℤ quot (times mp 153 +ℤ pos 2) 5 +ℤ pos 1)

unfoldable pub month_of : ℤ → ℕ
unfolding ◌+ℤ◌ ◌-ℤ◌
month_of mp = pos_part (if ltb_ℤ mp (pos 10) then mp +ℤ pos 3 else mp -ℤ pos 9)

unfoldable pub civil_from_days : ℤ → ℤ × ℕ × ℕ
civil_from_days days =
    let z = days +ℤ pos 719468 in
    let era = era_of z 146097 in
    let doe = within_era z era 146097 in
    let yoe = year_of_era doe in
    let y = yoe +ℤ times era 400 in
    let doy = day_in_year doe yoe in
    let mp = month_position doy in
    let m = month_of mp in (if leb m 2 then y +ℤ pos 1 else y, m, day_in_month doy mp)

unfoldable pub two_digits : ℕ → Str
unfolding decimal pad_zeros
two_digits n = pad_zeros 2 (decimal n)

-- `{year:04}`: a sign counts towards the width.
unfoldable pub four_digits : ℤ → Str
unfolding decimal pad_zeros
four_digits (pos n) = pad_zeros 4 (decimal n)
four_digits (negsuc n) = b'-' ∷ pad_zeros 3 (decimal (suc n))

unfoldable pub unix_to_rfc3339_utc : ℤ → Str
unfolding civil_from_days era_of within_era year_of_era day_in_year month_position day_in_month
    month_of times ◌+ℤ◌ two_digits four_digits rem_euclid div_euclid
unix_to_rfc3339_utc unix =
    let secs = rem_euclid unix 86400 in
    let (year, month, day) = civil_from_days (div_euclid unix 86400) in
    four_digits year
    ++ b'-'
      ∷ (two_digits month
          ++ b'-'
            ∷ (two_digits day
                ++ b'T'
                  ∷ (two_digits (secs / 3600)
                      ++ b':'
                        ∷ (two_digits (secs % 3600 / 60)
                            ++ b':' ∷ (two_digits (secs % 60) ++ b'Z' ∷ [])))))
