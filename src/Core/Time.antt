-- ===== src/Core/Time.antt =====
-- mcps-core/src/time.rs: strict RFC 3339 timestamps and the freshness window. The code's `i64` are
-- integers; parsed fields are never negative, and the checks of `Time/Calendar` bound the rest.
pub mod Format
pub mod Freshness
pub mod Calendar
mod Tests
use mcps.Prelude.{
  ℕ, zero, suc, ◌+◌, ◌-◌, ◌*◌, ◌/◌, ◌%◌, Str, as_bytes, str_eq, Bool, true, false, ◌&&◌, ◌||◌, not,
  Option, none, some, List, [], ◌∷◌, Result, ok, err, ltb, leb, ◌==◌, if◌then◌else◌, length, drop,
  get_elem?, guard, ◌>>=◌, ◌>>◌, ok_or, get_or, ◌++◌, codes,
}
use mcps.Prelude.Int.{
  ℤ, pos, negsuc, pos_part, neg_part, sub_ℕ, ◌+ℤ◌, ◌-ℤ◌, ltb_ℤ, leb_ℤ, saturating_add,
  saturating_sub, times, quot, div_euclid, rem_euclid,
}
use mcps.Prelude.Decimal.{decimal, pad_zeros}
use mcps.Core.Error.{McpsError, expired_request}

-- January at 0.
abbrev pub days_in_month : List ℕ
days_in_month = 31 ∷ 28 ∷ 31 ∷ 30 ∷ 31 ∷ 30 ∷ 31 ∷ 31 ∷ 30 ∷ 31 ∷ 30 ∷ 31 ∷ []

unfoldable pub is_leap_year : ℕ → Bool
is_leap_year year = (year % 4 == 0 && not (year % 100 == 0)) || year % 400 == 0

unfoldable pub is_ascii_digit : ℕ → Bool
is_ascii_digit b = leb b'0' b && leb b b'9'

-- The loop of `parse_fixed_digits` over the bytes that are left of the slice.
digits_from : ℕ → ℕ → List ℕ → Option ℕ
digits_from value zero bs = some value
digits_from value (suc n) [] = none
digits_from value (suc n) (b ∷ bs) =
    let rest = digits_from (value * 10 + (b - b'0')) n bs in if is_ascii_digit b then rest else none

unfoldable pub parse_fixed_digits : List ℕ → ℕ → ℕ → Option ℕ
unfolding digits_from
parse_fixed_digits bytes start n = digits_from 0 n (drop start bytes)

-- Hinnant's algorithm, over `i64`, in the steps that it names.
unfoldable pub era_of : ℤ → ℕ → ℤ
unfolding quot ◌-ℤ◌
era_of y length = quot (if leb_ℤ (pos 0) y then y else y -ℤ pos (length - 1)) length

unfoldable pub within_era : ℤ → ℤ → ℕ → ℤ
unfolding times ◌-ℤ◌
within_era y era length = y -ℤ times era length

unfoldable pub day_of_year : ℤ → ℤ → ℤ
unfolding times quot ◌+ℤ◌ ◌-ℤ◌
day_of_year shifted day = quot (times shifted 153 +ℤ pos 2) 5 +ℤ day -ℤ pos 1

unfoldable pub day_of_era : ℤ → ℤ → ℤ
unfolding times quot ◌+ℤ◌ ◌-ℤ◌
day_of_era yoe doy = times yoe 365 +ℤ quot yoe 4 -ℤ quot yoe 100 +ℤ doy

unfoldable pub since_epoch : ℤ → ℤ → ℤ
unfolding times ◌+ℤ◌ ◌-ℤ◌
since_epoch era doe = times era 146097 +ℤ doe -ℤ pos 719468

unfoldable pub days_from_civil : ℤ → ℤ → ℤ → ℤ
days_from_civil year month day =
    let y = if leb_ℤ month (pos 2) then year -ℤ pos 1 else year in
    let era = era_of y 400 in
    let yoe = within_era y era 400 in
    let shifted = if ltb_ℤ (pos 2) month then month -ℤ pos 3 else month +ℤ pos 9 in
    since_epoch era (day_of_era yoe (day_of_year shifted day))

split_last : List ℕ → Option (ℕ × List ℕ)
split_last [] = none
split_last (b ∷ []) = some (b, [])
split_last (b ∷ c ∷ bs) = elim (split_last (c ∷ bs)) [
  | none ↦ none
  | some (last, front) ↦ some (last, b ∷ front)
]

all_digits : List ℕ → Bool
all_digits [] = true
all_digits (b ∷ bs) = is_ascii_digit b && all_digits bs

-- The bytes behind the `.`: one digit or more, and the `Z`.
fraction_digits : List ℕ → Bool
unfolding split_last all_digits
fraction_digits frac = elim (split_last frac) [
  | none ↦ false
  | some (last, []) ↦ false
  | some (last, d ∷ digits) ↦ last == b'Z' && all_digits (d ∷ digits)
]

fraction_ok : List ℕ → Bool
unfolding fraction_digits
fraction_ok [] = false
fraction_ok (b ∷ []) = b == b'Z'
fraction_ok (b ∷ c ∷ bs) = b == b'.' && fraction_digits (c ∷ bs)

unfoldable pub max_day : ℕ → ℕ → ℕ
unfolding is_leap_year
max_day year month =
    if month == 2 && is_leap_year year then 29 else get_or days_in_month (month - 1) 0

separators_ok : List ℕ → Bool
separators_ok bytes =
    get_or bytes 4 0 == b'-'
    && (get_or bytes 7 0 == b'-'
        && (get_or bytes 10 0 == b'T' && (get_or bytes 13 0 == b':' && get_or bytes 16 0 == b':')))

-- The fields of a timestamp, before they are checked.
pub record Fields : Type 0 where
  pub year : ℕ
  pub month : ℕ
  pub day : ℕ
  pub hour : ℕ
  pub minute : ℕ
  pub second : ℕ

-- `parse_rfc3339_utc` in three parts: the layout, the ranges, and the sum.
unfoldable pub parse_fields : List ℕ → Result McpsError Fields
unfolding parse_fixed_digits fraction_ok separators_ok is_ascii_digit
parse_fields bytes = do
  guard (not (ltb (length bytes) 20)) expired_request
  guard (separators_ok bytes) expired_request
  year ← ok_or (parse_fixed_digits bytes 0 4) expired_request
  month ← ok_or (parse_fixed_digits bytes 5 2) expired_request
  day ← ok_or (parse_fixed_digits bytes 8 2) expired_request
  hour ← ok_or (parse_fixed_digits bytes 11 2) expired_request
  minute ← ok_or (parse_fixed_digits bytes 14 2) expired_request
  second ← ok_or (parse_fixed_digits bytes 17 2) expired_request
  guard (fraction_ok (drop 19 bytes)) expired_request
  ok (record {
    year = year;
    month = month;
    day = day;
    hour = hour;
    minute = minute;
    second = second;
  })

unfoldable pub check_ranges : Fields → Result McpsError (Unit {0})
unfolding max_day
check_ranges f = do
  guard (leb 1 f.month && leb f.month 12) expired_request
  guard (not (ltb f.day 1 || ltb (max_day f.year f.month) f.day)) expired_request
  guard (not (ltb 23 f.hour || (ltb 59 f.minute || ltb 59 f.second))) expired_request

unfoldable pub unix_seconds : Fields → ℤ
unfolding days_from_civil era_of within_era day_of_year day_of_era since_epoch times ◌+ℤ◌ ◌-ℤ◌
unix_seconds f =
    times (days_from_civil (pos f.year) (pos f.month) (pos f.day)) 86400
    +ℤ pos (f.hour * 3600)
    +ℤ pos (f.minute * 60)
    +ℤ pos f.second

unfoldable pub parse_rfc3339_utc : Str → Result McpsError ℤ
unfolding parse_fields check_ranges unix_seconds as_bytes
parse_rfc3339_utc s = do f ← parse_fields (as_bytes s); check_ranges f; ok (unix_seconds f)

-- The freshness window, both ends included.
unfoldable pub in_window : ℤ → ℤ → ℤ → ℤ → Result McpsError (Unit {0})
in_window issued expires now_unix max_clock_skew_secs =
    let lower = saturating_sub issued max_clock_skew_secs in
    let upper = saturating_add expires max_clock_skew_secs in
    do
      guard (not (ltb_ℤ expires issued)) expired_request
      guard (not (ltb_ℤ now_unix lower || ltb_ℤ upper now_unix)) expired_request

unfoldable pub check_freshness : Str → Str → ℤ → ℤ → Result McpsError (Unit {0})
unfolding parse_rfc3339_utc in_window
check_freshness issued_at expires_at now_unix max_clock_skew_secs = do
  issued ← parse_rfc3339_utc issued_at
  expires ← parse_rfc3339_utc expires_at
  in_window issued expires now_unix max_clock_skew_secs
