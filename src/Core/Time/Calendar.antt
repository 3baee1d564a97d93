-- ===== src/Core/Time/Calendar.antt =====
-- Hinnant's `days_from_civil` against the calendar itself: years and months counted one by one.
use mcps.Prelude.{
  ℕ, zero, suc, ◌+◌, ◌-◌, ◌*◌, ◌/◌, ◌%◌, ◌≤◌, ◌<◌, ◌≡◌, refl, arith, ◌∙◌, ◌==◌, ==_iff, all_below,
  all_below_sound, true, false, if◌then◌else◌, get_or,
}
use mcps.Prelude.Int.{pos, leb_ℤ, ltb_ℤ, negsuc, sub_ℕ, quot, times, ◌+ℤ◌, ◌-ℤ◌}
use mcps.Core.Time.{
  is_leap_year, days_in_month, max_day, days_from_civil, era_of, within_era, day_of_year,
  day_of_era, since_epoch,
}

year_length : ℕ → ℕ
year_length y = if is_leap_year y then 366 else 365

-- The days from 0000-01-01 to the first of January of the year.
days_before_year : ℕ → ℕ
days_before_year zero = 0
days_before_year (suc y) = days_before_year y + year_length y

days_before_year_closed :
    (y : ℕ) → days_before_year y + (y + 99) / 100 ≡ 365 * y + (y + 3) / 4 + (y + 399) / 400
unfolding days_before_year year_length is_leap_year
days_before_year_closed zero = omega arith
days_before_year_closed (suc y) = ground (arith, days_before_year_closed y)

-- Each step on values that are not negative, as natural numbers.
era_of-pos : (y k : ℕ) → era_of (pos y) k ≡ pos (y / k)
unfolding era_of quot
era_of-pos y k = ground arith

within_era-pos : (y : ℕ) → within_era (pos y) (pos (y / 400)) 400 ≡ pos (y % 400)
unfolding within_era times ◌-ℤ◌
within_era-pos y = ground arith

day_of_year-pos : (mp d : ℕ) → day_of_year (pos mp) (pos (suc d)) ≡ pos ((153 * mp + 2) / 5 + d)
unfolding day_of_year
day_of_year-pos mp d = ground arith

day_of_era-pos :
    (yoe doy : ℕ) → day_of_era (pos yoe) (pos doy) ≡ pos (365 * yoe + yoe / 4 - yoe / 100 + doy)
unfolding day_of_era
day_of_era-pos yoe doy = ground arith

since_epoch-pos :
    (era doe : ℕ) → since_epoch (pos era) (pos doe) ≡ sub_ℕ (era * 146097 + doe) 719468
unfolding since_epoch
since_epoch-pos era doe = ground arith

sub_ℕ_eq : (a b c d : ℕ) → a + d ≡ c + b → sub_ℕ a b ≡ sub_ℕ c d
sub_ℕ_eq a b c d h = ground arith

era_sum :
    (y x : ℕ)
    → y / 400 * 146097 + (365 * (y % 400) + y % 400 / 4 - y % 400 / 100 + x) + (719468 + y / 100)
      ≡ 365 * y + y / 4 + y / 400 + x + 719468
era_sum y x = omega arith

-- The steps together, for a year that begins in March.
from_march :
    (y mp d : ℕ)
    → (let era = era_of (pos y) 400 in
        since_epoch era
          (day_of_era (within_era (pos y) era 400) (day_of_year (pos mp) (pos (suc d)))))
      ≡ sub_ℕ (365 * y + y / 4 + y / 400 + ((153 * mp + 2) / 5 + d)) (719468 + y / 100)
from_march y mp d =
    rw (era_of-pos y 400, within_era-pos y, day_of_year-pos mp d, day_of_era-pos, since_epoch-pos)
      (sub_ℕ_eq _ _ _ _ (era_sum y ((153 * mp + 2) / 5 + d)))

-- Hinnant's formula for months from March on, and for January and February.
days_from_civil-march :
    (y m d : ℕ)
    → 2 < m
    → days_from_civil (pos y) (pos m) (pos (suc d))
      ≡ sub_ℕ (365 * y + y / 4 + y / 400 + ((153 * (m - 3) + 2) / 5 + d)) (719468 + y / 100)
unfolding days_from_civil
days_from_civil-march y m d h =
    let a : leb_ℤ (pos m) (pos 2) ≡ false = ground arith in
    let b : ltb_ℤ (pos 2) (pos m) ≡ true = ground arith in
    let c : pos m -ℤ pos 3 ≡ pos (m - 3) = unfold ◌-ℤ◌ in ground arith in
    rw (a, days_from_civil) (rw b (rw c (from_march y (m - 3) d)))

days_from_civil-winter :
    (y m d : ℕ)
    → 1 ≤ m
    → m ≤ 2
    → days_from_civil (pos (suc y)) (pos m) (pos (suc d))
      ≡ sub_ℕ (365 * y + y / 4 + y / 400 + ((153 * (m + 9) + 2) / 5 + d)) (719468 + y / 100)
unfolding days_from_civil
days_from_civil-winter y m d h k =
    let a : leb_ℤ (pos m) (pos 2) ≡ true = ground arith in
    let b : ltb_ℤ (pos 2) (pos m) ≡ false = ground arith in
    let e : pos (suc y) -ℤ pos 1 ≡ pos y = unfold ◌-ℤ◌ in ground arith in
    let f : pos m +ℤ pos 9 ≡ pos (m + 9) = unfold ◌+ℤ◌ in ground arith in
    rw (a, days_from_civil) (rw b (rw (e, f) (from_march y (m + 9) d)))

-- The days of a year before its month `suc n`.
months_before : ℕ → ℕ → ℕ
months_before y zero = 0
months_before y (suc n) = months_before y n + max_day y (suc n)

-- The days from 0000-01-01 to a date.
pub day_number : ℕ → ℕ → ℕ → ℕ
day_number y m d = days_before_year y + months_before y (m - 1) + (d - 1)

-- From March on the months have the lengths of Hinnant's line.
month_table :
    all_below 9 (λ k. get_or days_in_month (k + 2) 0 + (153 * k + 2) / 5 == (153 * (k + 1) + 2) / 5)
    ≡ true
unfolding all_below
month_table = refl

max_day-march : (y k : ℕ) → k < 9 → max_day y (k + 3) + (153 * k + 2) / 5 ≡ (153 * (k + 1) + 2) / 5
unfolding max_day
max_day-march y k h =
    let t : get_or days_in_month (k + 2) 0 + (153 * k + 2) / 5 ≡ (153 * (k + 1) + 2) / 5 =
      (==_iff _ _).0 (all_below_sound 9 _ k month_table h) in
    let e : k + 3 - 1 ≡ k + 2 = omega arith in
    let n : (k + 3 == 2) ≡ false = ground arith in rw (n, max_day) (rw e t)

months_before-march :
    (y k : ℕ) → k ≤ 9 → months_before y (suc (suc k)) ≡ months_before y 2 + (153 * k + 2) / 5
unfolding months_before
months_before-march y zero h = omega arith
months_before-march y (suc k) h =
    let e : suc (suc (suc k)) ≡ k + 3 = omega arith in
    let long = max_day-march y k (omega arith) in
    rw e (omega (arith, months_before-march y k (omega arith)))

winter_months : (y : ℕ) → months_before y 2 + 306 ≡ year_length y
unfolding months_before max_day year_length
winter_months y = ground arith

-- The days before March, from the formula.
before_march :
    (y : ℕ) → days_before_year y + months_before y 2 + y / 100 ≡ 365 * y + y / 4 + y / 400 + 60
before_march y =
    let closed = days_before_year_closed (suc y) in
    let winter = winter_months y in
    let year : days_before_year (suc y) ≡ days_before_year y + year_length y =
      unfold days_before_year in refl in
    omega (arith, closed, winter, year)

calendar-march :
    (y k d : ℕ)
    → k ≤ 9
    → days_from_civil (pos y) (pos (k + 3)) (pos (suc d))
      ≡ sub_ℕ (day_number y (k + 3) (suc d)) 719528
calendar-march y k d h =
    let months = months_before-march y k h in
    let e : k + 3 - 1 ≡ suc (suc k) = omega arith in
    let same : k + 3 - 3 ≡ k = omega arith in
    days_from_civil-march y (k + 3) d (omega arith)
    ∙ sub_ℕ_eq (365 * y + y / 4 + y / 400 + ((153 * (k + 3 - 3) + 2) / 5 + d)) (719468 + y / 100)
        (day_number y (k + 3) (suc d)) 719528
        (unfold day_number in rw (e, same) (omega (arith, before_march y, months)))

january_february :
    (y m : ℕ) → 1 ≤ m → m ≤ 2 → months_before y (m - 1) + 306 ≡ (153 * (m + 9) + 2) / 5
unfolding months_before max_day
january_february y (suc zero) h k = omega arith
january_february y (suc (suc zero)) h k = ground arith
january_february y (suc (suc (suc m))) h k = absurd (omega arith)
january_february y zero h k = absurd (omega arith)

calendar-winter :
    (y m d : ℕ)
    → 1 ≤ m
    → m ≤ 2
    → days_from_civil (pos (suc y)) (pos m) (pos (suc d))
      ≡ sub_ℕ (day_number (suc y) m (suc d)) 719528
calendar-winter y m d h k =
    let closed = days_before_year_closed (suc y) in
    let months = january_february (suc y) m h k in
    days_from_civil-winter y m d h k
    ∙ sub_ℕ_eq (365 * y + y / 4 + y / 400 + ((153 * (m + 9) + 2) / 5 + d)) (719468 + y / 100)
        (day_number (suc y) m (suc d)) 719528 (unfold day_number in omega (arith, closed, months))

-- January and February of the year 0 stand in the era before.
since_epoch-first : (doe : ℕ) → since_epoch (negsuc 0) (pos doe) ≡ sub_ℕ doe 865565
unfolding since_epoch times ◌+ℤ◌ ◌-ℤ◌
since_epoch-first doe = ground arith

calendar-first :
    (m d : ℕ)
    → 1 ≤ m
    → m ≤ 2
    → days_from_civil (pos 0) (pos m) (pos (suc d)) ≡ sub_ℕ (day_number 0 m (suc d)) 719528
unfolding days_from_civil
calendar-first m d h k =
    let a : leb_ℤ (pos m) (pos 2) ≡ true = ground arith in
    let b : ltb_ℤ (pos 2) (pos m) ≡ false = ground arith in
    let f : pos m +ℤ pos 9 ≡ pos (m + 9) = unfold ◌+ℤ◌ in ground arith in
    let era : era_of (pos 0 -ℤ pos 1) 400 ≡ negsuc 0 = unfold era_of quot ◌-ℤ◌ in refl in
    let within : within_era (pos 0 -ℤ pos 1) (negsuc 0) 400 ≡ pos 399 =
      unfold within_era times ◌-ℤ◌ in refl in
    let months = january_february 0 m h k in
    rw (a, days_from_civil)
      (rw b (
        rw (f, era, within, day_of_year-pos (m + 9) d, day_of_era-pos, since_epoch-first)
          (sub_ℕ_eq _ _ _ _ (unfold day_number days_before_year in omega (arith, months)))))

-- `days_from_civil`, on a year from 0 on, a month of the year and a day from 1 on, is the number of
-- days from 1970-01-01 to that date as the calendar counts them: 719528 fewer than from 0000-01-01.
pub days_from_civil_calendar :
    (y m d : ℕ)
    → 1 ≤ m
    → m ≤ 12
    → 1 ≤ d
    → days_from_civil (pos y) (pos m) (pos d) ≡ sub_ℕ (day_number y m d) 719528
days_from_civil_calendar y m zero h k l = absurd (omega arith)
days_from_civil_calendar y zero (suc d) h k l = absurd (omega arith)
days_from_civil_calendar zero (suc zero) (suc d) h k l = calendar-first 1 d h (omega arith)
days_from_civil_calendar (suc y) (suc zero) (suc d) h k l = calendar-winter y 1 d h (omega arith)
days_from_civil_calendar zero (suc (suc zero)) (suc d) h k l = calendar-first 2 d h (omega arith)
days_from_civil_calendar (suc y) (suc (suc zero)) (suc d) h k l =
    calendar-winter y 2 d h (omega arith)
days_from_civil_calendar y (suc (suc (suc m))) (suc d) h k l =
    let e : suc (suc (suc m)) ≡ m + 3 = omega arith in rw e (calendar-march y m d (omega arith))
