-- ===== src/Core/Time/Tests.antt =====
-- Tests and witnesses for mcps-core/src/time.rs.
use mcps.Prelude.{arith, ◌↔◌, ◌≡◌, refl, codes, ok, err}
use mcps.Prelude.Int.{IsI64, sub_ℕ, saturating_add, saturating_sub, pos, negsuc}
use mcps.Core.Time.Freshness.{Fresh, in_window_exact, check_freshness_fails_closed}
use mcps.Core.Time.Calendar.{day_number, days_from_civil_calendar}
use mcps.Core.Time.{in_window, check_freshness, days_from_civil, parse_rfc3339_utc}
use mcps.Core.Time.Format.{unix_to_rfc3339_utc}
use mcps.Core.Error.{expired_request}

known_2026_epoch : parse_rfc3339_utc (codes "2026-05-28T20:00:00Z") ≡ ok (pos 1779998400)
unfolding parse_rfc3339_utc codes
known_2026_epoch = refl

fraction_truncates : parse_rfc3339_utc (codes "1970-01-01T00:00:01.999Z") ≡ ok (pos 1)
unfolding parse_rfc3339_utc codes
fraction_truncates = refl

first_instant : parse_rfc3339_utc (codes "0000-01-01T00:00:00Z") ≡ ok (negsuc 62167219199)
unfolding parse_rfc3339_utc codes
first_instant = refl

no_leap_day : parse_rfc3339_utc (codes "2100-02-29T00:00:00Z") ≡ err expired_request
unfolding parse_rfc3339_utc codes
no_leap_day = refl

formats_2026 : unix_to_rfc3339_utc (pos 1779998400) ≡ codes "2026-05-28T20:00:00Z"
unfolding unix_to_rfc3339_utc codes
formats_2026 = refl

formats_before_the_epoch : unix_to_rfc3339_utc (negsuc 0) ≡ codes "1969-12-31T23:59:59Z"
unfolding unix_to_rfc3339_utc codes
formats_before_the_epoch = refl

formats_first_instant : unix_to_rfc3339_utc (negsuc 62167219199) ≡ codes "0000-01-01T00:00:00Z"
unfolding unix_to_rfc3339_utc codes
formats_first_instant = refl

clock_fits : IsI64 (pos 1779998400)
clock_fits = ground arith

in_window_exact_example :
    (in_window (pos 1779998400) (pos 1779998400) (pos 1779998400) (pos 30) ≡ ok tt)
    ↔ Fresh (pos 1779998400) (pos 1779998400) (pos 1779998400) (pos 30)
in_window_exact_example =
    in_window_exact (pos 1779998400) (pos 1779998400) (pos 1779998400) (pos 30) clock_fits
      clock_fits clock_fits (omega arith)

too_late :
    check_freshness
      (codes "2026-05-28T20:00:00Z")
      (codes "2026-05-28T20:00:00Z")
      (pos 1779998431)
      (pos 30)
    ≡ err expired_request
unfolding check_freshness codes saturating_add saturating_sub
too_late = refl

check_freshness_fails_closed_example : expired_request ≡ expired_request
check_freshness_fails_closed_example =
    check_freshness_fails_closed (codes "2026-05-28T20:00:00Z") (codes "2026-05-28T20:00:00Z")
      (pos 1779998431) (pos 30) expired_request too_late

days_from_civil_calendar_example :
    days_from_civil (pos 2024) (pos 2) (pos 29) ≡ sub_ℕ (day_number 2024 2 29) 719528
days_from_civil_calendar_example =
    days_from_civil_calendar 2024 2 29 (omega arith) (omega arith) (omega arith)
