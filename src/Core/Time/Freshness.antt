-- ===== src/Core/Time/Freshness.antt =====
-- `check_freshness`: the saturating arithmetic decides the exact window.
use mcps.Prelude.{◌≡◌, ◌↔◌, Str, ok, err, >>=-eq-ok, arith, FailsOnly, fails_rules, List, ℕ}
use mcps.Prelude.Int.{
  ℤ, pos, IsI64, ◌≤ℤ◌, ◌+ℤ◌, ◌-ℤ◌, saturating_add, saturating_sub, int_laws, lt_saturating_add_iff,
  saturating_sub-lt_iff,
}
use mcps.Core.Error.{McpsError, expired_request}
use mcps.Core.Time.{
  Fields, parse_fields, check_ranges, parse_rfc3339_utc, in_window, check_freshness,
}

-- The window that the documentation states, over the integers.
pub record Fresh (issued expires now skew : ℤ) : Type 0 where
  pub ordered : issued ≤ℤ expires
  pub started : issued -ℤ skew ≤ℤ now
  pub live : now ≤ℤ expires +ℤ skew

-- For instants that an `i64` holds and a skew that is not negative, the check passes exactly when
-- the clock is in the window, both ends included: saturation changes no verdict.
pub in_window_exact :
    (issued expires now skew : ℤ)
    → IsI64 issued
    → IsI64 expires
    → IsI64 now
    → pos 0 ≤ℤ skew
    → (in_window issued expires now skew ≡ ok tt) ↔ Fresh issued expires now skew
unfolding in_window
in_window_exact issued expires now skew vi ve vn hs =
    let low = saturating_sub-lt_iff issued skew now vn (omega int_laws) in
    let high = lt_saturating_add_iff expires skew now vn (omega int_laws) in
    (λ h. ground (arith, low, high), λ h. ground (arith, low, high))

in_window_live :
    (issued expires now skew : ℤ)
    → in_window issued expires now skew ≡ ok tt
    → now ≤ℤ saturating_add expires skew
unfolding in_window
in_window_live issued expires now skew h = ground arith

-- Without a condition on the values: a check that passes read the second instant, and the clock had
-- not passed the saturated end.
pub check_freshness_live :
    (issued_at expires_at : Str) (now skew : ℤ)
    → check_freshness issued_at expires_at now skew ≡ ok tt
    → (expires : ℤ) × (parse_rfc3339_utc expires_at ≡ ok expires)
      × (now ≤ℤ saturating_add expires skew)
unfolding check_freshness
check_freshness_live issued_at expires_at now skew h =
    let (issued, pi, rest) = >>=-eq-ok (parse_rfc3339_utc issued_at) _ h in
    let (expires, pe, w) = >>=-eq-ok (parse_rfc3339_utc expires_at) _ rest in
    (expires, pe, in_window_live issued expires now skew w)

-- The clock is in the window of the two timestamps, both ends included, as saturated instants.
pub record InWindow (issued_at expires_at : Str) (now skew : ℤ) : Type 0 where
  pub issued : ℤ
  pub issued_of : parse_rfc3339_utc issued_at ≡ ok issued
  pub expires : ℤ
  pub expires_of : parse_rfc3339_utc expires_at ≡ ok expires
  pub ordered : issued ≤ℤ expires
  pub started : saturating_sub issued skew ≤ℤ now
  pub live : now ≤ℤ saturating_add expires skew

in_window_iff :
    (issued expires now skew : ℤ)
    → (in_window issued expires now skew ≡ ok tt) ↔ (
        (issued ≤ℤ expires)
        × (saturating_sub issued skew ≤ℤ now)
        × (now ≤ℤ saturating_add expires skew))
unfolding in_window
in_window_iff issued expires now skew =
    ((λ h. (ground arith, ground arith, ground arith)), (λ h. ground (arith, h.0, h.1, h.2)))

pub check_freshness-InWindow :
    (issued_at expires_at : Str) (now skew : ℤ)
    → (check_freshness issued_at expires_at now skew ≡ ok tt)
      ↔ InWindow issued_at expires_at now skew
unfolding check_freshness
check_freshness-InWindow issued_at expires_at now skew = (
  λ h.
      (let (issued, pi, rest) = >>=-eq-ok (parse_rfc3339_utc issued_at) _ h in
        let (expires, pe, w) = >>=-eq-ok (parse_rfc3339_utc expires_at) _ rest in
        let (ordered, started, live) = (in_window_iff issued expires now skew).0 w in
        record {
          issued = issued;
          issued_of = pi;
          expires = expires;
          expires_of = pe;
          ordered = ordered;
          started = started;
          live = live;
        }),
  λ w.
      rw (w.issued_of, w.expires_of)
        ((in_window_iff w.issued w.expires now skew).1 (w.ordered, w.started, w.live)),
)

parse_fields_fails : (bytes : List ℕ) → FailsOnly expired_request (parse_fields bytes)
unfolding parse_fields
parse_fields_fails bytes = search (fails_rules) depth 30

check_ranges_fails : (f : Fields) → FailsOnly expired_request (check_ranges f)
unfolding check_ranges
check_ranges_fails f = search fails_rules

parse_fails : (s : Str) → FailsOnly expired_request (parse_rfc3339_utc s)
unfolding parse_rfc3339_utc
parse_fails s = search (fails_rules, parse_fields_fails, check_ranges_fails)

in_window_fails :
    (issued expires now skew : ℤ) → FailsOnly expired_request (in_window issued expires now skew)
unfolding in_window
in_window_fails issued expires now skew = search fails_rules

-- Every failure of the check, a malformed timestamp included, is the one error `expired_request`.
pub check_freshness_fails_closed :
    (issued_at expires_at : Str) (now skew : ℤ) (e : McpsError)
    → check_freshness issued_at expires_at now skew ≡ err e
    → e ≡ expired_request
unfolding check_freshness
check_freshness_fails_closed issued_at expires_at now skew e h = all_fails.at e h
  where
    all_fails : FailsOnly expired_request (check_freshness issued_at expires_at now skew)
    all_fails = search (fails_rules, parse_fails, in_window_fails)
