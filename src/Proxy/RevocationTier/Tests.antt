-- ===== src/Proxy/RevocationTier/Tests.antt =====
-- Runs and witnesses for mcps-proxy/src/revocation_tier.rs.
use mcps.Prelude.{codes, str_eq, is_empty, ◌++◌, ◌≡◌, refl, ok, arith}
use mcps.Prelude.Int.{pos}
use mcps.Prelude.Decimal.{decimal}
use mcps.Prelude.Parse.{
  trim, to_lowercase, strip_prefix, split, next, left_over, is_empty_part, is_none_part, parse_i64,
  is_whitespace, all_digits,
}
use mcps.Proxy.RevocationTier.{bounded_cache, push, at_least_one, number_of, parse_window, parse}
use mcps.Proxy.RevocationTier.Spelling.{parse_spelled}

spaced : parse (codes " Push:+15 ") ≡ ok (push (pos 15))
unfolding parse trim to_lowercase is_whitespace strip_prefix codes str_eq parse_window split next
    left_over is_empty_part is_none_part is_empty number_of at_least_one parse_i64 all_digits
spaced = refl

parse_spelled_example :
    (parse (codes "bounded-cache:" ++ decimal 300) ≡ ok (bounded_cache (pos 300)))
    × (parse (codes "push:" ++ decimal 300) ≡ ok (push (pos 300)))
parse_spelled_example = parse_spelled 300 (omega arith, omega arith)
