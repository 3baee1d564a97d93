-- ===== src/Proxy/RevocationTier/Spelling.antt =====
-- The options of mcps-proxy/src/revocation_tier.rs are read as they are spelled.
use mcps.Prelude.{
  ℕ, ◌≤◌, is_empty, Str, codes, str_eq, ◌++◌, [], ◌∷◌, ◌≡◌, refl, true, some, ok, arith, ap, ◌∙◌,
}
use mcps.Prelude.Int.{pos}
use mcps.Prelude.Decimal.{decimal}
use mcps.Prelude.Parse.{
  trim, to_lowercase, strip_prefix, split, next, left_over, is_empty_part, is_none_part, parse_i64,
  every, every-append, every-decimal, is_plain, digit_plain, is_whitespace, trim-plain,
  to_lowercase-plain, split_none, parse_i64-decimal,
}
use mcps.Proxy.RevocationTier.{bounded_cache, push, at_least_one, number_of, parse_window, parse}

-- A window that is positive and fits an `i64`.
abbrev pub IsWindow : ℕ → Type 0
IsWindow t = (1 ≤ t) × (t ≤ 9223372036854775807)

window_read :
    (t : ℕ) (original tier : Str)
    → IsWindow t
    → parse_window (b':' ∷ decimal t) original tier ≡ ok (pos t)
unfolding parse_window number_of at_least_one split next left_over is_empty_part is_none_part
    is_empty
window_read t original tier (low, high) =
    let parts : split b':' (decimal t) ≡ decimal t ∷ [] =
      split_none b':' (decimal t) (every-decimal _ t (λ c (lo, hi). ground arith)) in
    let number : at_least_one (parse_i64 (decimal t)) ≡ some (pos t) =
      ground (arith, parse_i64-decimal t high) in
    ground (arith, parts, number)

-- A word of plain characters before a number is read as it stands.
plain_word :
    (word : Str) (t : ℕ)
    → every is_plain word ≡ true
    → to_lowercase (trim (word ++ decimal t)) ≡ word ++ decimal t
plain_word word t h =
    let plain = every-append is_plain word (decimal t) h (every-decimal is_plain t digit_plain) in
    ap to_lowercase (trim-plain _ plain) ∙ to_lowercase-plain _ plain

-- A tier of revocation with a window that is positive and fits an `i64` is read as it is spelled,
-- with its word, a colon and the decimal of the window.
pub parse_spelled :
    (t : ℕ)
    → IsWindow t
    → (parse (codes "bounded-cache:" ++ decimal t) ≡ ok (bounded_cache (pos t)))
      × (parse (codes "push:" ++ decimal t) ≡ ok (push (pos t)))
unfolding parse codes str_eq strip_prefix every is_plain is_whitespace
parse_spelled t w = (
  ground (
    arith,
    plain_word (codes "bounded-cache:") t refl,
    window_read t (codes "bounded-cache:" ++ decimal t) (codes "bounded-cache") w,
  ),
  ground (
    arith,
    plain_word (codes "push:") t refl,
    window_read t (codes "push:" ++ decimal t) (codes "push") w,
  ),
)
