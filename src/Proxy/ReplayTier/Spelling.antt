-- ===== src/Proxy/ReplayTier/Spelling.antt =====
-- The options of mcps-proxy/src/replay_tier.rs are read as they are spelled.
use mcps.Prelude.{
  ℕ, ◌≤◌, Str, codes, str_eq, is_empty, ◌++◌, [], ◌∷◌, ◌≡◌, refl, true, not, ◌==◌, ok, arith, ap,
  ◌∙◌,
}
use mcps.Prelude.Decimal.{decimal}
use mcps.Prelude.Parse.{
  trim, to_lowercase, strip_prefix, split, next, left_over, is_empty_part, is_none_part, every,
  every-append, every-decimal, is_plain, is_whitespace, digit_plain, trim-plain, to_lowercase-plain,
  split_none, split_word, parse_unsigned-decimal,
}
use mcps.Proxy.ReplayTier.{redis_wait_quorum, u32_max, u64_max, positive_of, parse_quorum, parse}

-- The option as it is spelled.
abbrev pub quorum_text : ℕ → ℕ → Str
quorum_text quorum timeout_ms =
    codes "redis-wait-quorum" ++ (b':' ∷ (decimal quorum ++ b':' ∷ decimal timeout_ms))

quorum_read :
    (quorum timeout_ms : ℕ) (value : Str)
    → (1 ≤ quorum) × (quorum ≤ u32_max)
    → (1 ≤ timeout_ms) × (timeout_ms ≤ u64_max)
    → parse_quorum (b':' ∷ (decimal quorum ++ b':' ∷ decimal timeout_ms)) value
      ≡ ok (redis_wait_quorum quorum timeout_ms)
unfolding parse_quorum positive_of split next left_over is_empty_part is_none_part is_empty
quorum_read quorum timeout_ms value (low, high) (low', high') =
    let plain : (n : ℕ) → every (λ c. not (c == b':')) (decimal n) ≡ true =
      λ n. every-decimal _ n (λ c (lo, hi). ground arith) in
    let parts : split b':' (decimal quorum ++ b':' ∷ decimal timeout_ms)
        ≡ decimal quorum ∷ decimal timeout_ms ∷ [] =
      split_word b':' (decimal quorum) (decimal timeout_ms) (plain quorum)
      ∙ ap (λ rest. decimal quorum ∷ rest)
          (split_none b':' (decimal timeout_ms) (plain timeout_ms)) in
    ground (
      arith,
      parts,
      parse_unsigned-decimal u32_max quorum high (omega arith),
      parse_unsigned-decimal u64_max timeout_ms high' (omega arith),
    )

-- The quorum tier is read as it is spelled, for a quorum that is positive and fits a `u32` and a
-- timeout that is positive and fits a `u64`.
pub parse_quorum_spelled :
    (quorum timeout_ms : ℕ)
    → (1 ≤ quorum) × (quorum ≤ u32_max)
    → (1 ≤ timeout_ms) × (timeout_ms ≤ u64_max)
    → parse (quorum_text quorum timeout_ms) ≡ ok (redis_wait_quorum quorum timeout_ms)
unfolding parse codes str_eq strip_prefix every is_plain is_whitespace
parse_quorum_spelled quorum timeout_ms q t =
    let numbers =
      every-append is_plain (decimal quorum) (b':' ∷ decimal timeout_ms)
        (every-decimal is_plain quorum digit_plain)
        (every-decimal is_plain timeout_ms digit_plain) in
    let plain =
      every-append is_plain (codes "redis-wait-quorum:")
        (decimal quorum ++ b':' ∷ decimal timeout_ms) refl numbers in
    let same : to_lowercase (trim (quorum_text quorum timeout_ms)) ≡ quorum_text quorum timeout_ms =
      ap to_lowercase (trim-plain _ plain) ∙ to_lowercase-plain _ plain in
    ground (arith, same, quorum_read quorum timeout_ms (quorum_text quorum timeout_ms) q t)
