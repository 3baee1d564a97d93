-- ===== src/Core/Resolver/Bindings.antt =====
-- `compose_key` tells pairs apart, so the bindings of different pairs never meet.
use mcps.Prelude.{
  ℕ, ◌<◌, ◌^◌, ◌≡◌, ◌≢◌, refl, ap, Str, as_bytes, length, [], ◌∷◌, ◌++◌, arith, ok, err,
}
use mcps.Prelude.Decimal.{decimal, All-decimal, decimal_injective}
use mcps.Prelude.{length-as_bytes, size_utf8}
use mcps.Prelude.{str_eq_iff}
use mcps.Prelude.Cuts.{cut_at, digits_not}
use mcps.Prelude.Map.{insert_self}
use mcps.Core.Resolver.{
  InMemoryTrustResolver, TrustResolverError, resolve, insert_key, revoke, compose_key,
}

abbrev pub uncons : Str → Str
uncons [] = []
uncons (a ∷ s) = s

as_bytes_nil : length (as_bytes []) ≡ 0
unfolding as_bytes
as_bytes_nil = refl

same_tail :
    (x y : ℕ) (xs ys : Str)
    → x ≡ y
    → length (as_bytes (x ∷ xs)) ≡ length (as_bytes (y ∷ ys))
    → length (as_bytes xs) ≡ length (as_bytes ys)
same_tail x y xs ys e h = omega (arith, length-as_bytes x xs, length-as_bytes y ys, ap size_utf8 e)

encode_utf8_pos : (c : ℕ) (s : Str) → 0 < length (as_bytes (c ∷ s))
encode_utf8_pos c s = ground (arith, length-as_bytes c s)

-- Two heads of the same size in bytes, before any rest.
pub cut_at_size :
    (xs ys r t : Str)
    → length (as_bytes xs) ≡ length (as_bytes ys)
    → xs ++ r ≡ ys ++ t
    → (xs ≡ ys) × (r ≡ t)
cut_at_size [] [] r t h e = (refl, e)
cut_at_size [] (y ∷ ys) r t h e = absurd (omega (arith, encode_utf8_pos y ys, as_bytes_nil))
cut_at_size (x ∷ xs) [] r t h e = absurd (omega (arith, encode_utf8_pos x xs, as_bytes_nil))
cut_at_size (x ∷ xs) (y ∷ ys) r t h e =
    let tails : xs ++ r ≡ ys ++ t = cc in
    let heads : x ≡ y = cc in
    let (p, q) = cut_at_size xs ys r t (same_tail x y xs ys heads h) tails in (cc, q)

pub cut_at_colon :
    (m n : ℕ) (r t : Str)
    → decimal m ++ b':' ∷ r ≡ decimal n ++ b':' ∷ t
    → (decimal m ≡ decimal n) × (r ≡ t)
cut_at_colon m n r t e =
    cut_at b':' _ _ r t (digits_not b':' _ (omega arith) (All-decimal m))
      (digits_not b':' _ (omega arith) (All-decimal n)) e

-- Different pairs of a signer and a key id have different keys in the resolver's map, whatever
-- delimiters they hold, for signers whose size in bytes is a `usize`.
pub compose_key_injective :
    (signer signer' key_id key_id' : Str)
    → length (as_bytes signer) < 2 ^ 64
    → length (as_bytes signer') < 2 ^ 64
    → compose_key signer key_id ≡ compose_key signer' key_id'
    → (signer ≡ signer') × (key_id ≡ key_id')
unfolding compose_key
compose_key_injective s s' k k' h h' e =
    let (sizes, rest) = cut_at_colon (length (as_bytes s)) (length (as_bytes s')) _ _ e in
    let same = decimal_injective _ _ (omega arith) (omega arith) sizes in
    let (p, q) = cut_at_size s s' _ _ same rest in
    let (_, r) = cut_at_colon (length (as_bytes k)) (length (as_bytes k')) _ _ (ap uncons q) in
    (p, r)

module _ {Key : Type 0} (r : InMemoryTrustResolver Key) (signer key_id : Str) where
  -- A binding that was inserted resolves to its key, and a revoked one to nothing.
  pub resolve-insert_self :
      (key : Key) → resolve (insert_key r signer key_id key) signer key_id ≡ ok key
  unfolding resolve insert_key
  resolve-insert_self key = rw insert_self

  pub resolve-revoke_self :
      resolve (revoke r signer key_id) signer key_id ≡ err TrustResolverError.revoked
  unfolding resolve revoke
  resolve-revoke_self = rw insert_self

  -- An insertion or a revocation of one pair leaves the verdict on every other pair as it was, for
  -- signers whose size in bytes is a `usize`.
  pub resolve_other :
      (signer' key_id' : Str) (key : Key)
      → length (as_bytes signer) < 2 ^ 64
      → length (as_bytes signer') < 2 ^ 64
      → ¬ ((signer ≡ signer') × (key_id ≡ key_id'))
      → (resolve (insert_key r signer key_id key) signer' key_id' ≡ resolve r signer' key_id')
        × (resolve (revoke r signer key_id) signer' key_id' ≡ resolve r signer' key_id')
  unfolding resolve insert_key revoke
  resolve_other signer' key_id' key h h' other =
      let apart : compose_key signer key_id ≢ compose_key signer' key_id' =
        λ e. other (compose_key_injective _ _ _ _ h h' e) in
      let test = str_eq_iff (compose_key signer key_id) (compose_key signer' key_id') in
      (ground (arith, test), ground (arith, test))
