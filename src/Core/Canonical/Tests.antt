-- ===== src/Core/Canonical/Tests.antt =====
-- Tests and witnesses for mcps-core/src/canonical.rs.
use mcps.Prelude.{String, arith, inl, ◌≡◌, refl, codes, as_bytes, ok, err}
use mcps.Core.Canonical.{JcsMembers, null, object, no_members, member, canonicalize_value}
use mcps.Core.Canonical.Order.{
  Reordered, TextKeys, swapped, deeper, chained, canonicalize_value-Reordered,
  canonicalize_value_duplicate,
}
use mcps.Core.Error.{canonicalization_failed}
use mcps.Core.Canonical.Parser.{canonicalize}

sorts_and_strips :
    canonicalize (codes "{ \"b\": [1, -2 ,true], \"a\": {\"z\":\"x\\u0041\\n\"} }")
    ≡ ok (codes "{\"a\":{\"z\":\"xA\\n\"},\"b\":[1,-2,true]}")
unfolding canonicalize codes
sorts_and_strips = refl

refuses_duplicates : canonicalize (codes "{\"a\":1,\"a\":2}") ≡ err canonicalization_failed
unfolding canonicalize codes
refuses_duplicates = refl

refuses_fractions : canonicalize (codes "[1.5]") ≡ err canonicalization_failed
unfolding canonicalize codes
refuses_fractions = refl

refuses_large_integers : canonicalize (codes "9007199254740992") ≡ err canonicalization_failed
unfolding canonicalize codes
refuses_large_integers = refl

pairs_surrogates : canonicalize (codes "\"\\ud83d\\ude00\"") ≡ ok (as_bytes (codes "\"😀\""))
unfolding canonicalize codes as_bytes
pairs_surrogates = refl

abbrev named : String → JcsMembers → JcsMembers
named k ms = member (codes k) null ms

abbrev pair : JcsMembers
pair = named "b" (named "a" no_members)

texts : TextKeys pair
unfolding TextKeys codes
texts = ((inl (omega arith), tt), ((inl (omega arith), tt), tt))

canonicalize_value-Reordered_example :
    canonicalize_value (object pair)
    ≡ canonicalize_value (object (named "a" (named "b" no_members)))
canonicalize_value-Reordered_example =
    canonicalize_value-Reordered pair (named "a" (named "b" no_members))
      (swapped (codes "b") null (codes "a") null no_members) texts

abbrev twice : JcsMembers
twice = named "a" (named "b" (named "a" no_members))

texts_twice : TextKeys twice
unfolding TextKeys codes
texts_twice = ((inl (omega arith), tt), ((inl (omega arith), tt), ((inl (omega arith), tt), tt)))

bring :
    Reordered
      (named "b" (named "a" (named "a" no_members)))
      (named "a" (named "a" (named "b" no_members)))
bring =
    chained _ (named "a" (named "b" (named "a" no_members))) _
      (swapped (codes "b") null (codes "a") null (named "a" no_members))
      (deeper (codes "a") null _ _ (swapped (codes "b") null (codes "a") null no_members))

canonicalize_value_duplicate_example :
    canonicalize_value (object twice) ≡ err canonicalization_failed
canonicalize_value_duplicate_example =
    canonicalize_value_duplicate (codes "a") null null twice (named "b" no_members)
      (chained twice (named "b" (named "a" (named "a" no_members)))
        (named "a" (named "a" (named "b" no_members)))
        (swapped (codes "a") null (codes "b") null (named "a" no_members)) bring)
      texts_twice
