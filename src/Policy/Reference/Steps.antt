-- ===== src/Policy/Reference/Steps.antt =====
-- What each step of the reference profile of mcps-policy/src/reference.rs establishes.
use mcps.Prelude.{
  ℕ, Str, str_eq, str_eq_iff, length, List, ◌≡◌, ◌↔◌, refl, Bool, true, not, ◌||◌, some,
  Option-cases, inl, inr, Result, ok, err, arith, >>=-eq-ok, >>-eq-ok, map_err, map_err-eq-ok,
  guard-eq-ok, guard,
}
use mcps.Prelude.Int.{ℤ, ◌≤ℤ◌, ltb_ℤ}
use mcps.Core.Ids.{sig_alg_ed25519}
use mcps.Core.Json.{Value}
use mcps.Core.Time.{parse_rfc3339_utc}
use mcps.Core.Resolver.{TrustResolver}
use mcps.Core.Crypto.{Externals, verify_ed25519_with}
use mcps.Core.Pipeline.{VerifiedRequest}
use mcps.Core.Pipeline.Accepts.{verify_ed25519-ok}
use mcps.Policy.Revocation.{RevocationStatus, RevocationUnavailable, not_revoked}
use mcps.Policy.Revocation
use mcps.Policy.Scope.{requested_method, requested_target, requested_arguments, any_grant, permits}
use mcps.Policy.Reference.{
  ReferenceGrant, to_malformed, issuer_preimage, verify_issuer_signature, check_window,
  check_revocation, check_scope, check_subjects,
}

-- The issuer signed the artifact, without the value of the signature.
pub record IssuerSigned (x : Externals) (artifact : Value) (grant : ReferenceGrant)
    (resolver : TrustResolver x.VerificationKey) : Type 0 where
  pub alg : grant.signature.alg ≡ sig_alg_ed25519
  pub preimage : List ℕ
  pub preimage_of : issuer_preimage artifact ≡ ok preimage
  pub key : x.VerificationKey
  pub trusted : resolver grant.issuer grant.signature.key_id ≡ ok key
  pub bytes : List ℕ
  pub decoded : x.b64url_decode grant.signature.value ≡ some bytes
  pub sized : length bytes ≡ 64
  pub valid : x.verify_strict key preimage bytes ≡ true

-- The clock is in the window of the grant, both ends included and without a skew.
pub record InWindow (grant : ReferenceGrant) (now : ℤ) : Type 0 where
  pub from : ℤ
  pub from_of : parse_rfc3339_utc grant.not_before ≡ ok from
  pub until : ℤ
  pub until_of : parse_rfc3339_utc grant.expires_at ≡ ok until
  pub after : from ≤ℤ now
  pub before : now ≤ℤ until

pub to_malformed-ok : {E A : Type 0} (r : Result E A) {a : A} → to_malformed r ≡ ok a → r ≡ ok a
unfolding to_malformed
to_malformed-ok r h = map_err-eq-ok _ r h

pub verify_issuer_signature-IssuerSigned :
    (x : Externals) (artifact : Value) (grant : ReferenceGrant)
    (resolver : TrustResolver x.VerificationKey)
    → (verify_issuer_signature x artifact grant resolver ≡ ok tt)
      ↔ IssuerSigned x artifact grant resolver
unfolding verify_issuer_signature verify_ed25519_with
verify_issuer_signature-IssuerSigned x artifact grant resolver = (forward, backward)
  where
    forward :
        verify_issuer_signature x artifact grant resolver ≡ ok tt
        → IssuerSigned x artifact grant resolver
    forward h =
        let (alg, h1) = >>-eq-ok (guard (str_eq grant.signature.alg sig_alg_ed25519) _) _ h in
        let (preimage, pe, h2) = >>=-eq-ok (issuer_preimage artifact) _ h1 in
        let (key, ke, h3) = >>=-eq-ok (map_err _ (resolver grant.issuer _)) _ h2 in
        let (bytes, decoded, sized, valid) =
          verify_ed25519-ok x preimage _ key _ (map_err-eq-ok _ _ h3) in
        record {
          alg = (str_eq_iff _ _).0 (guard-eq-ok _ _ alg);
          preimage = preimage;
          preimage_of = pe;
          key = key;
          trusted = map_err-eq-ok _ _ ke;
          bytes = bytes;
          decoded = decoded;
          sized = sized;
          valid = valid;
        }

    backward :
        IssuerSigned x artifact grant resolver
        → verify_issuer_signature x artifact grant resolver ≡ ok tt
    backward i = ground (
      arith,
      i.alg,
      i.preimage_of,
      i.trusted,
      i.decoded,
      i.sized,
      i.valid,
      str_eq_iff grant.signature.alg sig_alg_ed25519,
    )

pub check_window-InWindow :
    (grant : ReferenceGrant) (now : ℤ) → (check_window grant now ≡ ok tt) ↔ InWindow grant now
unfolding check_window to_malformed
check_window-InWindow grant now = (forward, backward)
  where
    forward : check_window grant now ≡ ok tt → InWindow grant now
    forward h =
        let (from, fe, h1) = >>=-eq-ok (to_malformed (parse_rfc3339_utc grant.not_before)) _ h in
        let (until, ue, h2) = >>=-eq-ok (to_malformed (parse_rfc3339_utc grant.expires_at)) _ h1 in
        let inside = guard-eq-ok (not (ltb_ℤ now from || ltb_ℤ until now)) _ h2 in
        record {
          from = from;
          from_of = to_malformed-ok _ fe;
          until = until;
          until_of = to_malformed-ok _ ue;
          after = ground (arith, inside);
          before = ground (arith, inside);
        }

    backward : InWindow grant now → check_window grant now ≡ ok tt
    backward w = ground (arith, w.from_of, w.until_of, w.after, w.before)

pub check_revocation-ok :
    (status : Result RevocationUnavailable RevocationStatus)
    → check_revocation status ≡ ok tt
    → status ≡ ok not_revoked
unfolding check_revocation
check_revocation-ok (ok not_revoked) h = refl
check_revocation-ok (ok Revocation.revoked) h = cc
check_revocation-ok (err e) h = cc

pub check_subjects-ok :
    (grant : ReferenceGrant) (verified : VerifiedRequest)
    → check_subjects grant verified ≡ ok tt
    → (grant.grantee ≡ verified.verified_signer)
      × (grant.subject ≡ verified.on_behalf_of)
      × (grant.audience ≡ verified.audience)
unfolding check_subjects
check_subjects-ok grant verified h =
    let (grantee, h1) = >>-eq-ok (guard (str_eq grant.grantee verified.verified_signer) _) _ h in
    let (subject, h2) = >>-eq-ok (guard (str_eq grant.subject verified.on_behalf_of) _) _ h1 in
    (
      (str_eq_iff _ _).0 (guard-eq-ok _ _ grantee),
      (str_eq_iff _ _).0 (guard-eq-ok _ _ subject),
      (str_eq_iff _ _).0 (guard-eq-ok _ _ h2),
    )

pub check_scope-ok :
    (value_eq : Value → Value → Bool) (grant : ReferenceGrant) (request : Value)
    → check_scope value_eq grant request ≡ ok tt
    → (target : Str) × (requested_target request ≡ some target)
      × (any_grant
            (permits value_eq (requested_method request) target (requested_arguments request))
            grant.grants
          ≡ true)
unfolding check_scope
check_scope-ok value_eq grant request h = elim (Option-cases (requested_target request)) [
  | inl p ↦ absurd (ground (arith, p))
  | inr (target, p) ↦ (target, p, guard-eq-ok _ _ (rw (p, check_scope) at h))
]
