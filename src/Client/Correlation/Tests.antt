-- ===== src/Client/Correlation/Tests.antt =====
-- Tests and witnesses for mcps-client-core/src/correlation.rs.
use mcps.Prelude.{String, ◌≡◌, refl, codes, str_eq, [], ◌∷◌, ok, err, arith}
use mcps.Prelude.Int.{pos, ◌≤ℤ◌}
use mcps.Client.Correlation.{
  CorrelationStore, PendingRequest, new, register, take_for_response, sweep_expired, uncorrelatable,
  expired, nonce_reuse,
}
use mcps.Client.Correlation.Nonces.{takes, sweeps, history, no_nonce_reuse}
use mcps.Client.Correlation.Pending.{IsKeyed, correlated_once}

-- Issued at 1000, to be answered until 1300.
abbrev pending : String → String → PendingRequest
pending id nonce = record {
  correlation_id = codes id;
  request_hash = codes "sha256:h";
  nonce = codes nonce;
  issued_at_unix = pos 1000;
  deadline_unix = pos 1300;
  route_id = codes "r";
  audience = codes "did:s";
  expected_server_signers = codes "did:s" ∷ [];
  version = codes "draft-02";
  canonicalization_id = codes "mcps-jcs-int53-json-v1";
  authz_digest = codes "AA";
}

abbrev one : CorrelationStore
one = (register new (pending "c1" "n1") (pos 1000)).1

registers_the_first : (register new (pending "c1" "n1") (pos 1000)).0 ≡ ok tt
unfolding register new
registers_the_first = refl

takes_at_the_deadline : (take_for_response one (codes "c1") (pos 1300)).0 ≡ ok (pending "c1" "n1")
unfolding take_for_response register new codes str_eq
takes_at_the_deadline = refl

late_is_expired : (take_for_response one (codes "c1") (pos 1301)).0 ≡ err expired
unfolding take_for_response register new codes str_eq
late_is_expired = refl

nonce_stays_used :
    (register (take_for_response one (codes "c1") (pos 1100)).1 (pending "c2" "n1") (pos 1299)).0
    ≡ err nonce_reuse
unfolding take_for_response register new codes str_eq
nonce_stays_used = refl

sweep_counts : (sweep_expired one (pos 1301)).0 ≡ 1
unfolding sweep_expired register new
sweep_counts = refl

no_nonce_reuse_example : ¬ (
    (register
      (history one (takes (codes "c1") (pos 1100) ∷ sweeps (pos 1200) ∷ []))
      (pending "c2" "n1")
      (pos 1299)).0
    ≡ ok tt)
no_nonce_reuse_example =
    no_nonce_reuse new (pending "c1" "n1") (pending "c2" "n1") (pos 1000) (pos 1299)
      (takes (codes "c1") (pos 1100) ∷ sweeps (pos 1200) ∷ []) registers_the_first
      (omega arith, (omega arith, tt)) refl (omega arith)

IsKeyed-new : IsKeyed new.pending
unfolding IsKeyed new
IsKeyed-new = tt

IsKeyed-one : IsKeyed one.pending
unfolding IsKeyed register new
IsKeyed-one = (refl, refl, tt)

correlated_once_example :
    (codes "c1" ≡ codes "c1")
    × (pos 1300 ≤ℤ pos 1300)
    × (take_for_response
          (history (take_for_response one (codes "c1") (pos 1300)).1 (sweeps (pos 1301) ∷ []))
          (codes "c1")
          (pos 1302)
        ≡ (
          err uncorrelatable,
          history (take_for_response one (codes "c1") (pos 1300)).1 (sweeps (pos 1301) ∷ []),
        ))
correlated_once_example =
    correlated_once one (codes "c1") (pos 1300) (pos 1302) (pending "c1" "n1")
      (sweeps (pos 1301) ∷ []) IsKeyed-one takes_at_the_deadline (tt, tt)
