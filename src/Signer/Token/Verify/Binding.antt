-- ===== src/Signer/Token/Verify/Binding.antt =====
-- What a verified token is tied to.
use nexum_core.Common.{
  ℕ, String, str_eq, ◌≡◌, subst, false, some, Option-cases, inl, inr, eq_iff, arith,
}
use nexum_core.Common.Text.{present}
use nexum_core.Common.Table.{Table}
use nexum_core.Common.Outcome.{Result, ok, Result-cases}
use nexum_core.Signer.VerifyLimiter.{VerifyRateLimits, VerifyRateEntry, check}
use nexum_core.Signer.Token.{
  ActionClaims, ActionTokenVerifier, VerifiedSignToken, expected_sign_round, expected_submit_round,
  check_hash, check_proofs, verify_claims, normalize_hex_64, sign_req_id,
}
use nexum_core.Signer.Token.Verify.{verify_common, verify_sign_multisig, verify_submit_multisig}
use nexum_core.Signer.Token.Verify.Claims.{
  Times, Identity, Trusted, SameHash, normalize-ok, check_times_lem, check_identity_lem,
  check_trust_lem, check_hash_lem,
}

-- What an accepted token is tied to.
pub record Binds (sha256_hex : String → String) (verifier : ActionTokenVerifier) (now : ℕ)
    (op round escrow txset snapshot : String) (verified : VerifiedSignToken) : Type 0 where
  pub scope_is : verified.claims.scope ≡ op
  pub op_is : verified.claims.op ≡ op
  pub times : Times verifier now verified.claims
  pub identity : Identity verifier round escrow verified.claims
  pub trusted : Trusted verifier.runtime_trust_epoch verified.claims
  pub txset_is :
      (hash : String) × SameHash verified.claims.txset_hash txset hash
      × (verified.req_id ≡ sign_req_id sha256_hex escrow op round hash)
  pub snapshot_is : (hash : String) × SameHash verified.claims.snapshot_hash snapshot hash

module _ (sha256_hex : String → String) (verifier : ActionTokenVerifier) where
  verify_claims-Binds :
      (now : ℕ) (op round escrow txset snapshot : String) (claims : ActionClaims)
      (verified : VerifiedSignToken)
      → verify_claims sha256_hex verifier now op round escrow txset snapshot claims ≡ ok verified
      → Binds sha256_hex verifier now op round escrow txset snapshot verified
  unfolding verify_claims
  verify_claims-Binds now op round escrow txset snapshot claims verified h =
      let txset_result =
        check_hash claims.txset_hash txset "claims.txset_hash must be 64 hex chars"
          "txset_hash_hex must be 64 hex chars" "action token txset_hash mismatch" in
      let snapshot_result =
        check_hash claims.snapshot_hash snapshot "claims.snapshot_hash must be 64 hex chars"
          "snapshot_hash_hex must be 64 hex chars" "action token snapshot_hash mismatch" in
      elim (Result-cases txset_result) [
        | inr (e, f) ↦ ground arith
        | inl (txset_hash, f) ↦ elim (Result-cases snapshot_result) [
          | inr (e, g) ↦ ground arith
          | inl (snapshot_hash, g) ↦ ground (
            arith,
            eq_iff claims.scope op,
            eq_iff claims.op op,
            check_times_lem verifier now claims,
            check_identity_lem verifier round escrow claims,
            check_trust_lem verifier.runtime_trust_epoch claims,
            check_hash_lem claims.txset_hash txset _ _ _ txset_hash f,
            check_hash_lem claims.snapshot_hash snapshot _ _ _ snapshot_hash g,
          )
        ]
      ]

-- The two signatures that a submission's token names: different tokens, and the requests of the arbiter
-- and of the seller for this transaction set.
abbrev pub Proves : (String → String) → String → String → ActionClaims → Type 0
Proves sha256_hex escrow txset claims =
    ((a : String) × (b : String) × (present claims.proof_arbiter_jti ≡ some a)
      × (present claims.proof_seller_jti ≡ some b)
      × (str_eq a b ≡ false))
    × ((hash : String) × (a : String) × (b : String) × (present claims.proof_arbiter_req_id
          ≡ some a)
        × (present claims.proof_seller_req_id ≡ some b)
        × (normalize_hex_64 txset "" ≡ ok hash)
        × (normalize_hex_64 a ""
            ≡ ok (sign_req_id sha256_hex escrow "sign_multisig" "arbiter_first" hash))
        × (normalize_hex_64 b ""
            ≡ ok (sign_req_id sha256_hex escrow "sign_multisig" "seller_second" hash)))

module _ (sha256_hex : String → String) where
  check_proofs-Proves :
      (escrow txset : String) (claims : ActionClaims)
      → check_proofs sha256_hex escrow txset claims ≡ ok tt
      → Proves sha256_hex escrow txset claims
  unfolding check_proofs
  check_proofs-Proves escrow txset claims h =
      elim (Option-cases (present claims.proof_arbiter_jti)) [
        | inl e ↦ ground arith
        | inr (a, e) ↦ elim (Option-cases (present claims.proof_seller_jti)) [
          | inl f ↦ ground arith
          | inr (b, f) ↦ elim (Option-cases (present claims.proof_arbiter_req_id)) [
            | inl g ↦ ground arith
            | inr (c, g) ↦ elim (Option-cases (present claims.proof_seller_req_id)) [
              | inl k ↦ ground arith
              | inr (d, k) ↦
                  let arbiter_text : String = "claims.proof_arbiter_req_id must be 64 hex chars" in
                  let seller_text : String = "claims.proof_seller_req_id must be 64 hex chars" in
                  let txset_text : String = "txset_hash_hex must be 64 hex chars" in
                  elim (Result-cases (normalize_hex_64 c arbiter_text)) [
                    | inr (_, l) ↦ ground arith
                    | inl (c', l) ↦ elim (Result-cases (normalize_hex_64 d seller_text)) [
                      | inr (_, m) ↦ ground arith
                      | inl (d', m) ↦ elim (Result-cases (normalize_hex_64 txset txset_text)) [
                        | inr (_, n) ↦ ground arith
                        | inl (hash, n) ↦ ground (
                          arith,
                          eq_iff c'
                              (sign_req_id sha256_hex escrow "sign_multisig" "arbiter_first" hash),
                          eq_iff d'
                              (sign_req_id sha256_hex escrow "sign_multisig" "seller_second" hash),
                          normalize-ok c arbiter_text c' l,
                          normalize-ok d seller_text d' m,
                          normalize-ok txset txset_text hash n,
                        )
                      ]
                    ]
                  ]
            ]
          ]
        ]
      ]

module _ (sha256_hex : String → String)
    (decode : ActionTokenVerifier → ℕ → String → Result String ActionClaims)
    (verifier : ActionTokenVerifier) (limits : VerifyRateLimits) where
  verify_common-Binds :
      (now : ℕ) (token op round escrow txset snapshot : String) (verified : VerifiedSignToken)
      (table : Table VerifyRateEntry)
      → (verify_common sha256_hex decode verifier limits now token op round escrow txset snapshot
          table).0
        ≡ ok verified
      → Binds sha256_hex verifier now op round escrow txset snapshot verified
  unfolding verify_common
  verify_common-Binds now token op round escrow txset snapshot verified table h =
      elim (Result-cases (check limits (sha256_hex token) now table).0) [
        | inr (e, f) ↦ ground arith
        | inl (_, f) ↦ elim (Result-cases (decode verifier now token)) [
          | inr (e, g) ↦ ground arith
          | inl (claims, g) ↦
              verify_claims-Binds sha256_hex verifier now op round escrow txset snapshot claims
                verified (ground arith)
        ]
      ]

  -- A token with which a signature is authorized was issued for signing, for this signer's role, round,
  -- sandbox, wallet and trust epoch, and for this escrow, transaction set and snapshot; it is dated no
  -- later than the clock and its skew, expires after that date by no more than the longest life, and its
  -- request is that of the transaction set.
  pub verify_sign-Binds :
      (now : ℕ) (token escrow txset snapshot : String) (verified : VerifiedSignToken)
      (table : Table VerifyRateEntry)
      → (verify_sign_multisig sha256_hex decode verifier limits now token escrow txset snapshot
          table).0
        ≡ ok verified
      → Binds sha256_hex verifier now "sign_multisig"
          (expected_sign_round verifier.signer_role)
          escrow
          txset
          snapshot
          verified
  unfolding verify_sign_multisig
  verify_sign-Binds now token escrow txset snapshot verified table h =
      verify_common-Binds now token "sign_multisig" (expected_sign_round verifier.signer_role)
        escrow txset snapshot verified table h

  -- A token with which a submission is authorized is bound in the same way, for submitting, and names two
  -- different tokens of signatures, with the requests of the arbiter's and of the seller's signature of
  -- this transaction set.
  pub verify_submit-Proves :
      (now : ℕ) (token escrow txset snapshot : String) (verified : VerifiedSignToken)
      (table : Table VerifyRateEntry)
      → (verify_submit_multisig sha256_hex decode verifier limits now token escrow txset snapshot
          table).0
        ≡ ok verified
      → Binds sha256_hex verifier now "submit_multisig"
          (expected_submit_round verifier.signer_role)
          escrow
          txset
          snapshot
          verified
        × Proves sha256_hex escrow txset verified.claims
  unfolding verify_submit_multisig
  verify_submit-Proves now token escrow txset snapshot verified table h =
      let common =
        verify_common sha256_hex decode verifier limits now token "submit_multisig"
          (expected_submit_round verifier.signer_role) escrow txset snapshot table in
      elim (Result-cases common.0) [
        | inr (e, f) ↦ ground arith
        | inl (v, f) ↦ elim (Result-cases (check_proofs sha256_hex escrow txset v.claims)) [
          | inr (e, g) ↦ ground arith
          | inl (_, g) ↦
              let same : v ≡ verified = ground arith in
              subst
                (λ w.
                  Binds sha256_hex verifier now "submit_multisig"
                    (expected_submit_round verifier.signer_role) escrow txset snapshot w
                  × Proves sha256_hex escrow txset w.claims)
                same
                (
                  verify_common-Binds now token "submit_multisig"
                      (expected_submit_round verifier.signer_role) escrow txset snapshot v table f,
                  check_proofs-Proves sha256_hex escrow txset v.claims g,
                )
        ]
      ]
