-- ===== src/Signer/Token/Verify.antt =====
-- crates/nxms-signer/src/action_token.rs: the verification of a token. `decode` is the library's: it checks
-- the signature, the issuer, the audience, `exp` and `nbf`, and reads the claims.
pub mod Claims
pub mod Binding
use nexum_core.Common.{
  ℕ, ◌+◌, ◌≤◌, ◌<◌, String, str_eq, ◌≡◌, refl, subst, Bool, true, false, ◌&&◌, ◌||◌, not, Option,
  none, some, Option-cases, List, inl, inr, eq_iff, arith, if◌then◌else◌,
}
use nexum_core.Common.Text.{present}
use nexum_core.Common.Table.{Table}
use nexum_core.Common.Outcome.{Result, ok, err, Result-cases}
use nexum_core.Common.Method.{Method, lift, pure, this, put, ◌>>=◌, ◌>>◌}
use nexum_core.Signer.VerifyLimiter.{VerifyRateLimits, VerifyRateEntry, check}
use nexum_core.Signer.Token.{
  ActionClaims, ActionTokenVerifier, VerifiedSignToken, role_key, expected_sign_round,
  expected_submit_round, check_times, check_identity, check_trust, check_hash, check_proofs,
  verify_claims, normalize_hex_64, sign_req_id,
}

-- What verification changes is the limiter's table.
abbrev pub Verify : Type 0 → Type 0
Verify A = Method (Table VerifyRateEntry) String A

module _ (sha256_hex : String → String)
    (decode : ActionTokenVerifier → ℕ → String → Result String ActionClaims)
    (verifier : ActionTokenVerifier) (limits : VerifyRateLimits) where
  unfoldable pub verify_common :
      ℕ → String → String → String → String → String → String → Verify VerifiedSignToken
  verify_common now token op round escrow txset snapshot = do
    check limits (sha256_hex token) now
    claims ← lift (decode verifier now token)
    lift (verify_claims sha256_hex verifier now op round escrow txset snapshot claims)

  unfoldable pub verify_sign_multisig :
      ℕ → String → String → String → String → Verify VerifiedSignToken
  verify_sign_multisig now token escrow txset snapshot =
      verify_common now token "sign_multisig" (expected_sign_round verifier.signer_role) escrow
        txset snapshot

  unfoldable pub verify_submit_multisig :
      ℕ → String → String → String → String → Verify VerifiedSignToken
  verify_submit_multisig now token escrow txset snapshot = do
    verified ←
        verify_common now token "submit_multisig" (expected_submit_round verifier.signer_role)
          escrow txset snapshot
    lift (check_proofs sha256_hex escrow txset verified.claims)
    pure verified
