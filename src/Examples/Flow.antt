-- ===== src/Examples/Flow.antt =====
-- The theorems on the signer's tokens and flows at concrete inputs.
use nexum_core.Common.{◌≤◌, String, ◌≡◌, refl, ◌⊎◌, List, [], ◌∷◌, arith}
use nexum_core.Common.Text.{trim, all_chars, to_ascii_lowercase, present}
use nexum_core.Common.Table.{lookup, insert, retain}
use nexum_core.Common.Outcome.{ok}
use nexum_core.Common.Rows.{any_row, find_row, count_rows}
use nexum_core.Signer.Db.Requests.Once.{used}
use nexum_core.Signer.Db.Snapshots.Live.{Backed}
use nexum_core.Transport.Admission.{
  validate_unsigned, validate_hex_exact, normalize_non_empty_up_to, check_signature,
  check_signatures, verify_against_bundle,
}
use nexum_core.Transport.Admission.Guards.{BySignatures, verify-BySignatures}
use nexum_core.Signer.VerifyLimiter.{make_room, check}
use nexum_core.Signer.Token.{
  VerifiedSignToken, expected_sign_round, expected_submit_round, normalize_hex_64, check_times,
  check_identity, check_trust, check_hash, verify_claims, check_proofs, sign_req_id,
}
use nexum_core.Signer.Token.Verify.{verify_common, verify_sign_multisig, verify_submit_multisig}
use nexum_core.Signer.Token.Verify.Binding.{Binds, Proves, verify_sign-Binds, verify_submit-Proves}
use nexum_core.Signer.Flow.{Operation, sign_multisig, submit_multisig, Agent}
use nexum_core.Signer.Flow.Prepare.{FlowRequest}
use nexum_core.Signer.Flow.Submit.{submit_multisig_flow}
use nexum_core.Signer.Flow.SingleUse.{calls}
use nexum_core.Signer.Flow.SingleUse.Serve.{perform, serve, single_use}
use nexum_core.Signer.Flow.Approval.{Approved, perform-Approved}
use nexum_core.Signer.Flow.Proof.Serve.{Authentic, submit-Authentic}
use nexum_core.Examples.Party.{
  escrow_hex, hash_hex, arbiter_hex, other_hex, sha256_hex, limits, verifier, claims, decode,
  bundle, artifact, artifact_hash, falcon_verify, outside, config, request, agent,
}

abbrev verified : VerifiedSignToken
verified = record { claims = claims "sign_multisig" "arbiter_first" "s1"; req_id = arbiter_hex }

sign_token_accepted :
    (verify_sign_multisig sha256_hex decode verifier limits 1001 "s1" escrow_hex hash_hex hash_hex
      []).0
    ≡ ok verified
unfolding verify_sign_multisig verify_common check make_room retain lookup insert verify_claims
    check_times check_identity check_trust check_hash normalize_hex_64 trim all_chars
    to_ascii_lowercase sign_req_id
sign_token_accepted = refl

verify_sign-Binds_example :
    Binds sha256_hex verifier 1001 "sign_multisig"
      (expected_sign_round verifier.signer_role)
      escrow_hex
      hash_hex
      hash_hex
      verified
verify_sign-Binds_example =
    verify_sign-Binds sha256_hex decode verifier limits 1001 "s1" escrow_hex hash_hex hash_hex
      verified [] sign_token_accepted

abbrev submit_verified : VerifiedSignToken
submit_verified = record {
  claims = claims "submit_multisig" "arbiter_submit" "sub";
  req_id = other_hex;
}

submit_token_accepted :
    (verify_submit_multisig sha256_hex decode verifier limits 1001 "sub" escrow_hex hash_hex
      hash_hex []).0
    ≡ ok submit_verified
unfolding verify_submit_multisig verify_common check make_room retain lookup insert verify_claims
    check_times check_identity check_trust check_hash normalize_hex_64 trim all_chars
    to_ascii_lowercase sign_req_id check_proofs present
submit_token_accepted = refl

verify_submit-Proves_example :
    Binds sha256_hex verifier 1001 "submit_multisig"
      (expected_submit_round verifier.signer_role)
      escrow_hex
      hash_hex
      hash_hex
      submit_verified
    × Proves sha256_hex escrow_hex hash_hex submit_verified.claims
verify_submit-Proves_example =
    verify_submit-Proves sha256_hex decode verifier limits 1001 "sub" escrow_hex hash_hex hash_hex
      submit_verified [] submit_token_accepted

artifact_accepted : verify_against_bundle falcon_verify artifact_hash artifact bundle ≡ ok tt
unfolding verify_against_bundle validate_unsigned validate_hex_exact check_signatures
    check_signature normalize_non_empty_up_to any_row find_row trim all_chars to_ascii_lowercase
artifact_accepted = refl

verify-BySignatures_example :
    (hash : String) × (artifact_hash artifact ≡ ok hash)
    × BySignatures falcon_verify bundle hash artifact.signatures
verify-BySignatures_example =
    verify-BySignatures falcon_verify artifact_hash artifact bundle artifact_accepted

-- The arbiter signs, with one token twice, and submits.
abbrev requests : List (Operation × FlowRequest)
requests =
    (sign_multisig, request "s1")
    ∷ (sign_multisig, request "s1")
    ∷ (submit_multisig, request "sub")
    ∷ []

none_called : calls "s1" agent ≤ used "s1" agent.db
unfolding count_rows
none_called = omega arith

none_used : used "s1" agent.db ≤ 1
unfolding count_rows
none_used = omega arith

single_use_example : calls "s1" (serve outside config agent requests) ≤ 1
single_use_example = single_use outside config "s1" agent requests none_called none_used

one_signed : Backed 1 agent.db.snapshot_sigs agent.db.snapshots
unfolding count_rows
one_signed = (λ _. omega arith, tt)

perform-Approved_example :
    (perform outside config agent (sign_multisig, request "s1") ≡ agent)
    ⊎ Approved outside config 1 agent (request "s1")
perform-Approved_example =
    perform-Approved outside config 1 agent sign_multisig (request "s1") one_signed

-- After the arbiter has signed.
abbrev signed_agent : Agent
signed_agent = perform outside config agent (sign_multisig, request "s1")

submit-Authentic_example :
    ((submit_multisig_flow outside config (request "sub") signed_agent).1.wallet_calls
      ≡ signed_agent.wallet_calls)
    ⊎ Authentic outside config (request "sub") verifier limits signed_agent
submit-Authentic_example =
    submit-Authentic outside config (request "sub") verifier limits signed_agent refl
