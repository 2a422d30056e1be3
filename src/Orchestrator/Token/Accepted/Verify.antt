-- ===== src/Orchestrator/Token/Accepted/Verify.antt =====
-- The claims of an issued token pass `verify_claims`, whatever proofs they carry.
use nexum_core.Common.{
  ℕ, ltb, String, ◌≡◌, refl, subst, true, ◌||◌, not, Option, some, arith, eq_iff,
}
use nexum_core.Common.Rows.{find_row}
use nexum_core.Common.Text.{trim, len, is_empty}
use nexum_core.Common.Outcome.{ok}
use nexum_core.Orchestrator.Db.{
  OrchestratorDb, WorkflowInstance, EscrowAdmissionArtifactRow, normalize_hex_exact,
}
use nexum_core.Orchestrator.Db.Workflows.{find_workflow}
use nexum_core.Orchestrator.Db.Artifacts.{artifact_of}
use nexum_core.Orchestrator.Db.Inputs.{normalize_hex-IsHex}
use nexum_core.Orchestrator.Token.{
  IssueActionTokenParams, ActionTokenClaims, base_claims, op_claim_value, admission_hash,
  expected_sign_round,
}
use nexum_core.Orchestrator.Token.Issue.{new_jti}
use nexum_core.Orchestrator.Token.Claims.{Issued}
use nexum_core.Orchestrator.Token.Params.{IsIssuable}
use nexum_core.Orchestrator.Token.Accepted.{
  as_action_claims, round_of, Agrees, InTime, IsTokenId, IsHex-normalize_64, normalize_same,
  check_hash-pass, check_times-pass, check_identity-pass,
}
use nexum_core.Orchestrator.Token.Accepted.Trust.{check_trust-pass}
use nexum_core.Signer.Token.{
  ActionTokenVerifier, VerifiedSignToken, verify_claims, sign_req_id, check_times, check_identity,
}

-- Claims with the proofs given.
abbrev pub filled :
    ActionTokenClaims
    → Option String
    → Option String
    → Option String
    → Option String
    → ActionTokenClaims
filled claims arbiter_jti seller_jti arbiter_req_id seller_req_id = record claims {
  proof_arbiter_jti = arbiter_jti;
  proof_seller_jti = seller_jti;
  proof_arbiter_req_id = arbiter_req_id;
  proof_seller_req_id = seller_req_id;
}

-- What the signer returns for a token that it takes.
abbrev pub verified :
    (String → String) → IssueActionTokenParams → ActionTokenClaims → VerifiedSignToken
verified sha256_hex params claims = record {
  claims = as_action_claims claims;
  req_id =
      sign_req_id sha256_hex params.escrow_id_hex (op_claim_value params.op)
        (expected_sign_round params.op params.role) params.txset_hash_hex;
}

id_ok : (jti : String) → IsTokenId jti → not (is_empty (trim jti) || ltb 256 (len jti)) ≡ true
id_ok jti id = ground (arith, id.inked, id.bounded)

module _ (sha256_hex : String → String) (params : IssueActionTokenParams)
    (verifier : ActionTokenVerifier) (issuable : IsIssuable params)
    (agrees : Agrees params verifier) where
  pub verify-filled :
      (now signer_now : ℕ) (jti snapshot value action : String)
      (stored : Option EscrowAdmissionArtifactRow) (admission a s aq sq : Option String)
      → InTime params verifier now signer_now
      → IsTokenId jti
      → normalize_hex_exact value 64 "snapshot_hash_hex" ≡ ok snapshot
      → admission_hash params.runtime_trust_epoch snapshot action stored ≡ ok admission
      → let claims = filled (base_claims now jti params snapshot admission) a s aq sq in
        verify_claims sha256_hex verifier signer_now
          (op_claim_value params.op)
          (round_of params.op verifier.signer_role)
          params.escrow_id_hex
          params.txset_hash_hex
          value
          (as_action_claims claims)
        ≡ ok (verified sha256_hex params claims)
  unfolding verify_claims base_claims check_times check_identity
  verify-filled now signer_now jti snapshot value action stored admission a s aq sq time id snap
        adm =
      let claims = filled (base_claims now jti params snapshot admission) a s aq sq in
      let op = op_claim_value params.op in
      rw ((eq_iff op op).1 refl) (
        rw
          (check_times-pass params verifier issuable agrees now signer_now jti snapshot admission
            time)
          (rw (check_identity-pass params verifier issuable agrees now jti snapshot admission) (
            rw
              (check_trust-pass verifier.runtime_trust_epoch params.runtime_trust_epoch snapshot
                action stored admission (as_action_claims claims) agrees.epoch adm refl refl)
              (rw (id_ok jti id) (
                rw
                  (check_hash-pass params.txset_hash_hex params.txset_hash_hex _ _ _ issuable.txset
                    (λ label. IsHex-normalize_64 params.txset_hash_hex label issuable.txset))
                  (rw (
                    check_hash-pass snapshot value _ _ _
                      (normalize_hex-IsHex value 64 _ snapshot snap)
                      (λ label. normalize_same value _ snapshot label snap))))))))

  -- … also where they were issued, with the proofs that complete them.
  pub verify_issued_lem :
      (to_text : ℕ → String) (now jti_now signer_now : ℕ) (random : String) (db : OrchestratorDb)
      (claims : ActionTokenClaims) (wf : WorkflowInstance)
      (i : Issued to_text now jti_now random params db claims) (a s aq sq : Option String)
      → InTime params verifier now signer_now
      → IsTokenId (new_jti to_text jti_now random params.role params.op)
      → filled
          (base_claims now
            (new_jti to_text jti_now random params.role params.op)
            params
            i.snapshot
            i.admission)
          a
          s
          aq
          sq
        ≡ claims
      → find_workflow params.escrow_id_hex db.workflow_instances ≡ some wf
      → verify_claims sha256_hex verifier signer_now
          (op_claim_value params.op)
          (round_of params.op verifier.signer_role)
          params.escrow_id_hex
          params.txset_hash_hex
          wf.snapshot_hash_hex
          (as_action_claims claims)
        ≡ ok (verified sha256_hex params claims)
  verify_issued_lem to_text now jti_now signer_now random db claims wf i a s aq sq time id built
        found =
      let passed =
        verify-filled now signer_now (new_jti to_text jti_now random params.role params.op)
          i.snapshot i.workflow.snapshot_hash_hex i.proposal.action
          (find_row (artifact_of params.escrow_id_hex) db.escrow_admission_artifacts) i.admission a
          s aq sq time id i.snapshot_is i.admitted in
      let same : i.workflow ≡ wf = cc in
      subst
        (λ (w : WorkflowInstance).
          verify_claims sha256_hex verifier signer_now (op_claim_value params.op)
            (round_of params.op verifier.signer_role) params.escrow_id_hex params.txset_hash_hex
            w.snapshot_hash_hex (as_action_claims claims)
          ≡ ok (verified sha256_hex params claims))
        same
        (subst
          (λ c.
            verify_claims sha256_hex verifier signer_now (op_claim_value params.op)
              (round_of params.op verifier.signer_role) params.escrow_id_hex params.txset_hash_hex
              i.workflow.snapshot_hash_hex (as_action_claims c)
            ≡ ok (verified sha256_hex params c))
          built passed)
