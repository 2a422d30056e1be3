-- ===== src/Orchestrator/Token/Issue.antt =====
-- crates/nxms-escrow-orchestrator/src/action_token.rs: `issue_action_token`. The clock is `now`, in
-- seconds, and `jti_now` where `new_jti` reads it again; `random` is the hexadecimal text of the random
-- bytes, `to_text` the decimal text of a `u64`, and `encode` signs the claims with the issuer's key.
use Prim.Native.String.{◌++◌ as append}
use nexum_core.Common.{ℕ, String, str_eq}
use nexum_core.Common.Outcome.{Result, ok_or}
use nexum_core.Common.Method.{lift, require, pure, ◌>>=◌, ◌>>◌}
use nexum_core.Orchestrator.Db.{WorkflowInstance, ProposalBlob, Query, normalize_hex_exact}
use nexum_core.Orchestrator.Db.Artifacts.{
  get_workflow_sync, get_proposal_blob_by_txset_hash_sync, get_escrow_admission_artifact_sync,
}
use nexum_core.Orchestrator.Db.Proofs.{get_submit_multisig_proof_bundle_sync}
use nexum_core.Orchestrator.Token.{
  ActionTokenRole, ActionTokenOp, sign_multisig, submit_multisig, IssueActionTokenParams,
  ActionTokenClaims, IssuedActionTokenOutput, role_claim_value, op_claim_value, base_claims,
  admission_hash, apply_submit_proof_bundle, workflow_state_allows_action_token,
}

-- `if matches!(params.op, SubmitMultisig)`; `clock` is the time of the bundle in milliseconds.
unfoldable pub add_proofs :
    ℕ → IssueActionTokenParams → ActionTokenOp → ActionTokenClaims → Query ActionTokenClaims
add_proofs clock params sign_multisig claims = pure claims
add_proofs clock params submit_multisig claims = do
  bundle ← get_submit_multisig_proof_bundle_sync clock params.escrow_id_hex params.txset_hash_hex
  lift (apply_submit_proof_bundle claims bundle)

module _ (to_text : ℕ → String) where
  unfoldable pub new_jti : ℕ → String → ActionTokenRole → ActionTokenOp → String
  new_jti now random role op = append "orch-" (
      append (to_text now) (
        append "-" (
          append (role_claim_value role)
            (append "-" (append (op_claim_value op) (append "-" random))))))

  unfoldable pub build_claims :
      ℕ
      → ℕ
      → ℕ
      → String
      → IssueActionTokenParams
      → WorkflowInstance
      → ProposalBlob
      → Query ActionTokenClaims
  build_claims now jti_now clock random params workflow proposal = do
    snapshot_hash ← lift (normalize_hex_exact workflow.snapshot_hash_hex 64 "snapshot_hash_hex")
    let jti = new_jti jti_now random params.role params.op
    admission ← get_escrow_admission_artifact_sync params.escrow_id_hex
    hash ← lift (admission_hash params.runtime_trust_epoch snapshot_hash proposal.action admission)
    add_proofs clock params params.op (base_claims now jti params snapshot_hash hash)

  unfoldable pub issue_action_token :
      (ActionTokenClaims → Result String String)
      → ℕ
      → ℕ
      → ℕ
      → String
      → IssueActionTokenParams
      → Query IssuedActionTokenOutput
  issue_action_token encode now jti_now clock random params = do
    found ← get_workflow_sync params.escrow_id_hex
    workflow ← lift (ok_or found "workflow not found")
    require (workflow_state_allows_action_token workflow.state)
        "workflow state does not allow action token issuance"
    blob ← get_proposal_blob_by_txset_hash_sync params.escrow_id_hex params.txset_hash_hex
    proposal ← lift (ok_or blob "proposal blob not found")
    require (str_eq proposal.txset_hash_hex params.txset_hash_hex) "proposal txset_hash mismatch"
    claims ← build_claims now jti_now clock random params workflow proposal
    token ← lift (encode claims)
    pure (record { token = token; claims = claims })
