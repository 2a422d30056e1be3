-- ===== src/Orchestrator/Token/Accepted/Sign.antt =====
-- The token of a signature, from its issue to its verification.
use nexum_core.Common.{ℕ, String, ◌≡◌, subst, none, some}
use nexum_core.Common.Table.{Table}
use nexum_core.Common.Outcome.{Result, ok}
use nexum_core.Orchestrator.Db.{OrchestratorDb, WorkflowInstance}
use nexum_core.Orchestrator.Db.Workflows.{find_workflow}
use nexum_core.Orchestrator.Token.{
  sign_multisig, IssueActionTokenParams, ActionTokenClaims, IssuedActionTokenOutput, base_claims,
  op_claim_value,
}
use nexum_core.Orchestrator.Token.Issue.{new_jti, issue_action_token}
use nexum_core.Orchestrator.Token.Params.{IsIssuable}
use nexum_core.Orchestrator.Token.Claims.{issue-Issued, Completed}
use nexum_core.Orchestrator.Token.Accepted.{as_action_claims, round_of, Agrees, InTime, IsTokenId}
use nexum_core.Orchestrator.Token.Accepted.Verify.{verified, verify_issued_lem}
use nexum_core.Signer.VerifyLimiter.{VerifyRateLimits, VerifyRateEntry, check}
use nexum_core.Signer.Token.{ActionClaims, ActionTokenVerifier, verify_claims}
use nexum_core.Signer.Token.Verify.{verify_common, verify_sign_multisig}

module _ (sha256_hex : String → String)
    (decode : ActionTokenVerifier → ℕ → String → Result String ActionClaims)
    (verifier : ActionTokenVerifier) (limits : VerifyRateLimits) (to_text : ℕ → String)
    (encode : ActionTokenClaims → Result String String) (params : IssueActionTokenParams)
    (issuable : IsIssuable params) (agrees : Agrees params verifier)
    (now jti_now clock signer_now : ℕ) (random : String)
    (time : InTime params verifier now signer_now)
    (id : IsTokenId (new_jti to_text jti_now random params.role params.op))
    (db db' : OrchestratorDb) (out : IssuedActionTokenOutput)
    (issued : issue_action_token to_text encode now jti_now clock random params db ≡ (ok out, db'))
    (wf : WorkflowInstance)
    (found : find_workflow params.escrow_id_hex db.workflow_instances ≡ some wf)
    (decoded : decode verifier signer_now out.token ≡ ok (as_action_claims out.claims))
    (table table' : Table VerifyRateEntry)
    (admitted : check limits (sha256_hex out.token) signer_now table ≡ (ok tt, table')) where
  -- A token that the orchestrator issues for a signature, with parameters in normal form, is taken by
  -- a signer with the same configuration (role, wallet, sandbox, network and epoch, a subject of at
  -- most 128 bytes, and a lifetime within the signer's limit), for the escrow, the transaction set and
  -- the workflow's snapshot, if the clocks agree up to the skew, the token's identifier is not blank and
  -- has at most 256 bytes, the limiter admits it, and the JWT library reads the claims that were encoded;
  -- the request it stands for is the signer's `req_id`.
  pub issued_sign_token_accepted :
      params.op ≡ sign_multisig
      → verify_sign_multisig sha256_hex decode verifier limits signer_now out.token
          params.escrow_id_hex params.txset_hash_hex wf.snapshot_hash_hex table
        ≡ (ok (verified sha256_hex params out.claims), table')
  unfolding verify_sign_multisig verify_common base_claims
  issued_sign_token_accepted op =
      let i =
        issue-Issued params issuable to_text encode now jti_now clock random db db' out issued in
      let base =
        base_claims now (new_jti to_text jti_now random params.role params.op) params i.snapshot
          i.admission in
      let built : base ≡ out.claims =
        subst (λ o. Completed params db o base out.claims) op i.completed in
      let passed =
        verify_issued_lem sha256_hex params verifier issuable agrees to_text now jti_now signer_now
          random db out.claims wf i none none none none time id built found in
      let at_op =
        subst
          (λ o.
            verify_claims sha256_hex verifier signer_now (op_claim_value o)
              (round_of o verifier.signer_role) params.escrow_id_hex params.txset_hash_hex
              wf.snapshot_hash_hex (as_action_claims out.claims)
            ≡ ok (verified sha256_hex params out.claims))
          op passed in
      rw admitted (rw decoded (rw at_op))
