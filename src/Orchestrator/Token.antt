-- ===== src/Orchestrator/Token.antt =====
-- crates/nxms-escrow-orchestrator/src/action_token.rs: the issue of a token for a signature or a
-- submission: the claims and what they are made of. The errors are the source's texts or their labels.
pub mod Params
pub mod Issue
pub mod Claims
pub mod Accepted
use Prim.Native.String.{◌++◌ as append}
use nexum_core.Common.{
  ℕ, ◌+◌, ◌-◌, ◌^◌, min, ltb, String, str_eq, Bool, true, false, not, Option, none, some, is_none,
  if◌then◌else◌,
}
use nexum_core.Common.Text.{trim, len, is_empty, to_ascii_lowercase}
use nexum_core.Common.Outcome.{Result, ok, err, ok_or, ensure, ◌>>=◌, ◌>>◌}
use nexum_core.Orchestrator.Flow.{
  WorkflowState, funded, tx_sign_pending, tx_signed_quorum, submitted,
}
use nexum_core.Orchestrator.Db.{
  WorkflowInstance, ProposalBlob, EscrowAdmissionArtifactRow, Query, normalize_hex_exact,
}
use nexum_core.Orchestrator.Db.Artifacts.{
  get_workflow_sync, get_proposal_blob_by_txset_hash_sync, get_escrow_admission_artifact_sync,
}
use nexum_core.Orchestrator.Db.Proofs.{
  SubmitMultisigProofBundle, get_submit_multisig_proof_bundle_sync,
}

pub data ActionTokenRole : Type 0 where
  arbiter : ActionTokenRole
  seller : ActionTokenRole
  buyer : ActionTokenRole

pub data ActionTokenOp : Type 0 where
  sign_multisig : ActionTokenOp
  submit_multisig : ActionTokenOp

-- `ActionTokenRole::claim_value`
abbrev pub role_claim_value : ActionTokenRole → String
role_claim_value arbiter = "arbiter"
role_claim_value seller = "seller"
role_claim_value buyer = "buyer"

abbrev pub env_prefix : ActionTokenRole → String
env_prefix arbiter = "ARBITER"
env_prefix seller = "SELLER"
env_prefix buyer = "BUYER"

-- `ActionTokenOp::claim_value`
abbrev pub op_claim_value : ActionTokenOp → String
op_claim_value sign_multisig = "sign_multisig"
op_claim_value submit_multisig = "submit_multisig"

abbrev pub expected_sign_round : ActionTokenOp → ActionTokenRole → String
expected_sign_round sign_multisig arbiter = "arbiter_first"
expected_sign_round sign_multisig seller = "seller_second"
expected_sign_round sign_multisig buyer = "buyer_second"
expected_sign_round submit_multisig arbiter = "arbiter_submit"
expected_sign_round submit_multisig seller = "seller_submit"
expected_sign_round submit_multisig buyer = "buyer_submit"

-- The algorithm and the key are in the parameter `encode`.
pub record IssueActionTokenParams : Type 0 where
  pub escrow_id_hex : String
  pub txset_hash_hex : String
  pub role : ActionTokenRole
  pub op : ActionTokenOp
  pub issuer : String
  pub ttl_secs : ℕ
  pub subject : String
  pub wallet_id : String
  pub sandbox_id : String
  pub audience : String
  pub nettype : String
  pub runtime_trust_epoch : Option String

pub record ActionTokenClaims : Type 0 where
  pub iss : String
  pub aud : String
  pub sub : String
  pub scope : String
  pub op : String
  pub role : String
  pub sign_round : String
  pub escrow_id : String
  pub wallet_id : String
  pub sandbox_id : String
  pub txset_hash : String
  pub snapshot_hash : String
  pub nettype : String
  pub runtime_trust_epoch : Option String
  pub escrow_admission_hash : Option String
  pub iat : ℕ
  pub nbf : ℕ
  pub exp : ℕ
  pub jti : String
  pub proof_arbiter_jti : Option String
  pub proof_seller_jti : Option String
  pub proof_arbiter_req_id : Option String
  pub proof_seller_req_id : Option String

pub record IssuedActionTokenOutput : Type 0 where
  pub token : String
  pub claims : ActionTokenClaims

unfoldable pub normalize_non_empty : String → String → ℕ → Result String String
normalize_non_empty value label max_len =
    if is_empty (trim value)
    then err label
    else if ltb max_len (len (trim value))
    then err label
    else ok (trim value)

unfoldable pub workflow_action_key : String → Result String String
workflow_action_key action = elim (normalize_non_empty action "proposal.action" 32) [
  | ok value ↦ ok (to_ascii_lowercase value)
  | err e ↦ err e
]

abbrev pub workflow_state_allows_action_token : WorkflowState → Bool
workflow_state_allows_action_token funded = true
workflow_state_allows_action_token tx_sign_pending = true
workflow_state_allows_action_token tx_signed_quorum = true
workflow_state_allows_action_token submitted = true
workflow_state_allows_action_token _ = false

abbrev pub u64_max : ℕ
u64_max = 2 ^ 64 - 1

abbrev pub with_proofs : ActionTokenClaims → String → String → String → String → ActionTokenClaims
with_proofs claims arbiter_jti seller_jti arbiter_req_id seller_req_id = record claims {
  proof_arbiter_jti = some arbiter_jti;
  proof_seller_jti = some seller_jti;
  proof_arbiter_req_id = some arbiter_req_id;
  proof_seller_req_id = some seller_req_id;
}

unfoldable pub apply_submit_proof_bundle :
    ActionTokenClaims → SubmitMultisigProofBundle → Result String ActionTokenClaims
apply_submit_proof_bundle claims bundle = do
  ensure (str_eq claims.escrow_id bundle.escrow_id_hex) "submit proof bundle escrow_id mismatch"
  ensure (str_eq claims.txset_hash bundle.txset_hash_hex) "submit proof bundle txset_hash mismatch"
  arbiter_jti ← normalize_non_empty bundle.proof_arbiter_jti "proof_arbiter_jti" 256
  seller_jti ← normalize_non_empty bundle.proof_seller_jti "proof_seller_jti" 256
  arbiter_req_id ← normalize_hex_exact bundle.proof_arbiter_req_id 64 "proof_arbiter_req_id"
  seller_req_id ← normalize_hex_exact bundle.proof_seller_req_id 64 "proof_seller_req_id"
  ok (with_proofs claims arbiter_jti seller_jti arbiter_req_id seller_req_id)

-- The admission artifact's part: its hash, or none where no runtime trust is asked for.
unfoldable pub admission_hash :
    Option String
    → String
    → String
    → Option EscrowAdmissionArtifactRow
    → Result String (Option String)
admission_hash epoch snapshot action none =
    if is_none epoch
    then ok none
    else err "missing escrow admission artifact for runtime-trusted action token issuance"
admission_hash epoch snapshot action (some admission) = do
  ensure (str_eq admission.snapshot_hash_hex snapshot)
      "escrow admission snapshot_hash mismatch against workflow"
  ensure (elim epoch [ none ↦ true | some e ↦ str_eq admission.runtime_trust_epoch e ])
      "escrow admission runtime_trust_epoch mismatch"
  key ← workflow_action_key action
  ensure (str_eq admission.action key) "escrow admission action mismatch against proposal"
  hash ← normalize_hex_exact admission.artifact_hash_hex 64 "escrow_admission_hash"
  ok (some hash)

-- The claims before the proofs of a submission.
unfoldable pub base_claims :
    ℕ → String → IssueActionTokenParams → String → Option String → ActionTokenClaims
base_claims now jti params snapshot_hash admission = record {
  iss = params.issuer;
  aud = params.audience;
  sub = params.subject;
  scope = op_claim_value params.op;
  op = op_claim_value params.op;
  role = role_claim_value params.role;
  sign_round = expected_sign_round params.op params.role;
  escrow_id = params.escrow_id_hex;
  wallet_id = params.wallet_id;
  sandbox_id = params.sandbox_id;
  txset_hash = params.txset_hash_hex;
  snapshot_hash = snapshot_hash;
  nettype = params.nettype;
  runtime_trust_epoch = params.runtime_trust_epoch;
  escrow_admission_hash = admission;
  iat = now;
  nbf = now;
  exp = min (now + params.ttl_secs) u64_max;
  jti = jti;
  proof_arbiter_jti = none;
  proof_seller_jti = none;
  proof_arbiter_req_id = none;
  proof_seller_req_id = none;
}
