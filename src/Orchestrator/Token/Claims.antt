-- ===== src/Orchestrator/Token/Claims.antt =====
-- What an issued token rests on.
use nexum_core.Common.{ℕ, String, str_eq, ◌≡◌, ap, subst, true, ◌&&◌, Option, some}
use nexum_core.Common.Rows.{find_row}
use nexum_core.Common.Text.Hex.{IsHex}
use nexum_core.Common.Outcome.{Result, ok, ok_or, ok_or-eq-ok, ok_inj}
use nexum_core.Common.Method.{lift-eq-ok, require-eq-ok, bind-eq-ok, read-eq-ok}
use nexum_core.Orchestrator.Db.{OrchestratorDb, WorkflowInstance, ProposalBlob, normalize_hex_exact}
use nexum_core.Orchestrator.Db.Inputs.{IsHex-normalize}
use nexum_core.Orchestrator.Db.Workflows.{find_workflow}
use nexum_core.Orchestrator.Db.Artifacts.{
  get_workflow_sync, get_proposal_blob_by_txset_hash_sync, get_escrow_admission_artifact_sync,
  artifact_of, blob_of,
}
use nexum_core.Orchestrator.Db.Proofs.{
  SubmitMultisigProofBundle, get_submit_multisig_proof_bundle_sync,
}
use nexum_core.Orchestrator.Db.Proofs.Sound.{Bundled, bundle-Bundled}
use nexum_core.Orchestrator.Token.{
  ActionTokenOp, sign_multisig, submit_multisig, IssueActionTokenParams, ActionTokenClaims,
  IssuedActionTokenOutput, base_claims, admission_hash, apply_submit_proof_bundle,
  workflow_state_allows_action_token,
}
use nexum_core.Orchestrator.Token.Issue.{new_jti, add_proofs, build_claims, issue_action_token}
use nexum_core.Orchestrator.Token.Params.{IsIssuable}

-- The claims of a signature's token are the base claims; those of a submission's have the two stored
-- proofs too.
abbrev pub Completed :
    IssueActionTokenParams
    → OrchestratorDb
    → ActionTokenOp
    → ActionTokenClaims
    → ActionTokenClaims
    → Type 0
Completed params db sign_multisig base claims = base ≡ claims
Completed params db submit_multisig base claims =
    (b : SubmitMultisigProofBundle) × Bundled params.escrow_id_hex params.txset_hash_hex db b
    × (apply_submit_proof_bundle base b ≡ ok claims)

-- What an issued token's claims rest on in the database.
pub record Issued (to_text : ℕ → String) (now jti_now : ℕ) (random : String)
    (params : IssueActionTokenParams) (db : OrchestratorDb) (claims : ActionTokenClaims)
    : Type 0 where
  pub workflow : WorkflowInstance
  pub found : find_workflow params.escrow_id_hex db.workflow_instances ≡ some workflow
  pub allowed : workflow_state_allows_action_token workflow.state ≡ true
  pub proposal : ProposalBlob
  pub proposed :
      find_row
        (λ b. blob_of params.escrow_id_hex b && str_eq b.txset_hash_hex params.txset_hash_hex)
        db.proposal_blobs
      ≡ some proposal
  pub snapshot : String
  pub snapshot_is :
      normalize_hex_exact workflow.snapshot_hash_hex 64 "snapshot_hash_hex" ≡ ok snapshot
  pub admission : Option String
  pub admitted :
      admission_hash params.runtime_trust_epoch snapshot proposal.action
        (find_row (artifact_of params.escrow_id_hex) db.escrow_admission_artifacts)
      ≡ ok admission
  pub completed :
      Completed params db params.op
        (base_claims now
          (new_jti to_text jti_now random params.role params.op)
          params
          snapshot
          admission)
        claims

get_workflow_hex :
    (id : String) (db : OrchestratorDb)
    → IsHex 32 id
    → get_workflow_sync id db ≡ (ok (find_workflow id db.workflow_instances), db)
unfolding get_workflow_sync
get_workflow_hex id db h = rw (IsHex-normalize 32 "escrow_id_hex must be 32 hex chars" id h)

get_admission_hex :
    (id : String) (db : OrchestratorDb)
    → IsHex 32 id
    → get_escrow_admission_artifact_sync id db
      ≡ (ok (find_row (artifact_of id) db.escrow_admission_artifacts), db)
unfolding get_escrow_admission_artifact_sync
get_admission_hex id db h = rw (IsHex-normalize 32 "escrow_id_hex must be 32 hex chars" id h)

get_blob_hex :
    (id t : String) (db : OrchestratorDb)
    → IsHex 32 id
    → IsHex 64 t
    → get_proposal_blob_by_txset_hash_sync id t db
      ≡ (ok (find_row (λ b. blob_of id b && str_eq b.txset_hash_hex t) db.proposal_blobs), db)
unfolding get_proposal_blob_by_txset_hash_sync
get_blob_hex id t db h k = rw (
  IsHex-normalize 32 "escrow_id_hex must be 32 hex chars" id h,
  IsHex-normalize 64 "txset_hash_hex must be 64 hex chars" t k,
)

module _ (params : IssueActionTokenParams) (issuable : IsIssuable params) where
  add_proofs-Completed :
      (clock : ℕ) (op : ActionTokenOp) (base claims : ActionTokenClaims) (db db' : OrchestratorDb)
      → add_proofs clock params op base db ≡ (ok claims, db')
      → Completed params db op base claims
  unfolding add_proofs
  add_proofs-Completed clock sign_multisig base claims db db' h = ok_inj (ap (λ x. x.0) h)
  add_proofs-Completed clock submit_multisig base claims db db' h =
      let id = params.escrow_id_hex in
      let t = params.txset_hash_hex in
      let query = get_submit_multisig_proof_bundle_sync clock id t in
      let (b, got, rest) = bind-eq-ok query _ db db' h in
      (
        b,
        bundle-Bundled clock id t id t db (query db).1 b (IsHex-normalize 32 _ id issuable.escrow)
            (IsHex-normalize 64 _ t issuable.txset) (ap (λ r. (r, (query db).1)) got),
        ap (λ x. x.0) rest,
      )

  module _ (to_text : ℕ → String) (encode : ActionTokenClaims → Result String String)
      (now jti_now clock : ℕ) (random : String) where
    build-parts :
        (wf : WorkflowInstance) (proposal : ProposalBlob) (claims : ActionTokenClaims)
        (db db' : OrchestratorDb)
        → build_claims to_text now jti_now clock random params wf proposal db ≡ (ok claims, db')
        → (snapshot : String) × (normalize_hex_exact wf.snapshot_hash_hex 64 "snapshot_hash_hex"
            ≡ ok snapshot)
          × (admission : Option String) × (admission_hash params.runtime_trust_epoch snapshot
                proposal.action
                (find_row (artifact_of params.escrow_id_hex) db.escrow_admission_artifacts)
              ≡ ok admission)
          × Completed params db params.op
              (base_claims now
                (new_jti to_text jti_now random params.role params.op)
                params
                snapshot
                admission)
              claims
    unfolding build_claims
    build-parts wf proposal claims db db' h0 =
        let id = params.escrow_id_hex in
        let (snapshot, snap, h1) =
          lift-eq-ok (normalize_hex_exact wf.snapshot_hash_hex 64 "snapshot_hash_hex") _ db db'
            h0 in
        let h2 =
          read-eq-ok (get_escrow_admission_artifact_sync id) _ db db' _
            (get_admission_hex id db issuable.escrow) h1 in
        let stored = find_row (artifact_of id) db.escrow_admission_artifacts in
        let (hash, admitted, h3) =
          lift-eq-ok (admission_hash params.runtime_trust_epoch snapshot proposal.action stored) _
            db db' h2 in
        (snapshot, snap, hash, admitted, add_proofs-Completed clock params.op _ claims db db' h3)

    -- A token that is issued for parameters in normal form rests on the database: the workflow of the
    -- escrow is there, in a state that allows it; a proposal of the transaction set is stored; the
    -- claims are made of the parameters, of the workflow's snapshot hash and of the escrow's
    -- admission; and those of a submission have the two stored proofs, which differ.
    pub issue-Issued :
        (db db' : OrchestratorDb) (out : IssuedActionTokenOutput)
        → issue_action_token to_text encode now jti_now clock random params db ≡ (ok out, db')
        → Issued to_text now jti_now random params db out.claims
    unfolding issue_action_token
    issue-Issued db db' out h0 =
        let id = params.escrow_id_hex in
        let t = params.txset_hash_hex in
        let h1 =
          read-eq-ok (get_workflow_sync id) _ db db' _ (get_workflow_hex id db issuable.escrow)
            h0 in
        let (wf, found, h2) =
          lift-eq-ok (ok_or (find_workflow id db.workflow_instances) _) _ db db' h1 in
        let (allowed, h3) =
          require-eq-ok (workflow_state_allows_action_token wf.state) _ _ db db' h2 in
        let h4 =
          read-eq-ok (get_proposal_blob_by_txset_hash_sync id t) _ db db' _
            (get_blob_hex id t db issuable.escrow issuable.txset) h3 in
        let blobs = find_row (λ b. blob_of id b && str_eq b.txset_hash_hex t) db.proposal_blobs in
        let (proposal, proposed, h5) = lift-eq-ok (ok_or blobs _) _ db db' h4 in
        let (_, h6) = require-eq-ok (str_eq proposal.txset_hash_hex t) _ _ db db' h5 in
        let (claims, built, h7) =
          bind-eq-ok (build_claims to_text now jti_now clock random params wf proposal) _ db db'
            h6 in
        let db1 = (build_claims to_text now jti_now clock random params wf proposal db).1 in
        let (snapshot, snap, hash, admitted, completed) =
          build-parts wf proposal claims db db1 (ap (λ r. (r, db1)) built) in
        let jti = new_jti to_text jti_now random params.role params.op in
        let (token, _, h8) = lift-eq-ok (encode claims) _ db1 db' h7 in
        let same : claims ≡ out.claims =
          ap (λ (o : IssuedActionTokenOutput). o.claims) (ok_inj (ap (λ x. x.0) h8)) in
        record {
          workflow = wf;
          found = ok_or-eq-ok _ _ wf found;
          allowed = allowed;
          proposal = proposal;
          proposed = ok_or-eq-ok _ _ proposal proposed;
          snapshot = snapshot;
          snapshot_is = snap;
          admission = hash;
          admitted = admitted;
          completed =
              subst
                (λ c. Completed params db params.op (base_claims now jti params snapshot hash) c)
                same completed;
        }
