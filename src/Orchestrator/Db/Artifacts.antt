-- ===== src/Orchestrator/Db/Artifacts.antt =====
-- crates/nxms-escrow-orchestrator/src/db.rs: the queries of a workflow, the proposal blob and the
-- admission artifact of an escrow. A row's `created_at_ms` stays when the row is written again.
use nexum_core.Common.{
  ℕ, leb, String, str_eq, Bool, true, false, ◌&&◌, Option, List, [], ◌∷◌, suc, not, if◌then◌else◌,
}
use nexum_core.Common.Rows.{find_row, upsert_row}
use nexum_core.Common.Outcome.{ok_or}
use nexum_core.Common.Method.{lift, this, put, require, pure, ◌>>=◌, ◌>>◌}
use nexum_core.Orchestrator.Flow.{
  WorkflowState, funded, tx_sign_pending, tx_signed_quorum, state_eq,
}
use nexum_core.Orchestrator.Db.{
  WorkflowInstance, WorkflowStep, ProposalBlob, EscrowAdmissionArtifactRow, Query, as_i64, i64_max,
  normalize_hex_exact, contains_name,
}
use nexum_core.Orchestrator.Db.Inputs.{normalize_even_hex, normalize_action}
use nexum_core.Orchestrator.Db.Workflows.{find_workflow}

unfoldable pub get_workflow_sync : String → Query (Option WorkflowInstance)
get_workflow_sync escrow_id = do
  escrow_id_hex ← lift (normalize_hex_exact escrow_id 32 "escrow_id_hex must be 32 hex chars")
  db ← this
  pure (find_workflow escrow_id_hex db.workflow_instances)

-- `WHERE escrow_id_hex=?1`
abbrev pub blob_of : String → ProposalBlob → Bool
blob_of id b = str_eq b.escrow_id_hex id

abbrev pub allows_proposal_blob : WorkflowState → Bool
allows_proposal_blob funded = true
allows_proposal_blob tx_sign_pending = true
allows_proposal_blob tx_signed_quorum = true
allows_proposal_blob _ = false

-- `ON CONFLICT(escrow_id_hex) DO UPDATE SET …`
abbrev pub set_blob : ProposalBlob → ProposalBlob → ProposalBlob
set_blob new b = record b {
  action = new.action;
  tx_data_hex = new.tx_data_hex;
  txset_hash_hex = new.txset_hash_hex;
  updated_at_ms = new.updated_at_ms;
}

unfoldable pub upsert_proposal_blob_sync : ℕ → String → String → String → String → Query Unit
upsert_proposal_blob_sync now escrow_id raw_action tx_data txset_hash = do
  escrow_id_hex ← lift (normalize_hex_exact escrow_id 32 "escrow_id_hex must be 32 hex chars")
  action ← lift (normalize_action raw_action)
  tx_data_hex ← lift (normalize_even_hex tx_data "tx_data_hex must be non-empty even-length hex")
  txset_hash_hex ← lift (normalize_hex_exact txset_hash 64 "txset_hash_hex must be 64 hex chars")
  db ← this
  wf ← lift (ok_or (find_workflow escrow_id_hex db.workflow_instances) "workflow not found")
  require (allows_proposal_blob wf.state) "workflow state does not allow proposal blob storage"
  let blob : ProposalBlob = record {
    escrow_id_hex = escrow_id_hex;
    action = action;
    tx_data_hex = tx_data_hex;
    txset_hash_hex = txset_hash_hex;
    created_at_ms = as_i64 now;
    updated_at_ms = as_i64 now;
  }
  put (record db {
    proposal_blobs = upsert_row (blob_of escrow_id_hex) (set_blob blob) blob db.proposal_blobs;
  })

unfoldable pub get_proposal_blob_sync : String → Query (Option ProposalBlob)
get_proposal_blob_sync escrow_id = do
  escrow_id_hex ← lift (normalize_hex_exact escrow_id 32 "escrow_id_hex must be 32 hex chars")
  db ← this
  pure (find_row (blob_of escrow_id_hex) db.proposal_blobs)

unfoldable pub get_proposal_blob_by_txset_hash_sync : String → String → Query (Option ProposalBlob)
get_proposal_blob_by_txset_hash_sync escrow_id txset_hash = do
  escrow_id_hex ← lift (normalize_hex_exact escrow_id 32 "escrow_id_hex must be 32 hex chars")
  txset_hash_hex ← lift (normalize_hex_exact txset_hash 64 "txset_hash_hex must be 64 hex chars")
  db ← this
  pure (
      find_row (λ b. blob_of escrow_id_hex b && str_eq b.txset_hash_hex txset_hash_hex)
        db.proposal_blobs)

abbrev pub artifact_of : String → EscrowAdmissionArtifactRow → Bool
artifact_of id a = str_eq a.escrow_id_hex id

-- `i64::try_from(v).unwrap_or(now)`
abbrev pub as_i64_or : ℕ → ℕ → ℕ
as_i64_or now v = if leb v i64_max then v else now

abbrev pub set_artifact :
    EscrowAdmissionArtifactRow → EscrowAdmissionArtifactRow → EscrowAdmissionArtifactRow
set_artifact new a = record new { escrow_id_hex = a.escrow_id_hex; created_at_ms = a.created_at_ms }

unfoldable pub upsert_escrow_admission_artifact_sync : ℕ → EscrowAdmissionArtifactRow → Query Unit
upsert_escrow_admission_artifact_sync now row = do
  escrow_id_hex ←
      lift (normalize_hex_exact row.escrow_id_hex 32 "escrow_id_hex must be 32 hex chars")
  snapshot_hash_hex ←
      lift (normalize_hex_exact row.snapshot_hash_hex 64 "snapshot_hash_hex must be 64 hex chars")
  action ← lift (normalize_action row.action)
  db ← this
  wf ← lift (ok_or (find_workflow escrow_id_hex db.workflow_instances) "workflow not found")
  require (str_eq wf.snapshot_hash_hex snapshot_hash_hex)
      "escrow admission snapshot_hash mismatch against workflow"
  let stored : EscrowAdmissionArtifactRow = record row {
    escrow_id_hex = escrow_id_hex;
    snapshot_hash_hex = snapshot_hash_hex;
    action = action;
    created_at_ms = as_i64_or (as_i64 now) row.created_at_ms;
    updated_at_ms = as_i64_or (as_i64 now) row.updated_at_ms;
  }
  put (record db {
    escrow_admission_artifacts =
        upsert_row (artifact_of escrow_id_hex) (set_artifact stored) stored
          db.escrow_admission_artifacts;
  })

unfoldable pub get_escrow_admission_artifact_sync :
    String → Query (Option EscrowAdmissionArtifactRow)
get_escrow_admission_artifact_sync escrow_id = do
  escrow_id_hex ← lift (normalize_hex_exact escrow_id 32 "escrow_id_hex must be 32 hex chars")
  db ← this
  pure (find_row (artifact_of escrow_id_hex) db.escrow_admission_artifacts)

-- `COUNT(DISTINCT from_id)` over the steps of the escrow in the state, `seen` counted already.
count_senders : String → WorkflowState → List String → List WorkflowStep → ℕ
count_senders id state seen [] = 0
count_senders id state seen (s ∷ steps) =
    let fresh =
      str_eq s.escrow_id_hex id && state_eq s.state state && not (contains_name s.from_id seen) in
    let rest = count_senders id state (if fresh then s.from_id ∷ seen else seen) steps in
    if fresh then suc rest else rest

unfoldable pub step_count_for_state_sync : String → WorkflowState → Query ℕ
unfolding count_senders
step_count_for_state_sync escrow_id state = do
  escrow_id_hex ← lift (normalize_hex_exact escrow_id 32 "escrow_id_hex must be 32 hex chars")
  db ← this
  pure (count_senders escrow_id_hex state [] db.workflow_steps)
