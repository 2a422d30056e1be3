-- ===== src/Orchestrator/Db/Proofs.antt =====
-- crates/nxms-escrow-orchestrator/src/db.rs: the proofs of the quorum's signatures and the bundle
-- of the two that a submission rests on.
pub mod Unique
pub mod Bundle
pub mod Pair
pub mod Sound
use nexum_core.Common.{ℕ, String, str_eq, Bool, true, false, ◌&&◌, not, Option, List, if◌then◌else◌}
use nexum_core.Common.Rows.{find_row, any_row, upsert_row}
use nexum_core.Common.Outcome.{Result, ok, err, ok_or}
use nexum_core.Common.Method.{lift, this, put, require, pure, ◌>>=◌, ◌>>◌}
use nexum_core.Orchestrator.Db.{OrchestratorDb, QuorumSignProof, Query, as_i64, normalize_hex_exact}
use nexum_core.Orchestrator.Db.Inputs.{
  normalize_worker_role, normalize_quorum_sign_round_for_role, normalize_jti,
  workflow_allows_quorum_proof_state, workflow_allows_submit_multisig_proof_bundle_state,
}
use nexum_core.Orchestrator.Db.Workflows.{find_workflow}

pub record SubmitMultisigProofBundle : Type 0 where
  pub escrow_id_hex : String
  pub txset_hash_hex : String
  pub proof_arbiter_jti : String
  pub proof_arbiter_req_id : String
  pub proof_seller_jti : String
  pub proof_seller_req_id : String
  pub arbiter_proof_updated_at_ms : ℕ
  pub seller_proof_updated_at_ms : ℕ
  pub generated_at_ms : ℕ

-- The primary key of `quorum_sign_proofs`.
abbrev pub proof_of : String → String → String → String → QuorumSignProof → Bool
proof_of id role sign_round txset p =
    str_eq p.escrow_id_hex id
    && str_eq p.role role
    && str_eq p.sign_round sign_round
    && str_eq p.txset_hash_hex txset

-- `ON CONFLICT(…) DO UPDATE SET …`
abbrev pub set_proof : QuorumSignProof → QuorumSignProof → QuorumSignProof
set_proof new p = record p { jti = new.jti; req_id = new.req_id; updated_at_ms = new.updated_at_ms }

-- The row of a proof.
abbrev pub same_proof : QuorumSignProof → QuorumSignProof → Bool
same_proof new = proof_of new.escrow_id_hex new.role new.sign_round new.txset_hash_hex

-- A row of another key that has the request.
abbrev pub requested_elsewhere : String → (QuorumSignProof → Bool) → QuorumSignProof → Bool
requested_elsewhere req_id key p = str_eq p.req_id req_id && not (key p)

abbrev pub takes_request : QuorumSignProof → QuorumSignProof → Bool
takes_request new = requested_elsewhere new.req_id (same_proof new)

unfoldable pub write_proof : QuorumSignProof → OrchestratorDb → OrchestratorDb
write_proof new db = record db {
  quorum_sign_proofs = upsert_row (same_proof new) (set_proof new) new db.quorum_sign_proofs;
}

-- `INSERT INTO quorum_sign_proofs … ON CONFLICT …`; the table has `UNIQUE(req_id)`, which the clause
-- for the primary key does not resolve.
unfoldable pub store_proof : QuorumSignProof → Query Unit
store_proof new = do
  db ← this
  require (not (any_row (takes_request new) db.quorum_sign_proofs))
      "UNIQUE constraint failed: quorum_sign_proofs.req_id"
  put (write_proof new db)

unfoldable pub upsert_quorum_sign_proof_sync :
    ℕ → String → String → String → String → String → String → Query Unit
upsert_quorum_sign_proof_sync now escrow_id raw_role raw_round txset_hash raw_jti raw_req_id = do
  escrow_id_hex ← lift (normalize_hex_exact escrow_id 32 "escrow_id_hex must be 32 hex chars")
  role ← lift (normalize_worker_role raw_role)
  sign_round ← lift (normalize_quorum_sign_round_for_role role raw_round)
  txset_hash_hex ← lift (normalize_hex_exact txset_hash 64 "txset_hash_hex must be 64 hex chars")
  jti ← lift (normalize_jti raw_jti "jti must not be empty")
  req_id ← lift (normalize_hex_exact raw_req_id 64 "req_id must be 64 hex chars")
  db ← this
  wf ← lift (ok_or (find_workflow escrow_id_hex db.workflow_instances) "workflow not found")
  require (workflow_allows_quorum_proof_state wf.state)
      "workflow state does not allow quorum proof storage"
  store_proof (record {
    escrow_id_hex = escrow_id_hex;
    role = role;
    sign_round = sign_round;
    txset_hash_hex = txset_hash_hex;
    jti = jti;
    req_id = req_id;
    updated_at_ms = as_i64 now;
  })

unfoldable pub get_quorum_sign_proof_tx :
    String → String → String → String → OrchestratorDb → Option QuorumSignProof
get_quorum_sign_proof_tx id role sign_round txset db =
    find_row (proof_of id role sign_round txset) db.quorum_sign_proofs

unfoldable pub get_quorum_sign_proof_sync :
    String → String → String → String → Query (Option QuorumSignProof)
get_quorum_sign_proof_sync escrow_id raw_role raw_round txset_hash = do
  escrow_id_hex ← lift (normalize_hex_exact escrow_id 32 "escrow_id_hex must be 32 hex chars")
  role ← lift (normalize_worker_role raw_role)
  sign_round ← lift (normalize_quorum_sign_round_for_role role raw_round)
  txset_hash_hex ← lift (normalize_hex_exact txset_hash 64 "txset_hash_hex must be 64 hex chars")
  db ← this
  pure (get_quorum_sign_proof_tx escrow_id_hex role sign_round txset_hash_hex db)

unfoldable pub get_submit_multisig_proof_bundle_sync :
    ℕ → String → String → Query SubmitMultisigProofBundle
get_submit_multisig_proof_bundle_sync now escrow_id txset_hash = do
  escrow_id_hex ← lift (normalize_hex_exact escrow_id 32 "escrow_id_hex must be 32 hex chars")
  txset_hash_hex ← lift (normalize_hex_exact txset_hash 64 "txset_hash_hex must be 64 hex chars")
  db ← this
  wf ← lift (ok_or (find_workflow escrow_id_hex db.workflow_instances) "workflow not found")
  require (workflow_allows_submit_multisig_proof_bundle_state wf.state)
      "workflow state does not allow submit_multisig proof bundle"
  arbiter ← lift (
      ok_or (get_quorum_sign_proof_tx escrow_id_hex "arbiter" "arbiter_first" txset_hash_hex db)
        "missing quorum proof: arbiter_first")
  seller ← lift (
      ok_or (get_quorum_sign_proof_tx escrow_id_hex "seller" "seller_second" txset_hash_hex db)
        "missing quorum proof: seller_second")
  require (not (str_eq arbiter.jti seller.jti))
      "invalid quorum proof bundle: proof_arbiter_jti and proof_seller_jti must differ"
  require (not (str_eq arbiter.req_id seller.req_id))
      "invalid quorum proof bundle: proof_arbiter_req_id and proof_seller_req_id must differ"
  pure (record {
    escrow_id_hex = escrow_id_hex;
    txset_hash_hex = txset_hash_hex;
    proof_arbiter_jti = arbiter.jti;
    proof_arbiter_req_id = arbiter.req_id;
    proof_seller_jti = seller.jti;
    proof_seller_req_id = seller.req_id;
    arbiter_proof_updated_at_ms = arbiter.updated_at_ms;
    seller_proof_updated_at_ms = seller.updated_at_ms;
    generated_at_ms = now;
  })
