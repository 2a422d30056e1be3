-- ===== src/Orchestrator/Db/Proofs/Sound.antt =====
-- What a bundle is taken from.
use nexum_core.Common.{ℕ, String, str_eq, ◌≡◌, sym, ap, ◌∙◌, false, not, some, arith}
use nexum_core.Common.Outcome.{ok, ok_or, ok_inj, ok_or-eq-ok}
use nexum_core.Common.Method.{lift-eq-ok, require-eq-ok}
use nexum_core.Orchestrator.Db.{OrchestratorDb, QuorumSignProof, normalize_hex_exact}
use nexum_core.Orchestrator.Db.Inputs.{workflow_allows_submit_multisig_proof_bundle_state}
use nexum_core.Orchestrator.Db.Workflows.{find_workflow}
use nexum_core.Orchestrator.Db.Proofs.{
  get_quorum_sign_proof_tx, get_submit_multisig_proof_bundle_sync, SubmitMultisigProofBundle,
}

-- The two stored proofs that a bundle of the normalized escrow and transaction set holds.
pub record Bundled (id t : String) (db : OrchestratorDb) (b : SubmitMultisigProofBundle)
    : Type 0 where
  pub arbiter : QuorumSignProof
  pub seller : QuorumSignProof
  pub arbiter_stored : get_quorum_sign_proof_tx id "arbiter" "arbiter_first" t db ≡ some arbiter
  pub seller_stored : get_quorum_sign_proof_tx id "seller" "seller_second" t db ≡ some seller
  pub escrow_is : b.escrow_id_hex ≡ id
  pub txset_is : b.txset_hash_hex ≡ t
  pub arbiter_jti : b.proof_arbiter_jti ≡ arbiter.jti
  pub arbiter_req_id : b.proof_arbiter_req_id ≡ arbiter.req_id
  pub seller_jti : b.proof_seller_jti ≡ seller.jti
  pub seller_req_id : b.proof_seller_req_id ≡ seller.req_id
  pub jti_differ : str_eq arbiter.jti seller.jti ≡ false
  pub req_id_differ : str_eq arbiter.req_id seller.req_id ≡ false

pub bundle-Bundled :
    (now : ℕ) (escrow txset id t : String) (db db' : OrchestratorDb) (b : SubmitMultisigProofBundle)
    → normalize_hex_exact escrow 32 "escrow_id_hex must be 32 hex chars" ≡ ok id
    → normalize_hex_exact txset 64 "txset_hash_hex must be 64 hex chars" ≡ ok t
    → get_submit_multisig_proof_bundle_sync now escrow txset db ≡ (ok b, db')
    → Bundled id t db b
unfolding get_submit_multisig_proof_bundle_sync
bundle-Bundled now escrow txset id t db db' b n m h0 =
    let (id', n', h1) = lift-eq-ok (normalize_hex_exact escrow 32 _) _ db db' h0 in
    let (t', m', h2) = lift-eq-ok (normalize_hex_exact txset 64 _) _ db db' h1 in
    let (wf, g, h3) = lift-eq-ok (ok_or (find_workflow id' db.workflow_instances) _) _ db db' h2 in
    let (k, h4) =
      require-eq-ok (workflow_allows_submit_multisig_proof_bundle_state wf.state) _ _ db db' h3 in
    let (a, pa, h5) =
      lift-eq-ok (ok_or (get_quorum_sign_proof_tx id' "arbiter" "arbiter_first" t' db) _) _ db db'
        h4 in
    let (s, ps, h6) =
      lift-eq-ok (ok_or (get_quorum_sign_proof_tx id' "seller" "seller_second" t' db) _) _ db db'
        h5 in
    let (j, h7) = require-eq-ok (not (str_eq a.jti s.jti)) _ _ db db' h6 in
    let (q, h8) = require-eq-ok (not (str_eq a.req_id s.req_id)) _ _ db db' h7 in
    let same : id' ≡ id = ok_inj (sym n' ∙ n) in
    let same' : t' ≡ t = ok_inj (sym m' ∙ m) in
    let made = ok_inj (ap (λ x. x.0) h8) in
    record {
      arbiter = a;
      seller = s;
      arbiter_stored = rw (← same) (rw (← same') (ok_or-eq-ok _ _ a pa));
      seller_stored = rw (← same) (rw (← same') (ok_or-eq-ok _ _ s ps));
      escrow_is = ap (λ (x : SubmitMultisigProofBundle). x.escrow_id_hex) (sym made) ∙ same;
      txset_is = ap (λ (x : SubmitMultisigProofBundle). x.txset_hash_hex) (sym made) ∙ same';
      arbiter_jti = ap (λ (x : SubmitMultisigProofBundle). x.proof_arbiter_jti) (sym made);
      arbiter_req_id = ap (λ (x : SubmitMultisigProofBundle). x.proof_arbiter_req_id) (sym made);
      seller_jti = ap (λ (x : SubmitMultisigProofBundle). x.proof_seller_jti) (sym made);
      seller_req_id = ap (λ (x : SubmitMultisigProofBundle). x.proof_seller_req_id) (sym made);
      jti_differ = ground arith;
      req_id_differ = ground arith;
    }
