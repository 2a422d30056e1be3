-- ===== src/Signer/Bridge.antt =====
-- crates/nxms-signer/src/orchestrator_bridge.rs: the seller's proof of a submission. The orchestrator is a
-- process; `answer` is what its output reads as.
use nexum_core.Common.{
  ℕ, String, str_eq, ◌≡◌, refl, sym, ap, ◌∙◌, ◌⊎◌, inl, inr, Bool, true, false, ◌&&◌, eq_iff, arith,
}
use nexum_core.Common.Outcome.{
  Result, ok, err, ensure, ◌>>=◌, ◌>>◌, >>=-eq-ok, ensure-eq-ok, ok_inj,
}
use nexum_core.Signer.Flow.{normalize_hex_exact}

pub record OrchestratorSubmitMultisigProofBundle : Type 0 where
  pub escrow_id_hex : String
  pub txset_hash_hex : String
  pub proof_arbiter_jti : String
  pub proof_arbiter_req_id : String
  pub proof_seller_jti : String
  pub proof_seller_req_id : String
  pub arbiter_proof_updated_at_ms : ℕ
  pub seller_proof_updated_at_ms : ℕ
  pub generated_at_ms : ℕ

abbrev pub Fetched : Type 0
Fetched = Result String OrchestratorSubmitMultisigProofBundle

abbrev pub resolve_submit_verify_mode : Bool → Bool → Result String Bool
resolve_submit_verify_mode production_hardening true = ok true
resolve_submit_verify_mode true false =
    err "production_hardening=true requires NXMS_SIGNER_ORCH_QUORUM_PROOF_VERIFY=true"
resolve_submit_verify_mode false false = ok false

unfoldable pub fetch_submit_multisig_proof_bundle : Fetched → String → String → Fetched
fetch_submit_multisig_proof_bundle answer escrow txset = do
  escrow_id_hex ← normalize_hex_exact escrow 32 "escrow_id_hex must be 32 hex chars"
  txset_hash_hex ← normalize_hex_exact txset 64 "txset_hash_hex must be 64 hex chars"
  bundle ← answer
  ensure (str_eq bundle.escrow_id_hex escrow_id_hex && str_eq bundle.txset_hash_hex txset_hash_hex)
      "orchestrator quorum-proof submit-bundle mismatch for escrow/hash"
  ok bundle

-- The comparison, unless the mode is off.
unfoldable pub verify_in_mode : Bool → Fetched → String → String → Result String (Unit {0})
verify_in_mode false fetched seller_jti seller_req_id = ok tt
verify_in_mode true fetched seller_jti seller_req_id = do
  bundle ← fetched
  ensure
      (str_eq bundle.proof_seller_jti seller_jti && str_eq bundle.proof_seller_req_id seller_req_id)
      "submit denied: orchestrator seller quorum proof mismatch (token vs orchestrator)"
  ok tt

unfoldable pub verify_submit_seller_quorum_proof :
    Fetched → String → String → String → String → Bool → Bool → Result String (Unit {0})
verify_submit_seller_quorum_proof answer escrow txset seller_jti seller_req_id production_hardening
      verify_env =
    do
      verify_enabled ← resolve_submit_verify_mode production_hardening verify_env
      verify_in_mode verify_enabled (fetch_submit_multisig_proof_bundle answer escrow txset)
          seller_jti seller_req_id

-- What the orchestrator answered for the escrow and the transaction set names the seller's token and
-- request.
pub record Confirms (answer : Fetched) (escrow txset seller_jti seller_req_id : String)
    : Type 0 where
  pub bundle : OrchestratorSubmitMultisigProofBundle
  pub answered : answer ≡ ok bundle
  pub escrow_is :
      normalize_hex_exact escrow 32 "escrow_id_hex must be 32 hex chars" ≡ ok bundle.escrow_id_hex
  pub txset_is :
      normalize_hex_exact txset 64 "txset_hash_hex must be 64 hex chars" ≡ ok bundle.txset_hash_hex
  pub jti_is : bundle.proof_seller_jti ≡ seller_jti
  pub req_id_is : bundle.proof_seller_req_id ≡ seller_req_id

fetch-Confirms :
    (answer : Fetched) (escrow txset seller_jti seller_req_id : String)
    → verify_in_mode true
        (fetch_submit_multisig_proof_bundle answer escrow txset)
        seller_jti
        seller_req_id
      ≡ ok tt
    → Confirms answer escrow txset seller_jti seller_req_id
unfolding verify_in_mode fetch_submit_multisig_proof_bundle
fetch-Confirms answer escrow txset seller_jti seller_req_id h =
    let (b, fetched, same) =
      >>=-eq-ok (fetch_submit_multisig_proof_bundle answer escrow txset) _ h in
    let (id, n, h1) =
      >>=-eq-ok (normalize_hex_exact escrow 32 "escrow_id_hex must be 32 hex chars") _ fetched in
    let (hash, m, h2) =
      >>=-eq-ok (normalize_hex_exact txset 64 "txset_hash_hex must be 64 hex chars") _ h1 in
    let (bundle, a, h3) = >>=-eq-ok answer _ h2 in
    let (ids, h4) =
      ensure-eq-ok (str_eq bundle.escrow_id_hex id && str_eq bundle.txset_hash_hex hash) _ _ h3 in
    let is_b : bundle ≡ b = ok_inj h4 in
    let (compared, _) =
      ensure-eq-ok
        (str_eq b.proof_seller_jti seller_jti && str_eq b.proof_seller_req_id seller_req_id) _ _
        same in
    record {
      bundle = bundle;
      answered = a;
      escrow_is = n ∙ ap ok (sym (ground (arith, eq_iff bundle.escrow_id_hex id)));
      txset_is = m ∙ ap ok (sym (ground (arith, eq_iff bundle.txset_hash_hex hash)));
      jti_is = rw is_b (ground (arith, eq_iff b.proof_seller_jti seller_jti));
      req_id_is = rw is_b (ground (arith, eq_iff b.proof_seller_req_id seller_req_id));
    }

-- The seller's proof is confirmed, unless the mode is off: without hardening and without the
-- environment's flag the orchestrator is not asked.
pub verify_seller-Confirms :
    (answer : Fetched) (escrow txset seller_jti seller_req_id : String)
    (production_hardening verify_env : Bool)
    → verify_submit_seller_quorum_proof answer escrow txset seller_jti seller_req_id
        production_hardening verify_env
      ≡ ok tt
    → ((production_hardening ≡ false) × (verify_env ≡ false))
      ⊎ Confirms answer escrow txset seller_jti seller_req_id
unfolding verify_submit_seller_quorum_proof
verify_seller-Confirms answer escrow txset seller_jti seller_req_id hardening true h =
    inr (fetch-Confirms answer escrow txset seller_jti seller_req_id h)
verify_seller-Confirms answer escrow txset seller_jti seller_req_id true false h = cc
verify_seller-Confirms answer escrow txset seller_jti seller_req_id false false h = inl (refl, refl)
