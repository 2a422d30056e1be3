-- ===== src/Orchestrator/Token/Accepted/Submit.antt =====
-- The token of a submission, from the stored proofs to its verification.
use nexum_core.Common.{
  ℕ, ltb, String, str_eq, ◌≡◌, subst, sym, ap, ◌∙◌, true, false, ◌||◌, not, some, arith, eq_iff,
}
use nexum_core.Common.Rows.{find_row, EveryRow-find_row}
use nexum_core.Common.Table.{Table}
use nexum_core.Common.Text.{trim, len, present}
use nexum_core.Common.Text.Hex.{IsHex}
use nexum_core.Common.Outcome.{Result, ok, ensure-eq-ok, ok_inj}
use nexum_core.Orchestrator.Db.{
  OrchestratorDb, WorkflowInstance, QuorumSignProof, normalize_hex_exact,
}
use nexum_core.Orchestrator.Db as Db
use nexum_core.Orchestrator.Db.Inputs.{IsHex-normalize, normalize_jti}
use nexum_core.Orchestrator.Db.Workflows.{find_workflow}
use nexum_core.Orchestrator.Db.Proofs.{
  proof_of, get_quorum_sign_proof_tx, SubmitMultisigProofBundle,
}
use nexum_core.Orchestrator.Db.Proofs.Bundle.{IsProof, HasProofs}
use nexum_core.Orchestrator.Db.Proofs.Sound.{Bundled}
use nexum_core.Orchestrator.Token.{
  submit_multisig, IssueActionTokenParams, ActionTokenClaims, IssuedActionTokenOutput, base_claims,
  op_claim_value, normalize_non_empty, apply_submit_proof_bundle, with_proofs,
}
use nexum_core.Orchestrator.Token.Issue.{new_jti, issue_action_token}
use nexum_core.Orchestrator.Token.Params.{IsIssuable, IsText}
use nexum_core.Orchestrator.Token.Claims.{issue-Issued, Completed}
use nexum_core.Orchestrator.Token.Accepted.{
  as_action_claims, round_of, Agrees, InTime, IsTokenId, IsHex-normalize_64,
}
use nexum_core.Orchestrator.Token.Accepted.Trust.{present_hex}
use nexum_core.Orchestrator.Token.Accepted.Verify.{verified, verify_issued_lem}
use nexum_core.Signer.VerifyLimiter.{VerifyRateLimits, VerifyRateEntry, check}
use nexum_core.Signer.Token.{
  ActionClaims, ActionTokenVerifier, verify_claims, check_proofs, sign_req_id,
}
use nexum_core.Signer.Token.Verify.{verify_common, verify_submit_multisig}

-- A token identifier as the table of proofs holds it.
jti-IsText : (jti label : String) → normalize_jti jti label ≡ ok jti → IsText 256 jti
unfolding normalize_jti Db.normalize_non_empty
jti-IsText jti label h =
    let same : trim jti ≡ jti = ground arith in
    record {
      trimmed = same;
      inked = rw (← same) (ground arith);
      bounded = rw (← same) (ground arith);
    }

text_normal : (s label : String) → IsText 256 s → normalize_non_empty s label 256 ≡ ok s
unfolding normalize_non_empty
text_normal s label t = rw t.trimmed (rw t.inked (ground (arith, t.bounded)))

present_text : (s : String) → IsText 256 s → present (some s) ≡ some s
unfolding present
present_text s t = rw t.trimmed (rw t.inked)

short_pair :
    (a b : String) → IsText 256 a → IsText 256 b → not (ltb 256 (len a) || ltb 256 (len b)) ≡ true
short_pair a b t u = ground (arith, t.bounded, u.bounded)

found_row :
    (id role round txset : String) (db : OrchestratorDb) {p : QuorumSignProof}
    → get_quorum_sign_proof_tx id role round txset db ≡ some p
    → find_row (proof_of id role round txset) db.quorum_sign_proofs ≡ some p
unfolding get_quorum_sign_proof_tx
found_row id role round txset db h = h

-- The bundle's part of the claims is what is stored.
apply-Bundled :
    (base claims : ActionTokenClaims) (id t : String) (db : OrchestratorDb)
    (b : SubmitMultisigProofBundle)
    → HasProofs db
    → (bundled : Bundled id t db b) → apply_submit_proof_bundle base b ≡ ok claims
    → with_proofs base bundled.arbiter.jti bundled.seller.jti bundled.arbiter.req_id
        bundled.seller.req_id
      ≡ claims
unfolding apply_submit_proof_bundle
apply-Bundled base claims id t db b has bundled h0 =
    let a =
      EveryRow-find_row IsProof _ _ bundled.arbiter has
        (found_row _ _ _ _ db bundled.arbiter_stored) in
    let s =
      EveryRow-find_row IsProof _ _ bundled.seller has
        (found_row _ _ _ _ db bundled.seller_stored) in
    let (escrow, h1) = ensure-eq-ok (str_eq base.escrow_id b.escrow_id_hex) _ _ h0 in
    let (txset, h2) = ensure-eq-ok (str_eq base.txset_hash b.txset_hash_hex) _ _ h1 in
    let full : apply_submit_proof_bundle base b
        ≡ ok (
            with_proofs base bundled.arbiter.jti bundled.seller.jti bundled.arbiter.req_id
              bundled.seller.req_id) =
      rw
        (
          escrow, txset, bundled.arbiter_jti, bundled.seller_jti, bundled.arbiter_req_id,
          bundled.seller_req_id,
        )
        (rw (
          text_normal bundled.arbiter.jti _ (jti-IsText _ _ a.token),
          text_normal bundled.seller.jti _ (jti-IsText _ _ s.token),
          IsHex-normalize 64 _ bundled.arbiter.req_id a.request,
          IsHex-normalize 64 _ bundled.seller.req_id s.request,
        )) in
    ok_inj (sym full ∙ h0)

module _ (sha256_hex : String → String) where
  -- Two stored proofs of the requests that the signers made pass the signer's check.
  check_proofs-pass :
      (escrow txset : String) (a s : QuorumSignProof) (claims : ActionClaims)
      → IsProof a
      → IsProof s
      → IsHex 64 txset
      → str_eq a.jti s.jti ≡ false
      → str_eq a.req_id s.req_id ≡ false
      → a.req_id ≡ sign_req_id sha256_hex escrow "sign_multisig" "arbiter_first" txset
      → s.req_id ≡ sign_req_id sha256_hex escrow "sign_multisig" "seller_second" txset
      → claims.proof_arbiter_jti ≡ some a.jti
      → claims.proof_seller_jti ≡ some s.jti
      → claims.proof_arbiter_req_id ≡ some a.req_id
      → claims.proof_seller_req_id ≡ some s.req_id
      → check_proofs sha256_hex escrow txset claims ≡ ok tt
  unfolding check_proofs
  check_proofs-pass escrow txset a s claims pa ps t dj dq ra rs aj sj aq sq =
      let ta = jti-IsText _ _ pa.token in
      let ts = jti-IsText _ _ ps.token in
      rw (aj, sj, aq, sq)
        (rw
          (
            present_text a.jti ta,
            present_text s.jti ts,
            present_hex a.req_id pa.request,
            present_hex s.req_id ps.request,
          )
          (rw (dj, dq, short_pair a.jti s.jti ta ts)
            (rw
              (
                IsHex-normalize_64 a.req_id _ pa.request,
                IsHex-normalize_64 s.req_id _ ps.request,
                IsHex-normalize_64 txset _ t,
              )
              (ground (
                arith,
                ra,
                rs,
                eq_iff a.req_id
                    (sign_req_id sha256_hex escrow "sign_multisig" "arbiter_first" txset),
                eq_iff s.req_id
                    (sign_req_id sha256_hex escrow "sign_multisig" "seller_second" txset),
              )))))

module _ (sha256_hex : String → String)
    (decode : ActionTokenVerifier → ℕ → String → Result String ActionClaims)
    (verifier : ActionTokenVerifier) (limits : VerifyRateLimits) (to_text : ℕ → String)
    (encode : ActionTokenClaims → Result String String) (params : IssueActionTokenParams)
    (issuable : IsIssuable params) (agrees : Agrees params verifier)
    (now jti_now clock signer_now : ℕ) (random : String)
    (time : InTime params verifier now signer_now)
    (id : IsTokenId (new_jti to_text jti_now random params.role params.op))
    (db db' : OrchestratorDb) (out : IssuedActionTokenOutput)
    (issued : issue_action_token to_text encode now jti_now clock random params db ≡ (ok out, db'))
    (wf : WorkflowInstance)
    (found : find_workflow params.escrow_id_hex db.workflow_instances ≡ some wf)
    (decoded : decode verifier signer_now out.token ≡ ok (as_action_claims out.claims))
    (table table' : Table VerifyRateEntry)
    (admitted : check limits (sha256_hex out.token) signer_now table ≡ (ok tt, table')) where
  -- A token that the orchestrator issues for a submission, with parameters in normal form and a table of
  -- proofs that is normalized, is taken by a signer with the same configuration, under the conditions
  -- of a signature's token, if the stored proofs of the arbiter and of the seller name the requests
  -- that the signers made for the escrow and the transaction set.
  pub issued_submit_token_accepted :
      params.op ≡ submit_multisig
      → HasProofs db
      → ((p : QuorumSignProof)
          → get_quorum_sign_proof_tx params.escrow_id_hex "arbiter" "arbiter_first"
              params.txset_hash_hex db
            ≡ some p
          → p.req_id
            ≡ sign_req_id sha256_hex params.escrow_id_hex "sign_multisig" "arbiter_first"
                params.txset_hash_hex)
      → ((p : QuorumSignProof)
          → get_quorum_sign_proof_tx params.escrow_id_hex "seller" "seller_second"
              params.txset_hash_hex db
            ≡ some p
          → p.req_id
            ≡ sign_req_id sha256_hex params.escrow_id_hex "sign_multisig" "seller_second"
                params.txset_hash_hex)
      → verify_submit_multisig sha256_hex decode verifier limits signer_now out.token
          params.escrow_id_hex params.txset_hash_hex wf.snapshot_hash_hex table
        ≡ (ok (verified sha256_hex params out.claims), table')
  unfolding verify_submit_multisig verify_common
  issued_submit_token_accepted op has arbiter_made seller_made =
      let i =
        issue-Issued params issuable to_text encode now jti_now clock random db db' out issued in
      let base =
        base_claims now (new_jti to_text jti_now random params.role params.op) params i.snapshot
          i.admission in
      let (b, bundled, applied) =
        subst (λ o. Completed params db o base out.claims) op i.completed in
      let a = bundled.arbiter in
      let s = bundled.seller in
      let built =
        apply-Bundled base out.claims params.escrow_id_hex params.txset_hash_hex db b has bundled
          applied in
      let passed =
        verify_issued_lem sha256_hex params verifier issuable agrees to_text now jti_now signer_now
          random db out.claims wf i (some a.jti) (some s.jti) (some a.req_id) (some s.req_id) time
          id built found in
      let at_op =
        subst
          (λ o.
            verify_claims sha256_hex verifier signer_now (op_claim_value o)
              (round_of o verifier.signer_role) params.escrow_id_hex params.txset_hash_hex
              wf.snapshot_hash_hex (as_action_claims out.claims)
            ≡ ok (verified sha256_hex params out.claims))
          op passed in
      let proofs =
        check_proofs-pass sha256_hex params.escrow_id_hex params.txset_hash_hex a s
          (as_action_claims out.claims)
          (EveryRow-find_row IsProof _ _ a has (found_row _ _ _ _ db bundled.arbiter_stored))
          (EveryRow-find_row IsProof _ _ s has (found_row _ _ _ _ db bundled.seller_stored))
          issuable.txset bundled.jti_differ bundled.req_id_differ
          (arbiter_made a bundled.arbiter_stored) (seller_made s bundled.seller_stored)
          (ap (λ (c : ActionTokenClaims). c.proof_arbiter_jti) (sym built))
          (ap (λ (c : ActionTokenClaims). c.proof_seller_jti) (sym built))
          (ap (λ (c : ActionTokenClaims). c.proof_arbiter_req_id) (sym built))
          (ap (λ (c : ActionTokenClaims). c.proof_seller_req_id) (sym built)) in
      rw admitted (rw decoded (rw at_op (rw proofs)))
