-- ===== src/Orchestrator/Db/Proofs/Pair.antt =====
-- The arbiter's and the seller's proof, once stored, make the bundle of a submission.
use nexum_core.Common.{
  ℕ, String, str_eq, ◌≡◌, refl, ◌∙◌, true, false, Option, none, some, arith, eq_iff, List, [], ◌∷◌,
  Bool-cases, inl, inr,
}
use nexum_core.Common.Rows.{
  find_row, find_row-upsert_same, find_row-upsert_other, updated, any_row, any_row-append,
  update_rows, upsert_row,
}
use nexum_core.Common.Text.{trim, to_ascii_lowercase}
use nexum_core.Common.Outcome.{ok}
use nexum_core.Orchestrator.Db.{
  OrchestratorDb, WorkflowInstance, QuorumSignProof, as_i64, normalize_hex_exact,
}
use nexum_core.Orchestrator.Db.Inputs.{
  normalize_worker_role, round_of_role, normalize_quorum_sign_round_for_role, normalize_jti,
  workflow_allows_quorum_proof_state,
}
use nexum_core.Orchestrator.Db.Workflows.{find_workflow}
use nexum_core.Orchestrator.Db.Proofs.{
  proof_of, same_proof, takes_request, requested_elsewhere, set_proof, write_proof,
  upsert_quorum_sign_proof_sync, get_quorum_sign_proof_tx, get_submit_multisig_proof_bundle_sync,
}
use nexum_core.Orchestrator.Db.Proofs.Bundle.{row, upsert-row}

-- The part of a stored proof that a bundle takes.
pub record Carries (jti req_id : String) (at : ℕ) (p : QuorumSignProof) : Type 0 where
  pub jti_is : p.jti ≡ jti
  pub req_id_is : p.req_id ≡ req_id
  pub time_is : p.updated_at_ms ≡ at

updated-Carries :
    (new : QuorumSignProof) (old : Option QuorumSignProof)
    → Carries new.jti new.req_id new.updated_at_ms (updated (set_proof new) new old)
updated-Carries new none = record { jti_is = refl; req_id_is = refl; time_is = refl }
updated-Carries new (some p) = record { jti_is = refl; req_id_is = refl; time_is = refl }

get_proof-write :
    (new : QuorumSignProof) (db : OrchestratorDb)
    → (p : QuorumSignProof) × (get_quorum_sign_proof_tx new.escrow_id_hex new.role new.sign_round
          new.txset_hash_hex
          (write_proof new db)
        ≡ some p)
      × Carries new.jti new.req_id new.updated_at_ms p
unfolding get_quorum_sign_proof_tx write_proof
get_proof-write new db =
    let key = proof_of new.escrow_id_hex new.role new.sign_round new.txset_hash_hex in
    (
      updated (set_proof new) new (find_row key db.quorum_sign_proofs),
      find_row-upsert_same key (set_proof new) new db.quorum_sign_proofs (λ r. refl)
          (ground (
            arith,
            eq_iff new.escrow_id_hex new.escrow_id_hex,
            eq_iff new.role new.role,
            eq_iff new.sign_round new.sign_round,
            eq_iff new.txset_hash_hex new.txset_hash_hex,
          )),
      updated-Carries new (find_row key db.quorum_sign_proofs),
    )

-- A proof of another role leaves what is found.
get_proof-write_other :
    (new : QuorumSignProof) (db : OrchestratorDb) (id role sign_round txset : String)
    → str_eq new.role role ≡ false
    → get_quorum_sign_proof_tx id role sign_round txset (write_proof new db)
      ≡ get_quorum_sign_proof_tx id role sign_round txset db
unfolding get_quorum_sign_proof_tx write_proof
get_proof-write_other new db id role sign_round txset other =
    find_row-upsert_other (proof_of id role sign_round txset)
      (proof_of new.escrow_id_hex new.role new.sign_round new.txset_hash_hex) (set_proof new) new
      db.quorum_sign_proofs (λ r. refl)
      (λ r h. ground (arith, eq_iff r.role new.role, eq_iff r.role role, eq_iff new.role role))
      (ground arith)

update-free :
    (first second : QuorumSignProof) (rows : List QuorumSignProof)
    → str_eq first.req_id second.req_id ≡ false
    → any_row (takes_request second) rows ≡ false
    → any_row (takes_request second) (update_rows (same_proof first) (set_proof first) rows) ≡ false
unfolding any_row update_rows
update-free first second [] differ free = refl
update-free first second (p ∷ rows) differ free = elim (Bool-cases (same_proof first p)) [
  | inl k ↦ rw k (ground (arith, update-free first second rows))
  | inr k ↦ rw k (ground (arith, update-free first second rows))
]

-- A stored proof has no request but its own.
write_proof-free :
    (first second : QuorumSignProof) (db : OrchestratorDb)
    → str_eq first.req_id second.req_id ≡ false
    → any_row (takes_request second) db.quorum_sign_proofs ≡ false
    → any_row (takes_request second) (write_proof first db).quorum_sign_proofs ≡ false
unfolding write_proof upsert_row
write_proof-free first second db differ free =
    let rows = db.quorum_sign_proofs in
    elim (Bool-cases (any_row (same_proof first) rows)) [
      | inl k ↦ rw k (update-free first second rows differ free)
      | inr k ↦ rw k (ground (arith, any_row-append (takes_request second) rows first))
    ]

-- What a bundle is made of.
bundle_lem :
    (now u v : ℕ) (escrow txset id t j q j' q' : String) (db : OrchestratorDb)
    (wf : WorkflowInstance) (a s : QuorumSignProof)
    → normalize_hex_exact escrow 32 "escrow_id_hex must be 32 hex chars" ≡ ok id
    → normalize_hex_exact txset 64 "txset_hash_hex must be 64 hex chars" ≡ ok t
    → find_workflow id db.workflow_instances ≡ some wf
    → workflow_allows_quorum_proof_state wf.state ≡ true
    → get_quorum_sign_proof_tx id "arbiter" "arbiter_first" t db ≡ some a
    → get_quorum_sign_proof_tx id "seller" "seller_second" t db ≡ some s
    → Carries j q u a
    → Carries j' q' v s
    → str_eq j j' ≡ false
    → str_eq q q' ≡ false
    → get_submit_multisig_proof_bundle_sync now escrow txset db ≡ (
      ok (record {
        escrow_id_hex = id;
        txset_hash_hex = t;
        proof_arbiter_jti = j;
        proof_arbiter_req_id = q;
        proof_seller_jti = j';
        proof_seller_req_id = q';
        arbiter_proof_updated_at_ms = u;
        seller_proof_updated_at_ms = v;
        generated_at_ms = now;
      }),
      db,
    )
unfolding get_submit_multisig_proof_bundle_sync
bundle_lem now u v escrow txset id t j q j' q' db wf a s n m g k pa ps ca cs dj dq =
    rw (n, m, g, k, pa, ps)
      (rw (ca.jti_is, ca.req_id_is, ca.time_is, cs.jti_is, cs.req_id_is, cs.time_is) (rw (dj, dq)))

module _ (escrow txset jti req_id jti' req_id' : String) {id t j q j' q' : String}
    (n : normalize_hex_exact escrow 32 "escrow_id_hex must be 32 hex chars" ≡ ok id)
    (m : normalize_hex_exact txset 64 "txset_hash_hex must be 64 hex chars" ≡ ok t)
    (e : normalize_jti jti "jti must not be empty" ≡ ok j)
    (f : normalize_hex_exact req_id 64 "req_id must be 64 hex chars" ≡ ok q)
    (e' : normalize_jti jti' "jti must not be empty" ≡ ok j')
    (f' : normalize_hex_exact req_id' 64 "req_id must be 64 hex chars" ≡ ok q')
    (db : OrchestratorDb) (wf : WorkflowInstance)
    (g : find_workflow id db.workflow_instances ≡ some wf)
    (k : workflow_allows_quorum_proof_state wf.state ≡ true) where
  -- In a workflow whose state allows it, storing the arbiter's and then the seller's proof of a
  -- transaction set makes the bundle of the set: the two tokens, the two requests and their times,
  -- in normal form, whatever was stored before under the two keys; the tokens and the requests have to
  -- differ, and no other row may have one of the two requests.
  pub bundle-upsert :
      (now now' later : ℕ)
      → str_eq j j' ≡ false
      → str_eq q q' ≡ false
      → any_row
          (requested_elsewhere q (proof_of id "arbiter" "arbiter_first" t))
          db.quorum_sign_proofs
        ≡ false
      → any_row
          (requested_elsewhere q' (proof_of id "seller" "seller_second" t))
          db.quorum_sign_proofs
        ≡ false
      → let db1 =
          (upsert_quorum_sign_proof_sync now escrow "arbiter" "arbiter_first" txset jti req_id
            db).1 in
        let db2 =
          (upsert_quorum_sign_proof_sync now' escrow "seller" "seller_second" txset jti' req_id'
            db1).1 in
        get_submit_multisig_proof_bundle_sync later escrow txset db2 ≡ (
          ok (record {
            escrow_id_hex = id;
            txset_hash_hex = t;
            proof_arbiter_jti = j;
            proof_arbiter_req_id = q;
            proof_seller_jti = j';
            proof_seller_req_id = q';
            arbiter_proof_updated_at_ms = as_i64 now;
            seller_proof_updated_at_ms = as_i64 now';
            generated_at_ms = later;
          }),
          db2,
        )
  unfolding write_proof normalize_worker_role normalize_quorum_sign_round_for_role round_of_role
      to_ascii_lowercase trim
  bundle-upsert now now' later differ differ' free free' =
      let first = row now escrow "arbiter" "arbiter_first" txset jti req_id n refl refl m e f in
      let second =
        row now' escrow "seller" "seller_second" txset jti' req_id' n refl refl m e' f' in
      let db1 = write_proof first db in
      let (a, found, ca) = get_proof-write first db in
      let (s, found', cs) = get_proof-write second db1 in
      let kept = get_proof-write_other second db1 id "arbiter" "arbiter_first" t refl ∙ found in
      rw
        (upsert-row now escrow "arbiter" "arbiter_first" txset jti req_id n refl refl m e f db wf g
          k free)
        (rw
          (upsert-row now' escrow "seller" "seller_second" txset jti' req_id' n refl refl m e' f'
            db1 wf g k (write_proof-free first second db differ' free'))
          (bundle_lem later (as_i64 now) (as_i64 now') escrow txset id t j q j' q'
            (write_proof second db1) wf a s n m g k kept found' ca cs differ differ'))
