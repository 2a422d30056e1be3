-- ===== src/Orchestrator/Db/Proofs/Bundle.antt =====
-- The table of proofs stays well formed, and a bundle holds the two proofs that were stored.
use nexum_core.Common.{
  ℕ, ◌≤◌, String, ◌≡◌, true, false, some, inl, inr, arith, eq_iff, Option-cases, Bool-cases,
}
use nexum_core.Common.Rows.{EveryRow, EveryRow-upsert, any_row, count_rows}
use nexum_core.Common.Text.{trim, to_ascii_lowercase}
use nexum_core.Common.Text.Hex.{IsHex}
use nexum_core.Common.Outcome.{ok, Result-cases}
use nexum_core.Orchestrator.Db.{
  OrchestratorDb, WorkflowInstance, QuorumSignProof, as_i64, normalize_hex_exact,
}
use nexum_core.Orchestrator.Db.Inputs.{
  normalize_worker_role, round_of_role, normalize_quorum_sign_round_for_role, normalize_jti,
  normalize_jti_idem, normalize_hex-IsHex, workflow_allows_quorum_proof_state,
}
use nexum_core.Orchestrator.Db.Workflows.{find_workflow}
use nexum_core.Orchestrator.Db.Proofs.Unique.{has_request, keyed-upsert, single-upsert}
use nexum_core.Orchestrator.Db.Proofs.{
  same_proof, takes_request, set_proof, write_proof, store_proof, upsert_quorum_sign_proof_sync,
}

-- What every stored proof is: normalized, and in the round of its role.
pub record IsProof (p : QuorumSignProof) : Type 0 where
  pub escrow : IsHex 32 p.escrow_id_hex
  pub round : round_of_role p.role ≡ ok p.sign_round
  pub txset : IsHex 64 p.txset_hash_hex
  pub token : normalize_jti p.jti "jti must not be empty" ≡ ok p.jti
  pub request : IsHex 64 p.req_id

set_proof-IsProof :
    (new : QuorumSignProof)
    → IsProof new
    → (p : QuorumSignProof) → IsProof p
    → IsProof (set_proof new p)
set_proof-IsProof new n p h = record {
  escrow = h.escrow;
  round = h.round;
  txset = h.txset;
  token = n.token;
  request = n.request;
}

write_proof-IsProof :
    (new : QuorumSignProof) (db : OrchestratorDb)
    → IsProof new
    → EveryRow IsProof db.quorum_sign_proofs
    → EveryRow IsProof (write_proof new db).quorum_sign_proofs
unfolding write_proof
write_proof-IsProof new db n h =
    EveryRow-upsert IsProof _ (set_proof new) new db.quorum_sign_proofs (set_proof-IsProof new n) n
      h

abbrev pub HasProofs : OrchestratorDb → Type 0
HasProofs db = EveryRow IsProof db.quorum_sign_proofs

-- The table's rows, and its two uniqueness constraints.
pub record IsTable (db : OrchestratorDb) : Type 0 where
  pub proofs : HasProofs db
  pub keyed : (new : QuorumSignProof) → count_rows (same_proof new) db.quorum_sign_proofs ≤ 1
  pub single : (q : String) → count_rows (has_request q) db.quorum_sign_proofs ≤ 1

store_proof-IsTable :
    (new : QuorumSignProof) (db : OrchestratorDb)
    → IsProof new
    → IsTable db
    → IsTable (store_proof new db).1
unfolding store_proof write_proof
store_proof-IsTable new db n h =
    let rows = db.quorum_sign_proofs in
    elim (Bool-cases (any_row (takes_request new) rows)) [
      | inl taken ↦ rw taken h
      | inr free ↦ rw free (record {
        proofs = write_proof-IsProof new db n h.proofs;
        keyed = λ other. keyed-upsert new other rows (h.keyed other);
        single = λ q. single-upsert new q rows free (h.keyed new) (h.single q);
      })
    ]

normalize_round-round_of_role :
    (role raw sign_round : String)
    → normalize_quorum_sign_round_for_role role raw ≡ ok sign_round
    → round_of_role role ≡ ok sign_round
unfolding normalize_quorum_sign_round_for_role
normalize_round-round_of_role role raw sign_round h = elim (Result-cases (round_of_role role)) [
  | inr (e, f) ↦ ground arith
  | inl (expected, f) ↦ ground (arith, eq_iff (to_ascii_lowercase (trim raw)) expected)
]

-- The row that `upsert_quorum_sign_proof` makes of its arguments.
module _ (now : ℕ) (escrow role round txset jti req_id : String) {id r sr t j q : String}
    (a : normalize_hex_exact escrow 32 "escrow_id_hex must be 32 hex chars" ≡ ok id)
    (b : normalize_worker_role role ≡ ok r)
    (c : normalize_quorum_sign_round_for_role r round ≡ ok sr)
    (d : normalize_hex_exact txset 64 "txset_hash_hex must be 64 hex chars" ≡ ok t)
    (e : normalize_jti jti "jti must not be empty" ≡ ok j)
    (f : normalize_hex_exact req_id 64 "req_id must be 64 hex chars" ≡ ok q) where
  abbrev pub row : QuorumSignProof
  row = record {
    escrow_id_hex = id;
    role = r;
    sign_round = sr;
    txset_hash_hex = t;
    jti = j;
    req_id = q;
    updated_at_ms = as_i64 now;
  }

  row-IsProof : IsProof row
  row-IsProof = record {
    escrow = normalize_hex-IsHex escrow 32 _ id a;
    round = normalize_round-round_of_role r round sr c;
    txset = normalize_hex-IsHex txset 64 _ t d;
    token = normalize_jti_idem jti _ j e;
    request = normalize_hex-IsHex req_id 64 _ q f;
  }

  upsert-row-IsProof :
      (db : OrchestratorDb)
      → IsTable db
      → IsTable (upsert_quorum_sign_proof_sync now escrow role round txset jti req_id db).1
  unfolding upsert_quorum_sign_proof_sync
  upsert-row-IsProof db h =
      rw (a, b, c, d, e, f)
        (elim (Option-cases (find_workflow id db.workflow_instances)) [
          | inl g ↦ rw g h
          | inr (wf, g) ↦ elim (Bool-cases (workflow_allows_quorum_proof_state wf.state)) [
            | inr k ↦ rw (g, k) h
            | inl k ↦ rw (g, k) (store_proof-IsTable row db row-IsProof h)
          ]
        ])

  -- In a workflow that allows it, the row is stored if no other has its request.
  pub upsert-row :
      (db : OrchestratorDb) (wf : WorkflowInstance)
      → find_workflow id db.workflow_instances ≡ some wf
      → workflow_allows_quorum_proof_state wf.state ≡ true
      → any_row (takes_request row) db.quorum_sign_proofs ≡ false
      → upsert_quorum_sign_proof_sync now escrow role round txset jti req_id db
        ≡ (ok tt, write_proof row db)
  unfolding upsert_quorum_sign_proof_sync store_proof
  upsert-row db wf g k free = rw (a, b, c, d, e, f, g, k, free)

-- Storing a proof, accepted or refused, at any time, keeps every row of the table normalized and in
-- the round of its role, and no two rows with one key or with one request.
pub upsert_keeps_proofs :
    (now : ℕ) (escrow role round txset jti req_id : String) (db : OrchestratorDb)
    → IsTable db
    → IsTable (upsert_quorum_sign_proof_sync now escrow role round txset jti req_id db).1
unfolding upsert_quorum_sign_proof_sync
upsert_keeps_proofs now escrow role round txset jti req_id db h =
    elim (Result-cases (normalize_hex_exact escrow 32 "escrow_id_hex must be 32 hex chars")) [
      | inr (_, a) ↦ rw a h
      | inl (id, a) ↦ elim (Result-cases (normalize_worker_role role)) [
        | inr (_, b) ↦ rw (a, b) h
        | inl (r, b) ↦ elim (Result-cases (normalize_quorum_sign_round_for_role r round)) [
          | inr (_, c) ↦ rw (a, b, c) h
          | inl (sr, c) ↦
              elim (Result-cases
                (normalize_hex_exact txset 64 "txset_hash_hex must be 64 hex chars")) [
                  | inr (_, d) ↦ rw (a, b, c, d) h
                  | inl (t, d) ↦ elim (Result-cases (normalize_jti jti "jti must not be empty")) [
                    | inr (_, e) ↦ rw (a, b, c, d, e) h
                    | inl (j, e) ↦
                        elim (Result-cases
                          (normalize_hex_exact req_id 64 "req_id must be 64 hex chars")) [
                            | inr (_, f) ↦ rw (a, b, c, d, e, f) h
                            | inl (q, f) ↦
                                upsert-row-IsProof now escrow role round txset jti req_id a b c d e
                                  f db h
                          ]
                  ]
                ]
        ]
      ]
    ]
