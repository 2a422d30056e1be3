-- ===== src/Signer/Flow/Approval.antt =====
-- What the wallet is asked for: a transfer that a snapshot with the signatures of a quorum permits.
use nexum_core.Common.{
  ℕ, ◌≤◌, String, ◌≡◌, refl, ◌⊎◌, inl, inr, none, some, List, [], ◌∷◌, arith, Option-cases,
}
use nexum_core.Common.Outcome.{ok, Result-cases}
use nexum_core.Common.Rows.{count_rows}
use nexum_core.Signer.Db.{Snapshot, SnapshotSigRow}
use nexum_core.Signer.Db.Snapshots.{active_snapshot, signs}
use nexum_core.Signer.Db.Snapshots.Live.{Backed}
use nexum_core.Signer.Snapshot.{ContractSnapshot, TransferCheck, policy_of}
use nexum_core.Signer.Snapshot.Conformance.{Conforms, validate_iff}
use nexum_core.Signer.Flow.{Operation, sign_multisig, submit_multisig, Agent, normalize_hex_exact}
use nexum_core.Signer.Flow.Admission.{
  AdmittedIf, stored-AdmittedIf, validate_stored_escrow_admission,
}
use nexum_core.Signer.Flow.Prepare.{Outside, Config, FlowRequest, Prepared, prepare}
use nexum_core.Signer.Flow.Sign.{sign_multisig_flow}
use nexum_core.Signer.Flow.Submit.{submit_multisig_flow}
use nexum_core.Signer.Flow.SingleUse.Serve.{perform}

-- The active snapshot is backed as all active rows are.
active-Backed :
    (quorum : ℕ) (escrow : String) (sigs : List SnapshotSigRow) (rows : List Snapshot)
    (row : Snapshot)
    → Backed quorum sigs rows
    → active_snapshot escrow rows ≡ some row
    → quorum ≤ count_rows (signs row.hash_hex) sigs
unfolding active_snapshot
active-Backed quorum escrow sigs [] row b h = ground arith
active-Backed quorum escrow sigs (r ∷ rows) row b h =
    elim (Option-cases (active_snapshot escrow rows)) [
      | inl n ↦ ground arith
      | inr (best, f) ↦ ground (arith, active-Backed quorum escrow sigs rows best)
    ]

module _ (outside : Outside) (config : Config) where
  -- The wallet's account of the transactions conforms to the active snapshot of the escrow.
  pub record Approved (quorum : ℕ) (agent : Agent) (request : FlowRequest) : Type 0 where
    pub escrow : String
    pub row : Snapshot
    pub snapshot : ContractSnapshot
    pub described : TransferCheck
    pub escrow_is :
        normalize_hex_exact request.escrow_id_hex 32 "escrow_id_hex must be 32 hex chars"
        ≡ ok escrow
    pub row_is : active_snapshot escrow agent.db.snapshots ≡ some row
    pub snapshot_is : outside.parse_snapshot row.snapshot_json ≡ ok snapshot
    pub described_is : request.described ≡ ok described
    pub conforms : Conforms snapshot (policy_of snapshot request.action) described
    pub snapshot_hash : String
    pub snapshot_hash_is : outside.policy_hash snapshot ≡ ok snapshot_hash
    pub admission :
        AdmittedIf outside.seal config.runtime_trust_bundle escrow snapshot_hash request.action
    pub backed : quorum ≤ count_rows (signs row.hash_hex) agent.db.snapshot_sigs

  prepare-Approved :
      (quorum : ℕ) (agent : Agent) (request : FlowRequest) (prepared : Prepared)
      → Backed quorum agent.db.snapshot_sigs agent.db.snapshots
      → prepare outside config request agent.db ≡ ok prepared
      → Approved quorum agent request
  unfolding prepare
  prepare-Approved quorum agent request prepared b h =
      elim (Result-cases
        (normalize_hex_exact request.escrow_id_hex 32 "escrow_id_hex must be 32 hex chars")) [
          | inr (e, f) ↦ ground arith
          | inl (escrow, f) ↦ elim (Option-cases (active_snapshot escrow agent.db.snapshots)) [
            | inl n ↦ ground arith
            | inr (row, g) ↦ elim (Result-cases (outside.parse_snapshot row.snapshot_json)) [
              | inr (e, k) ↦ ground arith
              | inl (snapshot, k) ↦ elim (Result-cases request.described) [
                | inr (e, l) ↦ ground arith
                | inl (described, l) ↦ elim (Result-cases (outside.policy_hash snapshot)) [
                  | inr (e, m) ↦ ground arith
                  | inl (snapshot_hash, m) ↦
                      elim (Result-cases (
                        validate_stored_escrow_admission outside.seal config.runtime_trust_bundle
                          agent.db escrow snapshot_hash request.action none)) [
                            | inr (e, o) ↦ ground arith
                            | inl (_, o) ↦ record {
                              escrow = escrow;
                              row = row;
                              snapshot = snapshot;
                              described = described;
                              escrow_is = f;
                              row_is = g;
                              snapshot_is = k;
                              described_is = l;
                              conforms =
                                  (validate_iff snapshot request.action described).0 (ground arith);
                              snapshot_hash = snapshot_hash;
                              snapshot_hash_is = m;
                              admission =
                                  stored-AdmittedIf outside.seal config.runtime_trust_bundle
                                    agent.db escrow snapshot_hash request.action none o;
                              backed =
                                  active-Backed quorum escrow agent.db.snapshot_sigs
                                    agent.db.snapshots row b g;
                            }
                          ]
                ]
              ]
            ]
          ]
        ]

  -- A request to sign or to submit changes nothing, and calls no wallet, unless the wallet's account of
  -- the transactions conforms to the active snapshot of the escrow; and if every active snapshot has the
  -- signatures of a quorum, so has that one. Where there is a trust bundle, both guards have admitted
  -- the escrow, for the hash of that snapshot and for the action.
  pub perform-Approved :
      (quorum : ℕ) (agent : Agent) (op : Operation) (request : FlowRequest)
      → Backed quorum agent.db.snapshot_sigs agent.db.snapshots
      → (perform outside config agent (op, request) ≡ agent) ⊎ Approved quorum agent request
  unfolding perform sign_multisig_flow submit_multisig_flow
  perform-Approved quorum agent sign_multisig request b =
      elim (Result-cases (prepare outside config request agent.db)) [
        | inr (e, f) ↦ inl (rw (f, perform) refl)
        | inl (prepared, f) ↦ inr (prepare-Approved quorum agent request prepared b f)
      ]
  perform-Approved quorum agent submit_multisig request b =
      elim (Result-cases (prepare outside config request agent.db)) [
        | inr (e, f) ↦ inl (rw (f, perform) refl)
        | inl (prepared, f) ↦ inr (prepare-Approved quorum agent request prepared b f)
      ]
