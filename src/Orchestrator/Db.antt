-- ===== src/Orchestrator/Db.antt =====
-- crates/nxms-escrow-orchestrator/src/db.rs: the tables and the normalization of the inputs. The
-- state column holds a `WorkflowState` (its name is read back as it, `from_str-as_str`). SQLite runs
-- every operation; the errors are the source's texts without the interpolated values.
pub mod Inputs
pub mod Workflows
pub mod Outbox
pub mod Offsets
pub mod Artifacts
pub mod Proofs
use nexum_core.Common.{
  ℕ, String, Bool, true, false, ◌&&◌, ◌||◌, not, List, [], ◌∷◌, ◌==◌, str_eq, if◌then◌else◌, min,
  ◌^◌, ◌-◌, Option, none, some,
}
use nexum_core.Common.Text.{trim, len, is_empty, all_chars, is_ascii_hexdigit}
use nexum_core.Common.Outcome.{Result, ok, err, ◌>>=◌}
use nexum_core.Common.Method.{Method}
use nexum_core.Orchestrator.Flow.{WorkflowState}
use nexum_core.Common.Text.{to_ascii_lowercase}

abbrev pub i64_max : ℕ
i64_max = 2 ^ 63 - 1

-- `i64::try_from(v).unwrap_or(i64::MAX)`
abbrev pub as_i64 : ℕ → ℕ
as_i64 v = min v i64_max

-- A row of `workflow_instances`.
pub record WorkflowInstance : Type 0 where
  pub escrow_id_hex : String
  pub state : WorkflowState
  pub snapshot_hash_hex : String
  pub participants : List String
  pub created_at_ms : ℕ
  pub updated_at_ms : ℕ

-- A row of `workflow_steps`.
pub record WorkflowStep : Type 0 where
  pub escrow_id_hex : String
  pub state : WorkflowState
  pub from_id : String
  pub seq : ℕ
  pub msg_type : String
  pub idem_key : String
  pub payload_hash_hex : String
  pub created_at_ms : ℕ

pub data OutboxStatus : Type 0 where
  pending : OutboxStatus
  sent : OutboxStatus
  acked : OutboxStatus
  dead_letter : OutboxStatus

-- A row of `outbox`.
pub record OutboxItem : Type 0 where
  pub id : ℕ
  pub escrow_id_hex : String
  pub state : WorkflowState
  pub to_id : String
  pub msg_type : String
  pub envelope_json : String
  pub idem_key : String
  pub status : OutboxStatus
  pub attempts : ℕ
  pub next_attempt_at_ms : ℕ
  pub created_at_ms : ℕ
  pub updated_at_ms : ℕ

-- A row of `inbox_offsets`.
pub record InboxOffset : Type 0 where
  pub peer_id : String
  pub escrow_id_hex : String
  pub last_seq : ℕ
  pub updated_at_ms : ℕ

-- A row of `dead_letters`.
pub record DeadLetterItem : Type 0 where
  pub escrow_id_hex : String
  pub stage : String
  pub last_error_code : String
  pub last_error_detail_redacted : String
  pub attempts : ℕ
  pub payload_hash_hex : Option String
  pub created_at_ms : ℕ

-- A row of `proposal_blobs`.
pub record ProposalBlob : Type 0 where
  pub escrow_id_hex : String
  pub action : String
  pub tx_data_hex : String
  pub txset_hash_hex : String
  pub created_at_ms : ℕ
  pub updated_at_ms : ℕ

-- A row of `escrow_admission_artifacts`.
pub record EscrowAdmissionArtifactRow : Type 0 where
  pub escrow_id_hex : String
  pub snapshot_hash_hex : String
  pub action : String
  pub runtime_trust_epoch : String
  pub artifact_hash_hex : String
  pub artifact_json : String
  pub created_at_ms : ℕ
  pub updated_at_ms : ℕ

-- A row of `quorum_sign_proofs`.
pub record QuorumSignProof : Type 0 where
  pub escrow_id_hex : String
  pub role : String
  pub sign_round : String
  pub txset_hash_hex : String
  pub jti : String
  pub req_id : String
  pub updated_at_ms : ℕ

pub record OrchestratorDb : Type 0 where
  pub workflow_instances : List WorkflowInstance
  pub workflow_steps : List WorkflowStep
  pub outbox : List OutboxItem
  pub last_outbox_id : ℕ
  pub inbox_offsets : List InboxOffset
  pub dead_letters : List DeadLetterItem
  pub proposal_blobs : List ProposalBlob
  pub escrow_admission_artifacts : List EscrowAdmissionArtifactRow
  pub quorum_sign_proofs : List QuorumSignProof

-- An operation on the database: what it has committed stays, also under an error.
abbrev pub Query : Type 0 → Type 0
Query A = Method OrchestratorDb String A

unfoldable pub normalize_non_empty : String → String → Result String String
normalize_non_empty value label = if is_empty (trim value) then err label else ok (trim value)

unfoldable pub normalize_hex_exact : String → ℕ → String → Result String String
normalize_hex_exact value expected_len label =
    if not (len (trim value) == expected_len) || not (all_chars is_ascii_hexdigit (trim value))
    then err label
    else ok (to_ascii_lowercase (trim value))

abbrev pub contains_name : String → List String → Bool
contains_name v [] = false
contains_name v (p ∷ ps) = str_eq p v || contains_name v ps

-- `seen` holds the same names as `out`.
normalize_each : List String → List String → Result String (List String)
normalize_each seen [] = ok []
normalize_each seen (raw ∷ rest) = do
  p ← normalize_non_empty raw "participant must not be empty"
  let tail = normalize_each (p ∷ seen) rest
  if contains_name p seen then err "duplicate participant" else (do out ← tail; ok (p ∷ out))

unfoldable pub normalize_participants : List String → Result String (List String)
unfolding normalize_each
normalize_participants [] = err "participants must not be empty"
normalize_participants (p ∷ ps) = normalize_each [] (p ∷ ps)
