-- ===== src/Orchestrator/Db/Workflows.antt =====
-- crates/nxms-escrow-orchestrator/src/db.rs: `create_workflow`, `transition_workflow` and
-- `record_step`. `now` is the clock in milliseconds; `sha3_hex` is SHA3-256 in hexadecimal and
-- `to_text` the decimal text of a `u64`.
pub mod Path
pub mod Replay
use Prim.Native.String.{◌++◌ as str_append}
use nexum_core.Common.{
  ℕ, String, Bool, true, false, ◌&&◌, ◌||◌, not, Option, none, some, List, [], ◌∷◌, ◌++◌, str_eq,
  if◌then◌else◌, is_none,
}
use nexum_core.Common.Outcome.{Result, ok, err, ok_or}
use nexum_core.Common.Method.{lift, this, put, require, pure, raise, ◌>>=◌, ◌>>◌}
use nexum_core.Orchestrator.Flow.{
  WorkflowState, new, as_str, can_transition_to, expected_msg_type_for_state, state_eq,
}
use nexum_core.Common.Text.{to_ascii_lowercase}
use nexum_core.Orchestrator.Db.{
  OrchestratorDb, WorkflowInstance, WorkflowStep, DeadLetterItem, Query, as_i64,
  normalize_non_empty, normalize_hex_exact, normalize_participants, contains_name,
}

-- `SELECT … FROM workflow_instances WHERE escrow_id_hex=?1`
unfoldable pub find_workflow : String → List WorkflowInstance → Option WorkflowInstance
find_workflow id [] = none
find_workflow id (wf ∷ rows) = if str_eq wf.escrow_id_hex id then some wf else find_workflow id rows

-- `UPDATE workflow_instances SET state=?1, updated_at_ms=?2 WHERE escrow_id_hex=?3`
unfoldable pub set_state :
    String → WorkflowState → ℕ → List WorkflowInstance → List WorkflowInstance
set_state id to now [] = []
set_state id to now (wf ∷ rows) =
    let rest = set_state id to now rows in
    if str_eq wf.escrow_id_hex id
    then record wf { state = to; updated_at_ms = now } ∷ rest
    else wf ∷ rest

-- The primary key refuses a second workflow for an escrow.
unfoldable pub create_workflow_sync : ℕ → String → String → List String → Query Unit
create_workflow_sync now escrow_id snapshot_hash participants = do
  escrow_id_hex ← lift (normalize_hex_exact escrow_id 32 "escrow_id_hex must be 32 hex chars")
  snapshot_hash_hex ←
      lift (normalize_hex_exact snapshot_hash 64 "snapshot_hash_hex must be 64 hex chars")
  names ← lift (normalize_participants participants)
  db ← this
  require (is_none (find_workflow escrow_id_hex db.workflow_instances)) "UNIQUE constraint failed"
  put (record db {
    workflow_instances =
        db.workflow_instances
        ++ (record {
          escrow_id_hex = escrow_id_hex;
          state = new;
          snapshot_hash_hex = snapshot_hash_hex;
          participants = names;
          created_at_ms = as_i64 now;
          updated_at_ms = as_i64 now;
        }
            ∷ []);
  })

unfoldable pub transition_workflow_sync : ℕ → String → WorkflowState → Query Unit
transition_workflow_sync now escrow_id to_state = do
  escrow_id_hex ← lift (normalize_hex_exact escrow_id 32 "escrow_id_hex must be 32 hex chars")
  db ← this
  wf ← lift (ok_or (find_workflow escrow_id_hex db.workflow_instances) "workflow not found")
  require (can_transition_to wf.state to_state) "invalid workflow transition"
  put (record db {
    workflow_instances = set_state escrow_id_hex to_state (as_i64 now) db.workflow_instances;
  })

pub record StepInput : Type 0 where
  pub escrow_id_hex : String
  pub state : WorkflowState
  pub from_id : String
  pub seq : ℕ
  pub msg_type : String
  pub payload_hash_hex : String

pub data StepOutcome : Type 0 where
  accepted : StepOutcome
  replay_duplicate : StepOutcome

-- `SELECT payload_hash_hex FROM workflow_steps WHERE idem_key=?1`
unfoldable pub find_step : String → List WorkflowStep → Option String
find_step key [] = none
find_step key (s ∷ rows) =
    if str_eq s.idem_key key then some s.payload_hash_hex else find_step key rows

abbrev msg_type_ok : Option String → String → Bool
msg_type_ok none msg_type = true
msg_type_ok (some expected) msg_type = str_eq expected msg_type

-- The checks that `record_step_sync` and `enqueue_outbox_sync` make of the workflow, the other
-- party, the state and the message type.
abbrev pub check_workflow : WorkflowInstance → String → WorkflowState → String → Query Unit
check_workflow wf peer state msg_type = do
  require (contains_name peer wf.participants) "peer is not allowlisted for escrow"
  require (state_eq wf.state state || can_transition_to wf.state state)
      "workflow precondition failed"
  require (msg_type_ok (expected_msg_type_for_state state) msg_type)
      "state expects another msg_type"

-- `str::eq_ignore_ascii_case`
abbrev eq_ignore_ascii_case : String → String → Bool
eq_ignore_ascii_case a b = str_eq (to_ascii_lowercase a) (to_ascii_lowercase b)

-- `add_dead_letter_tx`
abbrev pub add_dead_letter :
    ℕ → String → String → String → String → ℕ → Option String → OrchestratorDb → OrchestratorDb
add_dead_letter now escrow_id stage code detail attempts hash db = record db {
  dead_letters =
      db.dead_letters
      ++ (record {
        escrow_id_hex = escrow_id;
        stage = stage;
        last_error_code = code;
        last_error_detail_redacted = detail;
        attempts = attempts;
        payload_hash_hex = hash;
        created_at_ms = as_i64 now;
      }
          ∷ []);
}

-- The end of `record_step_sync`: a known key is a replay or a conflict, a new one is stored.
unfoldable pub accept_step : ℕ → WorkflowStep → Option String → Query StepOutcome
accept_step now step none = do
  db ← this
  put (record db { workflow_steps = db.workflow_steps ++ (step ∷ []) })
  pure accepted
accept_step now step (some hash) =
    if eq_ignore_ascii_case hash step.payload_hash_hex then pure replay_duplicate else (do
      db ← this
      put (
          add_dead_letter now step.escrow_id_hex "step_record" "idem_payload_conflict"
            "same idempotency key with different payload hash" 1 (some step.payload_hash_hex) db)
      raise "idempotency conflict")

module _ (sha3_hex : String → String) (to_text : ℕ → String) where
  unfoldable pub step_idem_key : String → WorkflowState → String → ℕ → String
  step_idem_key escrow_id_hex state from_id seq = sha3_hex (
      str_append escrow_id_hex (
        str_append ":" (
          str_append (as_str state)
            (str_append ":" (str_append from_id (str_append ":" (to_text seq)))))))

  unfoldable pub record_step_sync : ℕ → StepInput → Query StepOutcome
  record_step_sync now input = do
    escrow_id_hex ←
        lift (normalize_hex_exact input.escrow_id_hex 32 "escrow_id_hex must be 32 hex chars")
    from_id ← lift (normalize_non_empty input.from_id "from_id must not be empty")
    msg_type ← lift (normalize_non_empty input.msg_type "msg_type must not be empty")
    payload_hash_hex ←
        lift (normalize_hex_exact input.payload_hash_hex 64 "payload_hash_hex must be 64 hex chars")
    db ← this
    wf ← lift (ok_or (find_workflow escrow_id_hex db.workflow_instances) "workflow not found")
    check_workflow wf from_id input.state msg_type
    let key = step_idem_key escrow_id_hex input.state from_id input.seq
    accept_step now
        (record {
          escrow_id_hex = escrow_id_hex;
          state = input.state;
          from_id = from_id;
          seq = as_i64 input.seq;
          msg_type = msg_type;
          idem_key = key;
          payload_hash_hex = payload_hash_hex;
          created_at_ms = as_i64 now;
        })
        (find_step key db.workflow_steps)
