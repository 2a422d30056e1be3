-- ===== src/Orchestrator/Db/Outbox.antt =====
-- crates/nxms-escrow-orchestrator/src/db.rs: the outbox: `enqueue_outbox`, `mark_outbox_sent`,
-- `mark_outbox_acked` and `mark_outbox_retry`.
pub mod Status
use Prim.Native.String.{◌++◌ as str_append}
use nexum_core.Common.{
  ℕ, suc, ◌+◌, ◌-◌, ◌^◌, min, max, String, Bool, true, false, ◌&&◌, ◌||◌, not, Option, none, some,
  List, [], ◌∷◌, ◌++◌, leb, ◌==◌, str_eq, if◌then◌else◌, is_none,
}
use nexum_core.Common.Outcome.{Result, ok, err, ok_or}
use nexum_core.Common.Method.{lift, this, put, require, pure, raise, ◌>>=◌, ◌>>◌}
use nexum_core.Orchestrator.Flow.{WorkflowState, as_str}
use nexum_core.Orchestrator.Db.{
  OrchestratorDb, OutboxItem, OutboxStatus, pending, sent, acked, dead_letter, Query, as_i64,
  i64_max, normalize_non_empty, normalize_hex_exact,
}
use nexum_core.Orchestrator.Db.Workflows.{find_workflow, check_workflow, add_dead_letter}

abbrev pub u32_max : ℕ
u32_max = 2 ^ 32 - 1

pub record OutboxInput : Type 0 where
  pub escrow_id_hex : String
  pub state : WorkflowState
  pub to_id : String
  pub msg_type : String
  pub envelope_json : String

-- `WHERE id=?`
unfoldable pub find_item : ℕ → List OutboxItem → Option OutboxItem
find_item id [] = none
find_item id (o ∷ rows) = if o.id == id then some o else find_item id rows

-- `UPDATE outbox SET … WHERE id=?`
unfoldable pub update_item : ℕ → (OutboxItem → OutboxItem) → List OutboxItem → List OutboxItem
update_item id f [] = []
update_item id f (o ∷ rows) =
    let rest = update_item id f rows in if o.id == id then f o ∷ rest else o ∷ rest

unfoldable pub has_idem_key : String → List OutboxItem → Bool
has_idem_key key [] = false
has_idem_key key (o ∷ rows) = str_eq o.idem_key key || has_idem_key key rows

-- `status IN ('pending', 'sent')`
abbrev pub is_open : OutboxStatus → Bool
is_open pending = true
is_open sent = true
is_open acked = false
is_open dead_letter = false

-- `UPDATE outbox SET … WHERE id=?2 AND status IN ('pending', 'sent')`, which has to change a row.
unfoldable pub update_open : ℕ → (OutboxItem → OutboxItem) → Query Unit
update_open id f = do
  require (not (id == 0)) "outbox id must be > 0"
  db ← this
  o ← lift (ok_or (find_item id db.outbox) "outbox row not found or not in pending/sent state")
  require (is_open o.status) "outbox row not found or not in pending/sent state"
  put (record db { outbox = update_item id f db.outbox })

abbrev pub set_sent : ℕ → OutboxItem → OutboxItem
set_sent now o = record o { status = sent; attempts = o.attempts + 1; updated_at_ms = as_i64 now }

abbrev pub set_acked : ℕ → OutboxItem → OutboxItem
set_acked now o = record o { status = acked; updated_at_ms = as_i64 now }

-- An `id` below 1 is an error in the source; here it is a natural number.
unfoldable pub mark_outbox_sent_sync : ℕ → ℕ → Query Unit
mark_outbox_sent_sync now id = update_open id (set_sent now)

unfoldable pub mark_outbox_acked_sync : ℕ → ℕ → Query Unit
mark_outbox_acked_sync now id = update_open id (set_acked now)

-- One more failed attempt.
abbrev pub next_attempts : OutboxItem → ℕ
next_attempts o = min (o.attempts + 1) i64_max

abbrev pub set_failed : OutboxStatus → ℕ → ℕ → OutboxItem → OutboxItem
set_failed status now backoff o = record o {
  status = status;
  attempts = next_attempts o;
  next_attempt_at_ms = min (as_i64 now + as_i64 (max backoff 100)) i64_max;
  updated_at_ms = as_i64 now;
}

-- `INSERT INTO outbox …`: the unique index refuses a row whose key is there already, which the
-- caller takes as success.
unfoldable pub insert_item : OutboxItem → OrchestratorDb → OrchestratorDb
insert_item item db =
    if has_idem_key item.idem_key db.outbox
    then db
    else record db { last_outbox_id = item.id; outbox = db.outbox ++ (item ∷ []) }

module _ (sha3_hex : String → String) where
  -- `outbox_idem_key` of flow.rs
  unfoldable pub outbox_idem_key : String → WorkflowState → String → String → String → String
  outbox_idem_key escrow_id_hex state to_id msg_type payload_hash_hex = sha3_hex (
      str_append escrow_id_hex (
        str_append ":" (
          str_append (as_str state) (
            str_append ":" (
              str_append to_id
                (str_append ":" (str_append msg_type (str_append ":" payload_hash_hex))))))))

  unfoldable pub enqueue_outbox_sync : ℕ → OutboxInput → Query Unit
  enqueue_outbox_sync now input = do
    escrow_id_hex ←
        lift (normalize_hex_exact input.escrow_id_hex 32 "escrow_id_hex must be 32 hex chars")
    to_id ← lift (normalize_non_empty input.to_id "to_id must not be empty")
    msg_type ← lift (normalize_non_empty input.msg_type "msg_type must not be empty")
    db ← this
    wf ← lift (ok_or (find_workflow escrow_id_hex db.workflow_instances) "workflow not found")
    check_workflow wf to_id input.state msg_type
    let key =
        outbox_idem_key escrow_id_hex input.state to_id msg_type (sha3_hex input.envelope_json)
    put (
        insert_item
          (record {
            id = suc db.last_outbox_id;
            escrow_id_hex = escrow_id_hex;
            state = input.state;
            to_id = to_id;
            msg_type = msg_type;
            envelope_json = input.envelope_json;
            idem_key = key;
            status = pending;
            attempts = 0;
            next_attempt_at_ms = as_i64 now;
            created_at_ms = as_i64 now;
            updated_at_ms = as_i64 now;
          })
          db)

  -- The last of the allowed attempts ends in a dead letter.
  unfoldable pub mark_outbox_retry_sync : ℕ → ℕ → ℕ → String → String → ℕ → Query Unit
  mark_outbox_retry_sync now id backoff_ms code detail dead_letter_after = do
    require (not (id == 0)) "outbox id must be > 0"
    error_code ← lift (normalize_non_empty code "error_code must not be empty")
    error_detail ← lift (normalize_non_empty detail "error_detail_redacted must not be empty")
    db ← this
    o ← lift (ok_or (find_item id db.outbox) "outbox row not found")
    require (is_open o.status) "outbox row is in terminal state"
    put (
        if leb (max dead_letter_after 1) (next_attempts o)
        then add_dead_letter now o.escrow_id_hex "outbox_delivery" error_code error_detail
            (min (next_attempts o) u32_max) (some (sha3_hex o.envelope_json))
            (record db {
              outbox = update_item id (set_failed dead_letter now backoff_ms) db.outbox;
            })
        else record db { outbox = update_item id (set_failed pending now backoff_ms) db.outbox })
