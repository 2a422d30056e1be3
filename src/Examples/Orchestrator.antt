-- ===== src/Examples/Orchestrator.antt =====
-- The theorems on the orchestrator at concrete inputs.
use nexum_core.Common.{ℕ, String, some, List, [], ◌∷◌}
use nexum_core.Orchestrator.Flow.{WorkflowState, submitted, confirmed, failed_dead_letter}
use nexum_core.Orchestrator.Db.{OrchestratorDb, WorkflowInstance, OutboxItem, acked}
use nexum_core.Orchestrator.Db.Workflows.{find_workflow}
use nexum_core.Orchestrator.Db.Outbox.{find_item}
use nexum_core.Orchestrator.Db.Offsets.{Advance, NotBehind, last_seq, advances, offsets_forward}
use nexum_core.Orchestrator.Db.Outbox.Status
use nexum_core.Orchestrator.Db.Outbox.Status.{Lives, mark_sent, mark_acked, mark_retry, serve-Lives}
use nexum_core.Orchestrator.Db.Workflows.Path
use nexum_core.Orchestrator.Db.Workflows.Path.{IsOnward, create, transition, serve-IsOnward}

abbrev escrow_id : String
escrow_id = "00112233445566778899aabbccddeeff"

abbrev snapshot : String
snapshot = "00112233445566778899aabbccddeeff00112233445566778899aabbccddeeff"

abbrev empty : OrchestratorDb
empty = record {
  workflow_instances = [];
  workflow_steps = [];
  outbox = [];
  last_outbox_id = 0;
  inbox_offsets = [];
  dead_letters = [];
  proposal_blobs = [];
  escrow_admission_artifacts = [];
  quorum_sign_proofs = [];
}

abbrev hash : String → String
hash text = text

abbrev digits : ℕ → String
digits _ = "1"

abbrev requests : List Path.Request
requests =
    create 5 escrow_id snapshot ("alice" ∷ "bob" ∷ [])
    ∷ transition 6 escrow_id failed_dead_letter
    ∷ []

abbrev workflow : WorkflowState → WorkflowInstance
workflow state = record {
  escrow_id_hex = escrow_id;
  state = state;
  snapshot_hash_hex = snapshot;
  participants = "alice" ∷ "bob" ∷ [];
  created_at_ms = 1;
  updated_at_ms = 1;
}

-- A workflow that is confirmed.
abbrev finished : OrchestratorDb
finished = record empty { workflow_instances = workflow confirmed ∷ [] }

serve-IsOnward_example :
    IsOnward
      (some (workflow confirmed))
      (Path.At hash digits escrow_id (Path.serve hash digits finished requests))
unfolding find_workflow
serve-IsOnward_example = serve-IsOnward hash digits finished requests escrow_id

abbrev item : OutboxItem
item = record {
  id = 1;
  escrow_id_hex = escrow_id;
  state = submitted;
  to_id = "bob";
  msg_type = "tx_submit_req";
  envelope_json = "{}";
  idem_key = "k";
  status = acked;
  attempts = 1;
  next_attempt_at_ms = 0;
  created_at_ms = 1;
  updated_at_ms = 2;
}

abbrev acked_outbox : OrchestratorDb
acked_outbox = record empty { outbox = item ∷ []; last_outbox_id = 1 }

abbrev outbox_requests : List Status.Request
outbox_requests = mark_sent 5 1 ∷ mark_acked 6 1 ∷ mark_retry 7 1 100 "e" "d" 3 ∷ []

serve-Lives_example :
    Lives (some item) (Status.At 1 (Status.serve hash acked_outbox outbox_requests))
unfolding find_item
serve-Lives_example = serve-Lives hash acked_outbox outbox_requests 1

abbrev advanced : List Advance
advanced =
    record { now = 5; peer_id = "alice"; escrow_id = escrow_id; seq = 4 }
    ∷ record { now = 6; peer_id = "alice"; escrow_id = escrow_id; seq = 2 }
    ∷ []

-- Alice's offset is 3.
abbrev seen : OrchestratorDb
seen = record empty {
  inbox_offsets =
      record { peer_id = "alice"; escrow_id_hex = escrow_id; last_seq = 3; updated_at_ms = 4 } ∷ [];
}

offsets_forward_example :
    NotBehind (some 3) (last_seq "alice" escrow_id (advances seen advanced).inbox_offsets)
unfolding last_seq
offsets_forward_example = offsets_forward seen advanced "alice" escrow_id
