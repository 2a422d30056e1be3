-- ===== src/Orchestrator/Flow.antt =====
-- crates/nxms-escrow-orchestrator/src/flow.rs: the states of a workflow and their order.
use nexum_core.Common.{
  ℕ, ◌+◌, ◌<◌, String, ◌≡◌, refl, ◌⊎◌, Bool, true, false, Option, none, some, arith, ◌==◌, str_eq,
  if◌then◌else◌,
}
use nexum_core.Common.Text.{trim, to_ascii_lowercase}

pub data WorkflowState : Type 0 where
  new : WorkflowState
  prepare_collected : WorkflowState
  make_collected : WorkflowState
  exchange_r1_collected : WorkflowState
  exchange_r2_collected : WorkflowState
  finalized_ready : WorkflowState
  funded : WorkflowState
  tx_sign_pending : WorkflowState
  tx_signed_quorum : WorkflowState
  submitted : WorkflowState
  confirmed : WorkflowState
  failed_dead_letter : WorkflowState

abbrev pub as_str : WorkflowState → String
as_str new = "new"
as_str prepare_collected = "prepare_collected"
as_str make_collected = "make_collected"
as_str exchange_r1_collected = "exchange_r1_collected"
as_str exchange_r2_collected = "exchange_r2_collected"
as_str finalized_ready = "finalized_ready"
as_str funded = "funded"
as_str tx_sign_pending = "tx_sign_pending"
as_str tx_signed_quorum = "tx_signed_quorum"
as_str submitted = "submitted"
as_str confirmed = "confirmed"
as_str failed_dead_letter = "failed_dead_letter"

unfoldable pub can_transition_to : WorkflowState → WorkflowState → Bool
can_transition_to new prepare_collected = true
can_transition_to prepare_collected make_collected = true
can_transition_to make_collected exchange_r1_collected = true
can_transition_to exchange_r1_collected exchange_r2_collected = true
can_transition_to exchange_r2_collected finalized_ready = true
can_transition_to finalized_ready funded = true
can_transition_to funded tx_sign_pending = true
can_transition_to tx_sign_pending tx_signed_quorum = true
can_transition_to tx_signed_quorum submitted = true
can_transition_to submitted confirmed = true
can_transition_to confirmed failed_dead_letter = false
can_transition_to failed_dead_letter to = false
can_transition_to from failed_dead_letter = true
can_transition_to from to = false

-- The `match` of `from_str`.
of_name : String → Option WorkflowState
of_name s =
    if str_eq s "new"
    then some new
    else if str_eq s "prepare_collected"
    then some prepare_collected
    else if str_eq s "make_collected"
    then some make_collected
    else if str_eq s "exchange_r1_collected"
    then some exchange_r1_collected
    else if str_eq s "exchange_r2_collected"
    then some exchange_r2_collected
    else if str_eq s "finalized_ready"
    then some finalized_ready
    else if str_eq s "funded"
    then some funded
    else if str_eq s "tx_sign_pending"
    then some tx_sign_pending
    else if str_eq s "tx_signed_quorum"
    then some tx_signed_quorum
    else if str_eq s "submitted"
    then some submitted
    else if str_eq s "confirmed"
    then some confirmed
    else if str_eq s "failed_dead_letter"
    then some failed_dead_letter
    else none

-- `none` for the error, an unknown name.
unfoldable pub from_str : String → Option WorkflowState
unfolding of_name
from_str s = of_name (to_ascii_lowercase (trim s))

abbrev pub expected_msg_type_for_state : WorkflowState → Option String
expected_msg_type_for_state prepare_collected = some "prepare_info"
expected_msg_type_for_state make_collected = some "make_info"
expected_msg_type_for_state exchange_r1_collected = some "exchange_round1"
expected_msg_type_for_state exchange_r2_collected = some "exchange_round2"
expected_msg_type_for_state funded = some "escrow_funded"
expected_msg_type_for_state tx_sign_pending = some "tx_sign_req"
expected_msg_type_for_state tx_signed_quorum = some "tx_sign_resp"
expected_msg_type_for_state _ = none

-- The place of a state on the path; a failure is the last.
abbrev pub rank : WorkflowState → ℕ
rank new = 0
rank prepare_collected = 1
rank make_collected = 2
rank exchange_r1_collected = 3
rank exchange_r2_collected = 4
rank finalized_ready = 5
rank funded = 6
rank tx_sign_pending = 7
rank tx_signed_quorum = 8
rank submitted = 9
rank confirmed = 10
rank failed_dead_letter = 11

-- The derived `PartialEq`: the states are declared in the order of their ranks.
abbrev pub state_eq : WorkflowState → WorkflowState → Bool
state_eq a b = rank a == rank b

-- A state's name is read back as the state.
from_str-as_str : (s : WorkflowState) → from_str (as_str s) ≡ some s
unfolding from_str to_ascii_lowercase trim
from_str-as_str = elim [
  | new ↦ refl
  | prepare_collected ↦ refl
  | make_collected ↦ refl
  | exchange_r1_collected ↦ refl
  | exchange_r2_collected ↦ refl
  | finalized_ready ↦ refl
  | funded ↦ refl
  | tx_sign_pending ↦ refl
  | tx_signed_quorum ↦ refl
  | submitted ↦ refl
  | confirmed ↦ refl
  | failed_dead_letter ↦ refl
]

-- A transition leaves a state before confirmation, and it is one step along the path or a failure.
pub transition_steps :
    (from to : WorkflowState)
    → can_transition_to from to ≡ true
    → (rank from < 10) × ((rank to ≡ rank from + 1) ⊎ (to ≡ failed_dead_letter))
unfolding can_transition_to
transition_steps from to h = ground arith
