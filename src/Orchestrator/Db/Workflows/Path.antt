-- ===== src/Orchestrator/Db/Workflows/Path.antt =====
-- The states that a workflow goes through, whatever is asked of the database.
use nexum_core.Common.{
  ℕ, ◌≤◌, String, ◌≡◌, ◌≢◌, inl, inr, Option, none, some, List, [], ◌∷◌, ◌++◌, str_eq, arith,
  eq_iff, Option-cases, Bool-cases, is_none, if◌then◌else◌,
}
use nexum_core.Common.Outcome.{Result-cases}
use nexum_core.Orchestrator.Flow.{WorkflowState, rank, transition_steps}
use nexum_core.Orchestrator.Db.{
  OrchestratorDb, WorkflowInstance, normalize_hex_exact, normalize_non_empty,
  normalize_participants, as_i64,
}
use nexum_core.Orchestrator.Db.Workflows.{
  find_workflow, set_state, create_workflow_sync, transition_workflow_sync, StepInput,
  record_step_sync, accept_step,
}

-- A workflow does not go back, and one that is confirmed or has failed stays as it is.
abbrev pub IsOnward : Option WorkflowInstance → Option WorkflowInstance → Type 0
IsOnward none wf' = Unit
IsOnward (some wf) none = wf ≢ wf
IsOnward (some wf) (some wf') =
    (rank wf.state ≤ rank wf'.state) × (10 ≤ rank wf.state → wf'.state ≡ wf.state)

IsOnward-refl : (wf : Option WorkflowInstance) → IsOnward wf wf
IsOnward-refl wf = ground arith

IsOnward-trans : (a b c : Option WorkflowInstance) → IsOnward a b → IsOnward b c → IsOnward a c
IsOnward-trans a b c h k = ground arith

find_workflow-append :
    (id : String) (rows : List WorkflowInstance) (wf : WorkflowInstance)
    → IsOnward (find_workflow id rows) (find_workflow id (rows ++ (wf ∷ [])))
unfolding find_workflow
find_workflow-append id [] wf = ground arith
find_workflow-append id (r ∷ rows) wf = ground (arith, find_workflow-append id rows wf)

-- The workflow with its state moved.
abbrev moved : WorkflowState → ℕ → Option WorkflowInstance → Option WorkflowInstance
moved to now none = none
moved to now (some wf) = some (record wf { state = to; updated_at_ms = now })

find_workflow-set_state :
    (id id' : String) (to : WorkflowState) (now : ℕ) (rows : List WorkflowInstance)
    → find_workflow id' (set_state id to now rows)
      ≡ (if str_eq id id' then moved to now (find_workflow id' rows) else find_workflow id' rows)
unfolding find_workflow set_state
find_workflow-set_state id id' to now [] = ground arith
find_workflow-set_state id id' to now (r ∷ rows) = ground (
  arith,
  eq_iff id id',
  eq_iff r.escrow_id_hex id,
  eq_iff r.escrow_id_hex id',
  find_workflow-set_state id id' to now rows,
)

-- The requests about workflows.
pub data Request : Type 0 where
  create : ℕ → String → String → List String → Request
  transition : ℕ → String → WorkflowState → Request
  step : ℕ → StepInput → Request

module _ (sha3_hex : String → String) (to_text : ℕ → String) where
  pub perform : OrchestratorDb → Request → OrchestratorDb
  perform db (create now id hash names) = (create_workflow_sync now id hash names db).1
  perform db (transition now id to) = (transition_workflow_sync now id to db).1
  perform db (step now input) = (record_step_sync sha3_hex to_text now input db).1

  pub serve : OrchestratorDb → List Request → OrchestratorDb
  serve db [] = db
  serve db (r ∷ rest) = serve (perform db r) rest

  abbrev pub At : String → OrchestratorDb → Option WorkflowInstance
  At id db = find_workflow id db.workflow_instances

  create-IsOnward :
      (now : ℕ) (escrow hash : String) (names : List String) (id : String) (db : OrchestratorDb)
      → IsOnward (At id db) (At id (create_workflow_sync now escrow hash names db).1)
  unfolding create_workflow_sync
  create-IsOnward now escrow hash names id db =
      elim (Result-cases (normalize_hex_exact escrow 32 "escrow_id_hex must be 32 hex chars")) [
        | inr (e, h) ↦ rw h (IsOnward-refl (At id db))
        | inl (hex, h) ↦
            rw h
              (elim (Result-cases
                (normalize_hex_exact hash 64 "snapshot_hash_hex must be 64 hex chars")) [
                  | inr (e, k) ↦ rw k (IsOnward-refl (At id db))
                  | inl (hex', k) ↦ rw k (elim (Result-cases (normalize_participants names)) [
                    | inr (e, l) ↦ rw l (IsOnward-refl (At id db))
                    | inl (ps, l) ↦ rw l (elim (Bool-cases (is_none (At hex db))) [
                      | inl n ↦ rw n (find_workflow-append id db.workflow_instances _)
                      | inr n ↦ rw n (IsOnward-refl (At id db))
                    ])
                  ])
                ])
      ]

  transition-IsOnward :
      (now : ℕ) (escrow : String) (to : WorkflowState) (id : String) (db : OrchestratorDb)
      → IsOnward (At id db) (At id (transition_workflow_sync now escrow to db).1)
  unfolding transition_workflow_sync
  transition-IsOnward now escrow to id db =
      elim (Result-cases (normalize_hex_exact escrow 32 "escrow_id_hex must be 32 hex chars")) [
        | inr (e, h) ↦ rw h (IsOnward-refl (At id db))
        | inl (hex, h) ↦ rw h (elim (Option-cases (At hex db)) [
          | inl n ↦ rw n (IsOnward-refl (At id db))
          | inr (wf, f) ↦ ground (
            arith,
            eq_iff hex id,
            find_workflow-set_state hex id to (as_i64 now) db.workflow_instances,
            transition_steps wf.state to,
          )
        ])
      ]

  step_keeps :
      (now : ℕ) (input : StepInput) (db : OrchestratorDb)
      → (record_step_sync sha3_hex to_text now input db).1.workflow_instances
        ≡ db.workflow_instances
  unfolding record_step_sync accept_step
  step_keeps now input db = ground (
    arith,
    Result-cases (normalize_hex_exact input.escrow_id_hex 32 "escrow_id_hex must be 32 hex chars"),
    Result-cases (normalize_non_empty input.from_id "from_id must not be empty"),
    Result-cases (normalize_non_empty input.msg_type "msg_type must not be empty"),
    Result-cases
        (normalize_hex_exact input.payload_hash_hex 64 "payload_hash_hex must be 64 hex chars"),
  )

  perform-IsOnward :
      (r : Request) (id : String) (db : OrchestratorDb) → IsOnward (At id db) (At id (perform db r))
  unfolding perform
  perform-IsOnward (create now escrow hash names) id db =
      create-IsOnward now escrow hash names id db
  perform-IsOnward (transition now escrow to) id db = transition-IsOnward now escrow to id db
  perform-IsOnward (step now input) id db = rw (step_keeps now input db) (IsOnward-refl (At id db))

  -- Whatever creations, transitions and steps are asked of the database, a workflow once created stays,
  -- its state never goes back along the path, and one that is confirmed or has failed keeps its state.
  pub serve-IsOnward :
      (db : OrchestratorDb) (rs : List Request) (id : String)
      → IsOnward (At id db) (At id (serve db rs))
  unfolding serve
  serve-IsOnward db [] id = IsOnward-refl (At id db)
  serve-IsOnward db (r ∷ rest) id =
      IsOnward-trans (At id db) (At id (perform db r)) (At id (serve (perform db r) rest))
        (perform-IsOnward r id db) (serve-IsOnward (perform db r) rest id)
