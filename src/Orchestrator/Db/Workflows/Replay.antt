-- ===== src/Orchestrator/Db/Workflows/Replay.antt =====
-- A step that is recorded twice.
use nexum_core.Common.{
  ℕ, String, ◌≡◌, refl, false, none, some, List, [], ◌∷◌, ◌++◌, str_eq, arith, eq_iff, length, suc,
}
use nexum_core.Common.Outcome.{ok, is_ok}
use nexum_core.Common.Text.{to_ascii_lowercase}
use nexum_core.Orchestrator.Db.{OrchestratorDb, WorkflowStep}
use nexum_core.Orchestrator.Db.Workflows.{accepted, replay_duplicate, accept_step, find_step}

length-append : {A : Type 0} (x : A) (xs : List A) → length (xs ++ (x ∷ [])) ≡ suc (length xs)
length-append x [] = refl
length-append x (_ ∷ xs) = rw (length-append x xs)

find_step-append :
    (key : String) (rows : List WorkflowStep) (step : WorkflowStep)
    → find_step key rows ≡ none
    → step.idem_key ≡ key
    → find_step key (rows ++ (step ∷ [])) ≡ some step.payload_hash_hex
unfolding find_step
find_step-append key [] step h e = ground (arith, eq_iff step.idem_key key)
find_step-append key (r ∷ rows) step h e = ground (arith, find_step-append key rows step)

-- A step whose key is new is stored; under that key it is then a duplicate, at any time, and the
-- database stays as it is; another payload under the key is an error that adds one dead letter.
accept_again :
    (now later : ℕ) (step other : WorkflowStep) (db : OrchestratorDb)
    → find_step step.idem_key db.workflow_steps ≡ none
    → str_eq (to_ascii_lowercase step.payload_hash_hex) (to_ascii_lowercase other.payload_hash_hex)
      ≡ false
    → let (outcome, db') = accept_step now step (find_step step.idem_key db.workflow_steps) db in
      let known = find_step step.idem_key db'.workflow_steps in
      (outcome ≡ ok accepted)
      × (accept_step later step known db' ≡ (ok replay_duplicate, db'))
      × (is_ok (accept_step later other known db').0 ≡ false)
      × ((accept_step later other known db').1.workflow_steps ≡ db'.workflow_steps)
      × (length (accept_step later other known db').1.dead_letters ≡ suc (length db.dead_letters))
unfolding accept_step
accept_again now later step other db h different = rw h (
    rw (find_step-append step.idem_key db.workflow_steps step h refl) (
      rw different (
        rw
          ((eq_iff (to_ascii_lowercase step.payload_hash_hex)
              (to_ascii_lowercase step.payload_hash_hex)).1
            refl)
          (refl, refl, refl, refl, length-append _ db.dead_letters))))
