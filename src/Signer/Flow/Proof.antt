-- ===== src/Signer/Flow/Proof.antt =====
-- That a submission rests on the arbiter's signature, which this signer recorded, and on the seller's.
pub mod Submit
pub mod Serve
use nexum_core.Common.{
  ℕ, String, str_eq, eq_iff, ◌≡◌, refl, ap, ◌⊎◌, inl, inr, Bool, true, false, ◌&&◌, Option, none,
  some, List, [], ◌∷◌, if◌then◌else◌, arith, Option-cases,
}
use nexum_core.Common.Text.{present}
use nexum_core.Common.Table.{Table}
use nexum_core.Common.Outcome.{Result, ok, err, ok_or, Result-cases}
use nexum_core.Common.Method.{continue, ◌>>=◌}
use nexum_core.Common.Rows.{find_row}
use nexum_core.Signer.Db.{SignerDb, SignRequestRow, SignEvent}
use nexum_core.Signer.Db.Requests.{
  is_open, is_event, event_row, has_req, start_sign_request_sync, get_sign_request_sync,
  get_sign_request_result_sync, abort_sign_request_sync, consume_action_jti_sync,
  get_sign_event_sync,
}
use nexum_core.Signer.VerifyLimiter.{VerifyRateLimits, VerifyRateEntry}
use nexum_core.Signer.Token.{ActionTokenVerifier, VerifiedSignToken}
use nexum_core.Signer.Flow.{
  Operation, submit_multisig, op_text, Context, Agent, Flow, on_db, audit, reject, or_reject,
}
use nexum_core.Signer.Flow.Request.{
  Opened, fresh, cached, metadata_match, consume, answer_cached, answer_existing, answer_duplicate,
  consume_or_abort, open_request,
}
use nexum_core.Signer.Flow.Prepare.{Outside, Config, FlowRequest, Prepared, admitted, prepare}
use nexum_core.Signer.Flow.Authorize.{
  Authorized, first_context, verified_context, verify_token, on_limiter, open_verified, authorize,
}

-- The wallet was not called, and no signature was recorded.
abbrev pub Quiet : Agent → Agent → Type 0
Quiet agent after =
    (after.wallet_calls ≡ agent.wallet_calls) × (after.db.sign_events ≡ agent.db.sign_events)

start-events :
    (now : ℕ) (req escrow op round txset : String) (db : SignerDb)
    → (start_sign_request_sync now req escrow op round txset db).1.sign_events ≡ db.sign_events
unfolding start_sign_request_sync
start-events now req escrow op round txset db = ground arith

consume-events :
    (now : ℕ) (jti escrow op round req : String) (exp : ℕ) (db : SignerDb)
    → (consume_action_jti_sync now jti escrow op round req exp db).1.sign_events ≡ db.sign_events
unfolding consume_action_jti_sync
consume-events now jti escrow op round req exp db = ground arith

module _ {A : Type 0} (parse : String → Result String A) (now : ℕ) (context : Context)
    (verified : VerifiedSignToken) (agent : Agent) where
  answer_cached-Quiet : Quiet agent (answer_cached parse now context verified agent).1
  unfolding answer_cached or_reject on_db consume audit reject get_sign_request_result_sync
  answer_cached-Quiet = ground (
    arith,
    consume-events now verified.claims.jti context.escrow_id_hex (op_text context.op)
        verified.claims.sign_round verified.req_id verified.claims.exp agent.db,
  )

  answer_existing-Quiet :
      (row : SignRequestRow) → Quiet agent (answer_existing parse now context verified row agent).1
  unfolding answer_existing reject audit
  answer_existing-Quiet row = ground (arith, answer_cached-Quiet)

  answer_duplicate-Quiet : Quiet agent (answer_duplicate parse now context verified agent).1
  unfolding answer_duplicate on_db get_sign_request_sync
  answer_duplicate-Quiet =
      elim (Option-cases (find_row (has_req verified.req_id) agent.db.sign_request_dedup)) [
        | inl n ↦ rw n (refl, refl)
        | inr (row, f) ↦ rw f (answer_existing-Quiet row)
      ]

  consume_or_abort-Quiet : Quiet agent (consume_or_abort parse now context verified agent).1
  unfolding consume_or_abort on_db consume reject audit abort_sign_request_sync
  consume_or_abort-Quiet = ground (
    arith,
    consume-events now verified.claims.jti context.escrow_id_hex (op_text context.op)
        verified.claims.sign_round verified.req_id verified.claims.exp agent.db,
  )

module _ {A : Type 0} (parse : String → Result String A) (now : ℕ) (context : Context)
    (verified : VerifiedSignToken) (agent : Agent) where
  open_request-Quiet : Quiet agent (open_request parse now context verified agent).1
  unfolding open_request on_db reject audit
  open_request-Quiet =
      let started =
        start_sign_request_sync now verified.req_id context.escrow_id_hex (op_text context.op)
          verified.claims.sign_round context.txset_hash_hex agent.db in
      let after = record agent { db = started.1 } in
      ground (
        arith,
        start-events now verified.req_id context.escrow_id_hex (op_text context.op)
            verified.claims.sign_round context.txset_hash_hex agent.db,
        consume_or_abort-Quiet parse now context verified after,
        answer_duplicate-Quiet parse now context verified after,
      )
