-- ===== src/Signer/Flow/Request.antt =====
-- crates/nxms-signer/src/agent/flow_ops.rs: how a request with a token is opened. The source writes
-- this once for a signature and once for a submission, the same but for the operation's name.
use nexum_core.Common.{ℕ, String, str_eq, Bool, ◌&&◌, some, if◌then◌else◌}
use nexum_core.Common.Text.{to_ascii_lowercase}
use nexum_core.Common.Outcome.{Result, ok, err, ok_or}
use nexum_core.Common.Method.{pure, lift, ◌>>=◌, ◌>>◌}
use nexum_core.Signer.Db.{SignRequestRow, Query}
use nexum_core.Signer.Db.Requests.{
  is_open, start_sign_request_sync, get_sign_request_sync, get_sign_request_result_sync,
  abort_sign_request_sync, consume_action_jti_sync,
}
use nexum_core.Signer.Token.{VerifiedSignToken}
use nexum_core.Signer.Flow.{op_text, Context, success, Flow, on_db, audit, reject, or_reject}

-- A request is new, or it was completed before and has an answer.
pub data Opened (A : Type 0) : Type 0 where
  fresh : Opened A
  cached : A → Opened A

-- The row of the request that a duplicate repeats.
unfoldable pub metadata_match : Context → VerifiedSignToken → SignRequestRow → Bool
metadata_match context verified existing =
    str_eq existing.escrow_id_hex context.escrow_id_hex
    && (str_eq existing.op (op_text context.op)
        && (str_eq existing.sign_round verified.claims.sign_round
            && str_eq (to_ascii_lowercase existing.txset_hash_hex)
                (to_ascii_lowercase context.txset_hash_hex)))

unfoldable pub consume : ℕ → Context → VerifiedSignToken → Query Unit
consume now context verified =
    consume_action_jti_sync now verified.claims.jti context.escrow_id_hex (op_text context.op)
      verified.claims.sign_round verified.req_id verified.claims.exp

module _ {A : Type 0} (parse : String → Result String A) (now : ℕ) (context : Context)
    (verified : VerifiedSignToken) where
  -- A completed request is answered again with the result that is stored, for a token of its own.
  unfoldable pub answer_cached : Flow (Opened A)
  answer_cached = do
    or_reject context (on_db (consume now context verified))
    stored ← on_db (get_sign_request_result_sync verified.req_id)
    cached_json ← lift (ok_or stored "duplicate req_id completed but cached result missing")
    answer ← lift (parse cached_json)
    audit context success (some "cached_replay")
    pure (cached answer)

  unfoldable pub answer_existing : SignRequestRow → Flow (Opened A)
  answer_existing existing =
      if metadata_match context verified existing
      then (if is_open existing.status
          then reject context "req_id already in progress"
          else answer_cached)
      else reject context "duplicate req_id has conflicting request metadata"

  unfoldable pub answer_duplicate : Flow (Opened A)
  answer_duplicate = do
    found ← on_db (get_sign_request_sync verified.req_id)
    existing ← lift (ok_or found "duplicate req_id reported but no request row found")
    answer_existing existing

  -- A token that was used before closes the request again.
  unfoldable pub consume_or_abort : Flow (Opened A)
  consume_or_abort agent =
      let (answer, after) = on_db (consume now context verified) agent in
      elim answer [
        | ok _ ↦ (ok fresh, after)
        | err e ↦ (on_db (abort_sign_request_sync verified.req_id) >> reject context e) after
      ]

  unfoldable pub open_request : Flow (Opened A)
  open_request agent =
      let (started, after) =
        on_db
          (start_sign_request_sync now verified.req_id context.escrow_id_hex (op_text context.op)
            verified.claims.sign_round context.txset_hash_hex)
          agent in
      elim started [
        | ok _ ↦ consume_or_abort after
        | err e ↦ (if str_eq e "duplicate req_id" then answer_duplicate else reject context e) after
      ]
