-- ===== src/Signer/Db/Requests.antt =====
-- crates/nxms-signer/src/db.rs: the requests to sign with their results, the tokens that were used up,
-- and the events that record a signature.
pub mod Once
use nexum_core.Common.{
  ℕ, String, Bool, true, false, ◌&&◌, ◌||◌, not, is_some, Option, none, some, List, [], ◌∷◌, ◌++◌,
  str_eq, if◌then◌else◌,
}
use nexum_core.Common.Outcome.{Result, ok, err}
use nexum_core.Common.Method.{this, put, pure, require, ◌>>=◌, ◌>>◌}
use nexum_core.Common.Rows.{any_row, find_row, update_rows, delete_rows}
use nexum_core.Signer.Db.{
  SignerDb, SignRequestRow, SignResultRow, ConsumedJti, SignEvent, RequestStatus, in_progress,
  completed, Query, as_i64,
}

abbrev pub has_req : String → SignRequestRow → Bool
has_req req row = str_eq row.req_id req

abbrev pub is_open : RequestStatus → Bool
is_open in_progress = true
is_open completed = false

-- `req_id=?1 AND status='in_progress'`
abbrev pub has_open_req : String → SignRequestRow → Bool
has_open_req req row = str_eq row.req_id req && is_open row.status

abbrev pub of_result : String → SignResultRow → Bool
of_result req row = str_eq row.req_id req

abbrev pub has_jti : String → ConsumedJti → Bool
has_jti jti row = str_eq row.jti jti

unfoldable pub start_sign_request_sync : ℕ → String → String → String → String → String → Query Unit
start_sign_request_sync now req escrow op round txset = do
  db ← this
  require (not (any_row (has_req req) db.sign_request_dedup)) "duplicate req_id"
  put (record db {
    sign_request_dedup =
        db.sign_request_dedup
        ++ (record {
          req_id = req;
          escrow_id_hex = escrow;
          op = op;
          sign_round = round;
          txset_hash_hex = txset;
          status = in_progress;
          created_at_ms = as_i64 now;
          updated_at_ms = as_i64 now;
        }
            ∷ []);
  })

unfoldable pub get_sign_request_sync : String → Query (Option SignRequestRow)
get_sign_request_sync req = do db ← this; pure (find_row (has_req req) db.sign_request_dedup)

abbrev pub set_completed : ℕ → SignRequestRow → SignRequestRow
set_completed now row = record row { status = completed; updated_at_ms = as_i64 now }

unfoldable pub complete_sign_request_sync : ℕ → String → Query Unit
complete_sign_request_sync now req = do
  db ← this
  let rows = update_rows (has_open_req req) (set_completed now) db.sign_request_dedup
  put (record db { sign_request_dedup = rows })
  require (any_row (has_open_req req) db.sign_request_dedup)
      "sign request not found or not in progress"

-- Both statements or, after an error, none.
unfoldable pub complete_sign_request_with_result_sync : ℕ → String → String → String → Query Unit
complete_sign_request_with_result_sync now req op response = do
  db ← this
  require (any_row (has_open_req req) db.sign_request_dedup)
      "sign request not found or not in progress"
  require (not (any_row (of_result req) db.sign_request_result))
      "UNIQUE constraint failed: sign_request_result.req_id"
  put (record db {
    sign_request_dedup = update_rows (has_open_req req) (set_completed now) db.sign_request_dedup;
    sign_request_result =
        db.sign_request_result
        ++ (record { req_id = req; op = op; response_json = response; created_at_ms = as_i64 now }
            ∷ []);
  })

abbrev pub response_of : Option SignResultRow → Option String
response_of none = none
response_of (some row) = some row.response_json

unfoldable pub get_sign_request_result_sync : String → Query (Option String)
get_sign_request_result_sync req = do
  db ← this
  pure (response_of (find_row (of_result req) db.sign_request_result))

unfoldable pub abort_sign_request_sync : String → Query Unit
abort_sign_request_sync req = do
  db ← this
  put (record db { sign_request_dedup = delete_rows (has_open_req req) db.sign_request_dedup })

abbrev pub consumed_row : ℕ → String → String → String → String → String → ℕ → ConsumedJti
consumed_row now jti escrow op round req exp = record {
  jti = jti;
  escrow_id_hex = escrow;
  op = op;
  sign_round = round;
  req_id = req;
  exp_unix_s = as_i64 exp;
  consumed_at_ms = as_i64 now;
}

unfoldable pub consume_action_jti_sync :
    ℕ → String → String → String → String → String → ℕ → Query Unit
consume_action_jti_sync now jti escrow op round req exp = do
  db ← this
  require (not (any_row (has_jti jti) db.consumed_action_jti)) "replayed jti"
  put (record db {
    consumed_action_jti =
        db.consumed_action_jti ++ (consumed_row now jti escrow op round req exp ∷ []);
  })

abbrev pub is_event : String → String → String → String → SignEvent → Bool
is_event escrow role round txset row =
    str_eq row.escrow_id_hex escrow
    && (str_eq row.role role && (str_eq row.sign_round round && str_eq row.txset_hash_hex txset))

-- The three unique indices of `sign_events`.
abbrev pub conflicts : SignEvent → SignEvent → Bool
conflicts event row =
    is_event event.escrow_id_hex event.role event.sign_round event.txset_hash_hex row
    || ((str_eq row.jti event.jti && str_eq row.txset_hash_hex event.txset_hash_hex)
        || str_eq row.req_id event.req_id)

-- `INSERT OR IGNORE`
unfoldable pub record_sign_event_sync :
    ℕ → String → String → String → String → String → String → Query Unit
record_sign_event_sync now escrow role round txset jti req = do
  db ← this
  let event : SignEvent = record {
    escrow_id_hex = escrow;
    role = role;
    sign_round = round;
    txset_hash_hex = txset;
    jti = jti;
    req_id = req;
    created_at_ms = as_i64 now;
  }
  put (record db {
    sign_events =
        if any_row (conflicts event) db.sign_events
        then db.sign_events
        else db.sign_events ++ (event ∷ []);
  })

unfoldable pub has_sign_event_sync : String → String → String → String → Query Bool
has_sign_event_sync escrow role round txset = do
  db ← this
  pure (any_row (is_event escrow role round txset) db.sign_events)

-- The columns `jti, req_id`.
abbrev pub event_row : Option SignEvent → Option (String × String)
event_row none = none
event_row (some row) = some (row.jti, row.req_id)

unfoldable pub get_sign_event_sync :
    String → String → String → String → Query (Option (String × String))
get_sign_event_sync escrow role round txset = do
  db ← this
  pure (event_row (find_row (is_event escrow role round txset) db.sign_events))
