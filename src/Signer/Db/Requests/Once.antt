-- ===== src/Signer/Db/Requests/Once.antt =====
-- The tokens that are used up: which operations leave them, and that `consume_action_jti` takes each once.
use nexum_core.Common.{ℕ, ◌+◌, ◌≤◌, String, str_eq, eq_iff, ◌≡◌, refl, if◌then◌else◌, arith}
use nexum_core.Common.Outcome.{is_ok}
use nexum_core.Common.Rows.{count_rows, count_rows-append, count_rows-none}
use nexum_core.Signer.Db.{SignerDb}
use nexum_core.Signer.Db.Requests.{
  has_jti, consumed_row, start_sign_request_sync, get_sign_request_sync,
  complete_sign_request_with_result_sync, get_sign_request_result_sync, abort_sign_request_sync,
  consume_action_jti_sync, record_sign_event_sync, get_sign_event_sync,
}

-- How often a token was used.
abbrev pub used : String → SignerDb → ℕ
used jti db = count_rows (has_jti jti) db.consumed_action_jti

pub start-used :
    (j : String) (now : ℕ) (req escrow op round txset : String) (db : SignerDb)
    → used j (start_sign_request_sync now req escrow op round txset db).1 ≡ used j db
unfolding start_sign_request_sync
start-used j now req escrow op round txset db = ground arith

pub complete-used :
    (j : String) (now : ℕ) (req op json : String) (db : SignerDb)
    → used j (complete_sign_request_with_result_sync now req op json db).1 ≡ used j db
unfolding complete_sign_request_with_result_sync
complete-used j now req op json db = ground arith

pub abort-used :
    (j req : String) (db : SignerDb) → used j (abort_sign_request_sync req db).1 ≡ used j db
unfolding abort_sign_request_sync
abort-used j req db = refl

pub record-used :
    (j : String) (now : ℕ) (escrow role round txset jti req : String) (db : SignerDb)
    → used j (record_sign_event_sync now escrow role round txset jti req db).1 ≡ used j db
unfolding record_sign_event_sync
record-used j now escrow role round txset jti req db = refl

pub result-used :
    (j req : String) (db : SignerDb) → used j (get_sign_request_result_sync req db).1 ≡ used j db
unfolding get_sign_request_result_sync
result-used j req db = refl

pub request-used :
    (j req : String) (db : SignerDb) → used j (get_sign_request_sync req db).1 ≡ used j db
unfolding get_sign_request_sync
request-used j req db = refl

pub event-used :
    (j escrow role round txset : String) (db : SignerDb)
    → used j (get_sign_event_sync escrow role round txset db).1 ≡ used j db
unfolding get_sign_event_sync
event-used j escrow role round txset db = refl

-- Accepting a token uses it for the first time; refusing it uses none.
pub consume-used :
    (j : String) (now : ℕ) (jti escrow op round req : String) (exp : ℕ) (db : SignerDb)
    → used j db ≤ 1
    → (used j (consume_action_jti_sync now jti escrow op round req exp db).1
        ≡ used j db
          + (if is_ok (consume_action_jti_sync now jti escrow op round req exp db).0
              then (if str_eq jti j then 1 else 0)
              else 0))
      × (used j (consume_action_jti_sync now jti escrow op round req exp db).1 ≤ 1)
unfolding consume_action_jti_sync
consume-used j now jti escrow op round req exp db h = ground (
  arith,
  eq_iff jti j,
  count_rows-none (has_jti jti) db.consumed_action_jti,
  count_rows-append (has_jti j) db.consumed_action_jti
      (consumed_row now jti escrow op round req exp),
)
