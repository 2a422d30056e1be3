-- ===== src/Signer/Flow/Wallet.antt =====
-- crates/nxms-signer/src/agent/flow_ops.rs: the wallet's call in both flows, and what follows it.
use nexum_core.Common.{ℕ, String, Option, none, some}
use nexum_core.Common.Outcome.{Result, ok, err}
use nexum_core.Common.Method.{pure, ◌>>◌}
use nexum_core.Signer.Db.Requests.{abort_sign_request_sync, complete_sign_request_with_result_sync}
use nexum_core.Signer.Flow.{op_text, Context, attempt, Flow, on_db, audit, reject, call_wallet}

-- `if let Some(req_id) = … { let _ = self.db.abort_sign_request(req_id) }`
unfoldable pub abort_request : Option String → Flow Unit
abort_request none = pure tt
abort_request (some req) = on_db (abort_sign_request_sync req)

unfoldable pub settle : {A : Type 0} → Context → Result String A → Flow A
settle context (ok a) = pure a
settle context (err e) = do abort_request context.req_id; reject context e

-- A call that the wallet refuses leaves the request to be opened again.
unfoldable pub ask_wallet : {A : Type 0} → Context → String → Result String A → Flow A
ask_wallet context tx_data answer = do
  audit context attempt none
  call_wallet context tx_data
  settle context answer

unfoldable pub complete_request : ℕ → Context → Option String → String → Flow Unit
complete_request now context none json = pure tt
complete_request now context (some req) json =
    on_db (complete_sign_request_with_result_sync now req (op_text context.op) json)
