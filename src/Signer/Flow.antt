-- ===== src/Signer/Flow.antt =====
-- crates/nxms-signer/src/agent/flow_ops.rs: what serving a request changes. A request comes with what the
-- code outside answers to it: the clock, the wallet and the orchestrator. The audit log keeps the
-- fields of a line apart, and the reason as it is.
pub mod Request
pub mod Admission
pub mod Prepare
pub mod Authorize
pub mod Wallet
pub mod Sign
pub mod Submit
pub mod SingleUse
pub mod Approval
pub mod Proof
use nexum_core.Common.{
  ℕ, ◌==◌, String, str_eq, Bool, true, false, ◌&&◌, Option, none, some, List, [], ◌∷◌, ◌++◌, leb,
  if◌then◌else◌, ◌%◌, not, ltb, ◌||◌,
}
use nexum_core.Common.Text.{trim, len, is_empty, all_chars, is_ascii_hexdigit, to_ascii_lowercase}
use nexum_core.Common.Outcome.{Result, ok, err, ensure}
use nexum_core.Common.Method.{Method, raise, ◌>>=◌, ◌>>◌}
use nexum_core.Common.Table.{Table}
use nexum_core.Signer.Db.{SignerDb, Query}
use nexum_core.Signer.VerifyLimiter.{VerifyRateEntry}

pub data Operation : Type 0 where
  sign_multisig : Operation
  submit_multisig : Operation

abbrev pub op_text : Operation → String
op_text sign_multisig = "sign_multisig"
op_text submit_multisig = "submit_multisig"

-- The last part of `event_kind`, with the decision and the `result` of the detail.
pub data AuditResult : Type 0 where
  attempt : AuditResult
  rejected : AuditResult
  success : AuditResult

-- What a flow knows of its request when it writes to the audit log.
pub record Context : Type 0 where
  pub op : Operation
  pub escrow_id_hex : String
  pub role : String
  pub sign_round : String
  pub req_id : Option String
  pub txset_hash_hex : String
  pub snapshot_hash_hex : String
  pub jti : Option String
  pub exp : Option ℕ

pub record AuditEntry : Type 0 where
  pub context : Context
  pub result : AuditResult
  pub reason : Option String

-- A call of the wallet, with the token that it was made for.
pub record WalletCall : Type 0 where
  pub op : Operation
  pub tx_data_hex : String
  pub req_id : Option String
  pub jti : Option String

pub record Agent : Type 0 where
  pub db : SignerDb
  pub limiter : Table VerifyRateEntry
  pub audit_log : List AuditEntry
  pub wallet_calls : List WalletCall

abbrev pub Flow : Type 0 → Type 0
Flow A = Method Agent String A

-- `self.db.…`
unfoldable pub on_db : {A : Type 0} → Query A → Flow A
on_db query agent = let (answer, db) = query agent.db in (answer, record agent { db = db })

-- `self.best_effort_audit`
unfoldable pub audit : Context → AuditResult → Option String → Flow Unit
audit context result reason agent = (
  ok tt,
  record agent {
    audit_log =
        agent.audit_log ++ (record { context = context; result = result; reason = reason } ∷ []);
  },
)

unfoldable pub reject : {A : Type 0} → Context → String → Flow A
reject context error = do audit context rejected (some error); raise error

-- `if let Err(err) = … { …; return Err(err) }`
unfoldable pub or_reject : {A : Type 0} → Context → Flow A → Flow A
or_reject context m agent =
    let (answer, after) = m agent in
    elim answer [ ok a ↦ (ok a, after) | err e ↦ reject context e after ]

-- The wallet is asked for a signature, or to submit.
unfoldable pub call_wallet : Context → String → Flow Unit
call_wallet context tx_data agent = (
  ok tt,
  record agent {
    wallet_calls =
        agent.wallet_calls
        ++ (record {
          op = context.op;
          tx_data_hex = tx_data;
          req_id = context.req_id;
          jti = context.jti;
        }
            ∷ []);
  },
)

-- crates/nxms-signer/src/agent_support.rs
unfoldable pub normalize_hex_exact : String → ℕ → String → Result String String
normalize_hex_exact value expected_len error =
    let trimmed = trim value in
    if len trimmed == expected_len && all_chars is_ascii_hexdigit trimmed
    then ok (to_ascii_lowercase trimmed)
    else err error

unfoldable pub validate_tx_data_hex : String → ℕ → Result String String
validate_tx_data_hex value max_hex_len =
    let raw = trim value in
    if is_empty raw
    then err "tx_data_hex must not be empty"
    else if ltb max_hex_len (len raw)
    then err "tx_data_hex too large"
    else if len raw % 2 == 0 && all_chars is_ascii_hexdigit raw
    then ok (to_ascii_lowercase raw)
    else err "tx_data_hex must be valid even-length hex"
