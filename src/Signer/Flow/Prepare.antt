-- ===== src/Signer/Flow/Prepare.antt =====
-- crates/nxms-signer/src/agent/flow_ops.rs: a request, and its check against the active snapshot.
use nexum_core.Common.{ℕ, String, Bool, Option, none, List, if◌then◌else◌}
use nexum_core.Common.Text.{trim, is_empty}
use nexum_core.Common.Outcome.{Result, ok, err, map_err, ok_or, ◌>>=◌, ◌>>◌}
use nexum_core.Signer.Db.{SignerDb}
use nexum_core.Signer.Db.Snapshots.{active_snapshot}
use nexum_core.Transport.Admission.{EscrowAction, RuntimeTrustBundle}
use nexum_core.Signer.Flow.Admission.{Seal, validate_stored_escrow_admission}
use nexum_core.Signer.Snapshot.{ContractSnapshot, TransferCheck, validate_transfer_against_snapshot}
use nexum_core.Signer.VerifyLimiter.{VerifyRateLimits}
use nexum_core.Signer.Token.{ActionClaims, ActionTokenVerifier, SignerRole}
use nexum_core.Signer.Bridge.{Fetched}
use nexum_core.Signer.Flow.{normalize_hex_exact, validate_tx_data_hex}

pub record SignedMultisigTx : Type 0 where
  pub tx_data_hex : String
  pub tx_hash_list : List String

-- The code outside: SHA-256 of a text, and of the bytes that a text in hexadecimal stands for; the check
-- of a token; the JSON of a snapshot and of a stored result; the hash of a snapshot; the code that
-- checks an artifact.
pub record Outside : Type 0 where
  pub sha256_hex : String → String
  pub sha256_of_hex : String → Result String String
  pub decode : ActionTokenVerifier → ℕ → String → Result String ActionClaims
  pub parse_snapshot : String → Result String ContractSnapshot
  pub policy_hash : ContractSnapshot → Result String String
  pub parse_sign_result : String → Result String SignedMultisigTx
  pub sign_result_json : SignedMultisigTx → String
  pub parse_submit_result : String → Result String (List String)
  pub submit_result_json : List String → String
  pub seal : Seal

-- `verify_env` is the flag NXMS_SIGNER_ORCH_QUORUM_PROOF_VERIFY of the environment.
pub record Config : Type 0 where
  pub max_txset_hex_len : ℕ
  pub signer_role : SignerRole
  pub verifier : Option (ActionTokenVerifier × VerifyRateLimits)
  pub runtime_trust_bundle : Option RuntimeTrustBundle
  pub production_hardening : Bool
  pub verify_env : Bool

-- A request, with the clock and the answers of the wallet and of the orchestrator.
pub record FlowRequest : Type 0 where
  pub escrow_id_hex : String
  pub action : EscrowAction
  pub tx_data_hex : String
  pub action_token : Option String
  pub now_s : ℕ
  pub now_ms : ℕ
  pub wallet_open : Result String (Unit {0})
  pub described : Result String TransferCheck
  pub signed : Result String SignedMultisigTx
  pub submitted : Result String (List String)
  pub proof_stored : Result String (Unit {0})
  pub artifact_stored : Result String (Unit {0})
  pub bundle : Fetched

-- A request that was checked against the active snapshot.
pub record Prepared : Type 0 where
  pub escrow_id_hex : String
  pub tx_data_hex : String
  pub txset_hash_hex : String
  pub snapshot_hash_hex : String

module _ (outside : Outside) where
  unfoldable pub txset_sha256_hex : String → Result String String
  txset_sha256_hex value =
      let raw = trim value in
      if is_empty raw then err "multisig_txset_hex must not be empty" else outside.sha256_of_hex raw

module _ (outside : Outside) (config : Config) (request : FlowRequest) where
  abbrev pub admitted : SignerDb → String → String → Option String → Result String (Unit {0})
  admitted db escrow hash expected =
      validate_stored_escrow_admission outside.seal config.runtime_trust_bundle db escrow hash
        request.action expected

  unfoldable pub prepare : SignerDb → Result String Prepared
  prepare db = do
    escrow ← normalize_hex_exact request.escrow_id_hex 32 "escrow_id_hex must be 32 hex chars"
    tx_data ← validate_tx_data_hex request.tx_data_hex config.max_txset_hex_len
    txset_hash ← txset_sha256_hex outside tx_data
    active ← ok_or (active_snapshot escrow db.snapshots) "no active snapshot for escrow"
    snapshot ← outside.parse_snapshot active.snapshot_json
    snapshot_hash ← outside.policy_hash snapshot
    admitted db escrow snapshot_hash none
    request.wallet_open
    described ← map_err (λ _. "describe_transfer failed") request.described
    validate_transfer_against_snapshot snapshot request.action described
    ok (record {
      escrow_id_hex = escrow;
      tx_data_hex = tx_data;
      txset_hash_hex = txset_hash;
      snapshot_hash_hex = snapshot_hash;
    })
