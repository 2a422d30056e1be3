-- ===== src/Signer/Flow/Sign.antt =====
-- crates/nxms-signer/src/agent/flow_ops.rs: `sign_multisig_flow`.
use nexum_core.Common.{String, Option, none, some}
use nexum_core.Common.Method.{pure, lift, this, ◌>>=◌, ◌>>◌}
use nexum_core.Signer.Db.Requests.{record_sign_event_sync}
use nexum_core.Signer.Token.{sign_req_id}
use nexum_core.Signer.Flow.{sign_multisig, Context, success, Flow, on_db, audit}
use nexum_core.Signer.Flow.Request.{Opened, fresh, cached}
use nexum_core.Signer.Flow.Prepare.{
  Outside, Config, FlowRequest, Prepared, SignedMultisigTx, prepare, txset_sha256_hex,
}
use nexum_core.Signer.Flow.Authorize.{authorize}
use nexum_core.Signer.Flow.Wallet.{ask_wallet, complete_request}

module _ (outside : Outside) (config : Config) (request : FlowRequest) where
  -- A signature is recorded for the set that was requested and for the one that was signed.
  unfoldable pub record_signature :
      Context → SignedMultisigTx → Option String → Option String → Flow Unit
  record_signature context signed none _ = pure tt
  record_signature context signed (some _) none = pure tt
  record_signature context signed (some jti) (some req) = do
    on_db (
        record_sign_event_sync request.now_ms context.escrow_id_hex context.role context.sign_round
          context.txset_hash_hex jti req)
    lift request.proof_stored
    signed_hash ← lift (txset_sha256_hex outside signed.tx_data_hex)
    let artifact_req =
        sign_req_id outside.sha256_hex context.escrow_id_hex "sign_multisig" context.sign_round
          signed_hash
    on_db (
        record_sign_event_sync request.now_ms context.escrow_id_hex context.role context.sign_round
          signed_hash jti artifact_req)
    lift request.artifact_stored

  unfoldable pub sign_now : Prepared → Context → Flow SignedMultisigTx
  sign_now prepared context = do
    signed ← ask_wallet context prepared.tx_data_hex request.signed
    complete_request request.now_ms context context.req_id (outside.sign_result_json signed)
    record_signature context signed context.jti context.req_id
    audit context success (some "tx_hashes")
    pure signed

  unfoldable pub sign_opened : Prepared → Context → Opened SignedMultisigTx → Flow SignedMultisigTx
  sign_opened prepared context fresh = sign_now prepared context
  sign_opened prepared context (cached signed) = pure signed

  unfoldable pub sign_multisig_flow : Flow SignedMultisigTx
  sign_multisig_flow = do
    agent ← this
    prepared ← lift (prepare outside config request agent.db)
    authorized ←
        authorize outside config request outside.parse_sign_result sign_multisig prepared
          config.verifier request.action_token
    sign_opened prepared authorized.context authorized.opened
