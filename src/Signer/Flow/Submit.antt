-- ===== src/Signer/Flow/Submit.antt =====
-- crates/nxms-signer/src/agent/flow_ops.rs: `submit_multisig_flow`.
use nexum_core.Common.{String, str_eq, ◌&&◌, Option, none, some, List, if◌then◌else◌}
use nexum_core.Common.Text.{present}
use nexum_core.Common.Outcome.{Result, ok, err, ok_or}
use nexum_core.Common.Method.{pure, lift, this, ◌>>=◌, ◌>>◌}
use nexum_core.Signer.Db.Requests.{get_sign_event_sync, abort_sign_request_sync}
use nexum_core.Signer.Bridge.{verify_submit_seller_quorum_proof}
use nexum_core.Signer.Token.{VerifiedSignToken}
use nexum_core.Signer.Flow.{submit_multisig, Context, success, Flow, on_db, audit, reject}
use nexum_core.Signer.Flow.Request.{Opened, fresh, cached}
use nexum_core.Signer.Flow.Prepare.{Outside, Config, FlowRequest, Prepared, prepare}
use nexum_core.Signer.Flow.Authorize.{authorize}
use nexum_core.Signer.Flow.Wallet.{ask_wallet, complete_request}

-- The request is opened again, and the submission refused.
unfoldable pub deny : {A : Type 0} → Context → VerifiedSignToken → String → Flow A
deny context verified error = do
  on_db (abort_sign_request_sync verified.req_id)
  reject context error

-- `let Some(v) = … else { …; return Err(err) }`
unfoldable pub or_deny : {A : Type 0} → Context → VerifiedSignToken → Option A → String → Flow A
or_deny context verified none error = deny context verified error
or_deny context verified (some a) error = pure a

unfoldable pub check_or_deny : Context → VerifiedSignToken → Result String (Unit {0}) → Flow Unit
check_or_deny context verified (ok _) = pure tt
check_or_deny context verified (err e) = deny context verified e

module _ (config : Config) (request : FlowRequest) where
  abbrev pub seller_answer : Context → String → String → Result String (Unit {0})
  seller_answer context seller_jti seller_req_id =
      verify_submit_seller_quorum_proof request.bundle context.escrow_id_hex context.txset_hash_hex
        seller_jti seller_req_id config.production_hardening config.verify_env

module _ (outside : Outside) (config : Config) (request : FlowRequest) where
  -- The arbiter's signature is the one that this signer recorded; the seller's is compared with what the
  -- orchestrator answers.
  unfoldable pub check_quorum : Context → VerifiedSignToken → Flow Unit
  check_quorum context verified = do
    found ←
        on_db (
          get_sign_event_sync context.escrow_id_hex "arbiter" "arbiter_first"
            context.txset_hash_hex)
    local ←
        or_deny context verified found
          "submit denied: missing local quorum proof event arbiter_first"
    jti ← lift (
        ok_or (present verified.claims.proof_arbiter_jti)
          "submit denied: missing proof_arbiter_jti")
    req ← lift (
        ok_or (present verified.claims.proof_arbiter_req_id)
          "submit denied: missing proof_arbiter_req_id")
    check_or_deny context verified (
        if str_eq local.0 jti && str_eq local.1 req
        then ok tt
        else err "submit denied: local arbiter quorum proof mismatch (token vs signer db)")
    seller_jti ←
        or_deny context verified (present verified.claims.proof_seller_jti)
          "submit denied: missing seller quorum proof in action token"
    seller_req_id ←
        or_deny context verified (present verified.claims.proof_seller_req_id)
          "submit denied: missing seller req_id quorum proof in action token"
    check_or_deny context verified (seller_answer config request context seller_jti seller_req_id)

  unfoldable pub check_token_quorum : Context → Option VerifiedSignToken → Flow Unit
  check_token_quorum context none = pure tt
  check_token_quorum context (some verified) = check_quorum context verified

  unfoldable pub submit_now : Prepared → Context → Flow (List String)
  submit_now prepared context = do
    hashes ← ask_wallet context prepared.tx_data_hex request.submitted
    complete_request request.now_ms context context.req_id (outside.submit_result_json hashes)
    audit context success (some "tx_hashes")
    pure hashes

  unfoldable pub submit_fresh : Prepared → Context → Option VerifiedSignToken → Flow (List String)
  submit_fresh prepared context token = do
    check_token_quorum context token
    submit_now prepared context

  unfoldable pub submit_opened :
      Prepared → Context → Option VerifiedSignToken → Opened (List String) → Flow (List String)
  submit_opened prepared context token fresh = submit_fresh prepared context token
  submit_opened prepared context token (cached hashes) = pure hashes

  unfoldable pub submit_multisig_flow : Flow (List String)
  submit_multisig_flow = do
    agent ← this
    prepared ← lift (prepare outside config request agent.db)
    authorized ←
        authorize outside config request outside.parse_submit_result submit_multisig prepared
          config.verifier request.action_token
    submit_opened prepared authorized.context authorized.token authorized.opened
