-- ===== src/Signer/Flow/Authorize.antt =====
-- crates/nxms-signer/src/agent/flow_ops.rs: how a request is authorized by its token.
use nexum_core.Common.{String, Option, none, some}
use nexum_core.Common.Outcome.{Result}
use nexum_core.Common.Method.{pure, lift, this, ◌>>=◌, ◌>>◌}
use nexum_core.Signer.VerifyLimiter.{VerifyRateLimits}
use nexum_core.Signer.Token.{
  ActionTokenVerifier, VerifiedSignToken, SignerRole, role_key, expected_sign_round,
  expected_submit_round,
}
use nexum_core.Signer.Token.Verify.{Verify, verify_sign_multisig, verify_submit_multisig}
use nexum_core.Signer.Flow.{
  Operation, sign_multisig, submit_multisig, Context, Flow, reject, or_reject,
}
use nexum_core.Signer.Flow.Request.{Opened, fresh, open_request}
use nexum_core.Signer.Flow.Prepare.{Outside, Config, FlowRequest, Prepared, admitted}

abbrev pub default_round : Operation → SignerRole → String
default_round sign_multisig role = expected_sign_round role
default_round submit_multisig role = expected_submit_round role

-- The context before a token is verified.
abbrev pub first_context : Operation → SignerRole → Prepared → Context
first_context op role prepared = record {
  op = op;
  escrow_id_hex = prepared.escrow_id_hex;
  role = role_key role;
  sign_round = default_round op role;
  req_id = none;
  txset_hash_hex = prepared.txset_hash_hex;
  snapshot_hash_hex = prepared.snapshot_hash_hex;
  jti = none;
  exp = none;
}

abbrev pub verified_context : Context → VerifiedSignToken → Context
verified_context context verified = record context {
  role = verified.claims.role;
  sign_round = verified.claims.sign_round;
  req_id = some verified.req_id;
  jti = some verified.claims.jti;
  exp = some verified.claims.exp;
}

-- How far a request is open, and for which token.
pub record Authorized (A : Type 0) : Type 0 where
  pub opened : Opened A
  pub context : Context
  pub token : Option VerifiedSignToken

abbrev pub on_limiter : {A : Type 0} → Verify A → Flow A
on_limiter verify agent =
    let (answer, table) = verify agent.limiter in (answer, record agent { limiter = table })

module _ (outside : Outside) (config : Config) (request : FlowRequest) where
  unfoldable pub verify_token :
      Operation
      → ActionTokenVerifier
      → VerifyRateLimits
      → Prepared
      → String
      → Verify VerifiedSignToken
  verify_token sign_multisig verifier limits prepared token =
      verify_sign_multisig outside.sha256_hex outside.decode verifier limits request.now_s token
        prepared.escrow_id_hex prepared.txset_hash_hex prepared.snapshot_hash_hex
  verify_token submit_multisig verifier limits prepared token =
      verify_submit_multisig outside.sha256_hex outside.decode verifier limits request.now_s token
        prepared.escrow_id_hex prepared.txset_hash_hex prepared.snapshot_hash_hex

  module _ {A : Type 0} (parse : String → Result String A) (op : Operation)
      (prepared : Prepared) where
    unfoldable pub open_verified : VerifiedSignToken → Flow (Authorized A)
    open_verified verified = do
      agent ← this
      let context = verified_context (first_context op config.signer_role prepared) verified
      lift (
          admitted outside config request agent.db prepared.escrow_id_hex prepared.snapshot_hash_hex
            verified.claims.escrow_admission_hash)
      opened ← open_request parse request.now_ms context verified
      pure (record { opened = opened; context = context; token = some verified })

    unfoldable pub authorize :
        Option (ActionTokenVerifier × VerifyRateLimits) → Option String → Flow (Authorized A)
    authorize none token = pure (record {
      opened = fresh;
      context = first_context op config.signer_role prepared;
      token = none;
    })
    authorize (some _) none =
        reject (first_context op config.signer_role prepared)
          "action token required in current signer configuration"
    authorize (some (verifier, limits)) (some token) = do
      verified ←
          or_reject (first_context op config.signer_role prepared)
            (on_limiter (verify_token op verifier limits prepared token))
      open_verified verified
