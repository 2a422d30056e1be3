-- ===== src/Signer/Token.antt =====
-- crates/nxms-signer/src/action_token.rs: the tokens that authorize a signature or a submission.
-- `now` is the time in seconds, an argument; the errors are the source's texts without the
-- interpolated values.
pub mod Verify
use nexum_core.Common.{
  ℕ, ◌+◌, ◌-◌, ◌^◌, min, ltb, ◌==◌, String, str_eq, Bool, true, false, ◌&&◌, ◌||◌, not, Option,
  none, some, List, [], ◌∷◌, if◌then◌else◌,
}
use Prim.Native.String.{◌++◌}
use nexum_core.Common.Text.{
  trim, is_empty, all_chars, is_ascii_hexdigit, to_ascii_lowercase, len, present,
}
use nexum_core.Common.Outcome.{Result, ok, err, ensure, ok_or, map_err, ◌>>=◌, ◌>>◌}

pub data SignerRole : Type 0 where
  arbiter : SignerRole
  seller : SignerRole
  buyer : SignerRole

pub record ActionClaims : Type 0 where
  pub iss : String
  pub aud : String
  pub sub : String
  pub scope : String
  pub op : String
  pub role : String
  pub sign_round : String
  pub escrow_id : String
  pub wallet_id : String
  pub sandbox_id : String
  pub txset_hash : String
  pub snapshot_hash : String
  pub nettype : String
  pub runtime_trust_epoch : Option String
  pub escrow_admission_hash : Option String
  pub iat : ℕ
  pub nbf : ℕ
  pub exp : ℕ
  pub jti : String
  pub proof_arbiter_jti : Option String
  pub proof_seller_jti : Option String
  pub proof_arbiter_req_id : Option String
  pub proof_seller_req_id : Option String

pub record VerifiedSignToken : Type 0 where
  pub claims : ActionClaims
  pub req_id : String

-- The algorithm and the key are in the parameter `decode` of `Verify`, the limiter is beside it.
pub record ActionTokenVerifier : Type 0 where
  pub required : Bool
  pub issuer : String
  pub audience : String
  pub clock_skew_secs : ℕ
  pub max_ttl_secs : ℕ
  pub signer_role : SignerRole
  pub sandbox_id : String
  pub wallet_id : String
  pub nettype : String
  pub runtime_trust_epoch : Option String

abbrev pub role_key : SignerRole → String
role_key arbiter = "arbiter"
role_key seller = "seller"
role_key buyer = "buyer"

abbrev pub expected_sign_round : SignerRole → String
expected_sign_round arbiter = "arbiter_first"
expected_sign_round seller = "seller_second"
expected_sign_round buyer = "buyer_second"

abbrev pub expected_submit_round : SignerRole → String
expected_submit_round arbiter = "arbiter_submit"
expected_submit_round seller = "seller_submit"
expected_submit_round buyer = "buyer_submit"

unfoldable pub normalize_hex_64 : String → String → Result String String
normalize_hex_64 value error =
    let trimmed = trim value in
    if len trimmed == 64 && all_chars is_ascii_hexdigit trimmed
    then ok (to_ascii_lowercase trimmed)
    else err error

abbrev pub u64_max : ℕ
u64_max = 2 ^ 64 - 1

unfoldable pub check_times : ActionTokenVerifier → ℕ → ActionClaims → Result String (Unit {0})
check_times verifier now claims = do
  ensure (not (ltb (min (now + verifier.clock_skew_secs) u64_max) claims.iat))
      "action token iat is in the future"
  ensure (not (ltb claims.exp claims.iat)) "action token exp is before iat"
  ensure (not (ltb claims.exp claims.nbf)) "action token exp is before nbf"
  let ttl_from_iat = claims.exp - claims.iat
  let ttl_from_nbf = claims.exp - claims.nbf
  ensure
      (not (
        ttl_from_iat == 0
        || (ltb verifier.max_ttl_secs ttl_from_iat
            || (ttl_from_nbf == 0 || ltb verifier.max_ttl_secs ttl_from_nbf))))
      "action token ttl exceeds max_ttl_secs"

unfoldable pub check_identity :
    ActionTokenVerifier → String → String → ActionClaims → Result String (Unit {0})
check_identity verifier round escrow claims = do
  ensure (not (is_empty (trim claims.sub) || ltb 128 (len claims.sub))) "action token sub invalid"
  ensure (str_eq claims.role (role_key verifier.signer_role)) "action token role mismatch"
  ensure (str_eq claims.sign_round round) "action token sign_round mismatch"
  ensure (str_eq claims.escrow_id escrow) "action token escrow_id mismatch"
  ensure (str_eq claims.sandbox_id verifier.sandbox_id) "action token sandbox_id mismatch"
  ensure (str_eq claims.wallet_id verifier.wallet_id) "action token wallet_id mismatch"
  ensure (str_eq (to_ascii_lowercase (trim claims.nettype)) verifier.nettype)
      "action token nettype mismatch"

unfoldable pub check_trust : Option String → ActionClaims → Result String (Unit {0})
check_trust none claims = ok tt
check_trust (some epoch) claims = do
  claim_epoch ←
      ok_or (present claims.runtime_trust_epoch) "action token runtime_trust_epoch missing"
  ensure (str_eq claim_epoch epoch) "action token runtime_trust_epoch mismatch"
  hash ← ok_or (present claims.escrow_admission_hash) "action token escrow_admission_hash missing"
  _ ← normalize_hex_64 hash "claims.escrow_admission_hash must be 64 hex chars"
  ok tt

-- Both hashes are compared in lower case; the result is the expected one.
unfoldable pub check_hash : String → String → String → String → String → Result String String
check_hash claim expected claim_error expected_error mismatch = do
  claimed ← normalize_hex_64 claim claim_error
  wanted ← normalize_hex_64 expected expected_error
  ensure (str_eq claimed wanted) mismatch
  ok wanted

module _ (sha256_hex : String → String) where
  unfoldable pub sign_req_id : String → String → String → String → String
  sign_req_id escrow op round txset =
      sha256_hex (escrow ++ "|" ++ op ++ "|" ++ round ++ "|" ++ txset)

  -- What is checked of the claims of a token whose signature and registered claims are valid.
  unfoldable pub verify_claims :
      ActionTokenVerifier
      → ℕ
      → String
      → String
      → String
      → String
      → String
      → ActionClaims
      → Result String VerifiedSignToken
  verify_claims verifier now op round escrow txset snapshot claims = do
    ensure (str_eq claims.scope op && str_eq claims.op op) "action token scope/op mismatch"
    check_times verifier now claims
    check_identity verifier round escrow claims
    check_trust verifier.runtime_trust_epoch claims
    ensure (not (is_empty (trim claims.jti) || ltb 256 (len claims.jti))) "action token jti invalid"
    txset_hash ←
        check_hash claims.txset_hash txset "claims.txset_hash must be 64 hex chars"
          "txset_hash_hex must be 64 hex chars" "action token txset_hash mismatch"
    _ ←
        check_hash claims.snapshot_hash snapshot "claims.snapshot_hash must be 64 hex chars"
          "snapshot_hash_hex must be 64 hex chars" "action token snapshot_hash mismatch"
    ok (record { claims = claims; req_id = sign_req_id escrow op claims.sign_round txset_hash })

  -- What a submission's token says of the two signatures that it rests on.
  unfoldable pub check_proofs : String → String → ActionClaims → Result String (Unit {0})
  check_proofs escrow txset claims = do
    arbiter_jti ← ok_or (present claims.proof_arbiter_jti) "submit token missing proof_arbiter_jti"
    seller_jti ← ok_or (present claims.proof_seller_jti) "submit token missing proof_seller_jti"
    arbiter_req ←
        ok_or (present claims.proof_arbiter_req_id) "submit token missing proof_arbiter_req_id"
    seller_req ←
        ok_or (present claims.proof_seller_req_id) "submit token missing proof_seller_req_id"
    ensure (not (str_eq arbiter_jti seller_jti)) "submit token quorum proof jti values must differ"
    ensure (not (ltb 256 (len arbiter_jti) || ltb 256 (len seller_jti)))
        "submit token quorum proof jti too long (max 256 chars)"
    ensure (not (str_eq arbiter_req seller_req))
        "submit token quorum proof req_id values must differ"
    arbiter_hex ← normalize_hex_64 arbiter_req "claims.proof_arbiter_req_id must be 64 hex chars"
    seller_hex ← normalize_hex_64 seller_req "claims.proof_seller_req_id must be 64 hex chars"
    txset_hash ← normalize_hex_64 txset "txset_hash_hex must be 64 hex chars"
    ensure (str_eq arbiter_hex (sign_req_id escrow "sign_multisig" "arbiter_first" txset_hash))
        "submit token proof_arbiter_req_id does not match expected arbiter sign req_id"
    ensure (str_eq seller_hex (sign_req_id escrow "sign_multisig" "seller_second" txset_hash))
        "submit token proof_seller_req_id does not match expected seller sign req_id"
