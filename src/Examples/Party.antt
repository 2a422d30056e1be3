-- ===== src/Examples/Party.antt =====
-- A signer, its configuration, its requests and the code around it, for the examples.
use nexum_core.Common.{ℕ, String, str_eq, true, false, none, some, [], ◌∷◌, if◌then◌else◌}
use nexum_core.Common.Outcome.{Result, ok, err}
use nexum_core.Signer.Db.{active}
use nexum_core.Transport.Admission.{
  release, EscrowAdmissionSignature, EscrowAdmissionArtifact, RuntimeTrustPeer, RuntimeTrustBundle,
  Falcon,
}
use nexum_core.Signer.Snapshot.{exact, PayoutPolicy, ContractSnapshot, TransferCheck}
use nexum_core.Signer.VerifyLimiter.{VerifyRateLimits, new_limits}
use nexum_core.Signer.Token.{ActionClaims, ActionTokenVerifier, arbiter}
use nexum_core.Signer.Flow.{Agent}
use nexum_core.Signer.Flow.Prepare.{Outside, Config, FlowRequest}

abbrev pub escrow_hex : String
escrow_hex = "00112233445566778899aabbccddeeff"

-- The hash of every transaction set and of every snapshot.
abbrev pub hash_hex : String
hash_hex = "cccccccccccccccccccccccccccccccccccccccccccccccccccccccccccccccc"

abbrev pub arbiter_hex : String
arbiter_hex = "aaaaaaaaaaaaaaaaaaaaaaaaaaaaaaaaaaaaaaaaaaaaaaaaaaaaaaaaaaaaaaaa"

abbrev pub other_hex : String
other_hex = "bbbbbbbbbbbbbbbbbbbbbbbbbbbbbbbbbbbbbbbbbbbbbbbbbbbbbbbbbbbbbbbb"

-- Two values: one for the arbiter's request to sign, one for all else.
abbrev pub sha256_hex : String → String
sha256_hex text =
    if str_eq text
      "00112233445566778899aabbccddeeff|sign_multisig|arbiter_first|cccccccccccccccccccccccccccccccccccccccccccccccccccccccccccccccc"
    then arbiter_hex
    else other_hex

abbrev pub limits : VerifyRateLimits
limits = new_limits 30 60 1024

abbrev pub verifier : ActionTokenVerifier
verifier = record {
  required = true;
  issuer = "nexum";
  audience = "sandbox:s";
  clock_skew_secs = 5;
  max_ttl_secs = 60;
  signer_role = arbiter;
  sandbox_id = "s";
  wallet_id = "w";
  nettype = "mainnet";
  runtime_trust_epoch = none;
}

-- The claims of a token, which is its own jti.
abbrev pub claims : String → String → String → ActionClaims
claims op round token = record {
  iss = "nexum";
  aud = "sandbox:s";
  sub = "operator";
  scope = op;
  op = op;
  role = "arbiter";
  sign_round = round;
  escrow_id = escrow_hex;
  wallet_id = "w";
  sandbox_id = "s";
  txset_hash = hash_hex;
  snapshot_hash = hash_hex;
  nettype = "mainnet";
  runtime_trust_epoch = none;
  escrow_admission_hash = none;
  iat = 1000;
  nbf = 1000;
  exp = 1030;
  jti = token;
  proof_arbiter_jti = some "s1";
  proof_seller_jti = some "s2";
  proof_arbiter_req_id = some arbiter_hex;
  proof_seller_req_id = some other_hex;
}

abbrev pub decode : ActionTokenVerifier → ℕ → String → Result String ActionClaims
decode v now token =
    if str_eq token "sub"
    then ok (claims "submit_multisig" "arbiter_submit" token)
    else ok (claims "sign_multisig" "arbiter_first" token)

abbrev pub policy : PayoutPolicy
policy = record {
  allowed_recipients =
      record { address = "seller_address"; amount = exact 100; required = true } ∷ [];
  allow_split_tx = false;
  allow_dummy_outputs = false;
}

abbrev pub snapshot : ContractSnapshot
snapshot = record {
  app_proto = "ESCROW/1";
  escrow_id_hex = escrow_hex;
  buyer_id = "buyer";
  seller_id = "seller";
  arbiter_id = "arbiter";
  release_policy = policy;
  refund_policy = policy;
  fee_cap_atomic = 10;
  require_unlock_time_zero = true;
  created_at_unix_ms = 1;
  updated_at_unix_ms = 1;
}

abbrev pub transfer : TransferCheck
transfer = record {
  tx_count = 1;
  recipients = record { address = "seller_address"; amount = 100 } ∷ [];
  fee = 7;
  unlock_time = 0;
  dummy_outputs = 0;
}

abbrev pub guard : String → String → RuntimeTrustPeer
guard id role = record {
  id = id;
  role = role;
  host = "localhost";
  port = 1;
  kem_pk_b64 = "kem";
  sig_pk_b64 = id;
}

abbrev pub bundle : RuntimeTrustBundle
bundle = record { trust_epoch = "epoch-1"; peers = guard "g1" "ag-01" ∷ guard "g2" "ag-02" ∷ [] }

abbrev pub guard_signature : String → String → EscrowAdmissionSignature
guard_signature id role = record {
  signer_id = id;
  signer_role = role;
  sig_pk_b64 = id;
  sig_b64 = "sig";
  hash_hex = hash_hex;
  alg = "Falcon-1024-CT";
  created_at_unix_ms = 1;
}

abbrev pub artifact : EscrowAdmissionArtifact
artifact = record {
  schema = "nxms-escrow-admission/v1";
  escrow_id_hex = escrow_hex;
  snapshot_hash_hex = hash_hex;
  action = release;
  runtime_trust_epoch = "epoch-1";
  admitted_at_unix_ms = 1;
  signatures = guard_signature "g2" "ag-02" ∷ guard_signature "g1" "ag-01" ∷ [];
}

abbrev pub artifact_hash : EscrowAdmissionArtifact → Result String String
artifact_hash _ = ok hash_hex

abbrev pub falcon_verify : Falcon
falcon_verify key hash signature = if str_eq signature "sig" then ok tt else err "bad signature"

abbrev pub outside : Outside
outside = record {
  sha256_hex = sha256_hex;
  sha256_of_hex = λ _. ok hash_hex;
  decode = decode;
  parse_snapshot = λ _. ok snapshot;
  policy_hash = λ _. ok hash_hex;
  parse_sign_result = λ _. err "no result";
  sign_result_json = λ _. "{}";
  parse_submit_result = λ _. err "no result";
  submit_result_json = λ _. "{}";
  seal = record {
    parse_artifact = λ _. ok artifact;
    artifact_hash = artifact_hash;
    falcon_verify = falcon_verify;
  };
}

abbrev pub config : Config
config = record {
  max_txset_hex_len = 100;
  signer_role = arbiter;
  verifier = some (verifier, limits);
  runtime_trust_bundle = some bundle;
  production_hardening = true;
  verify_env = true;
}

abbrev pub request : String → FlowRequest
request token = record {
  escrow_id_hex = escrow_hex;
  action = release;
  tx_data_hex = "00ff";
  action_token = some token;
  now_s = 1001;
  now_ms = 1001000;
  wallet_open = ok tt;
  described = ok transfer;
  signed = ok (record { tx_data_hex = "00ff"; tx_hash_list = [] });
  submitted = ok ("hash" ∷ []);
  proof_stored = ok tt;
  artifact_stored = ok tt;
  bundle = ok (record {
    escrow_id_hex = escrow_hex;
    txset_hash_hex = hash_hex;
    proof_arbiter_jti = "s1";
    proof_arbiter_req_id = arbiter_hex;
    proof_seller_jti = "s2";
    proof_seller_req_id = other_hex;
    arbiter_proof_updated_at_ms = 5;
    seller_proof_updated_at_ms = 6;
    generated_at_ms = 7;
  });
}

-- An active snapshot with one signature.
abbrev pub agent : Agent
agent = record {
  db = record {
    incoming_seen = [];
    out_seq = [];
    snapshots =
        record {
          hash_hex = hash_hex;
          escrow_id_hex = escrow_hex;
          snapshot_json = "{}";
          status = active;
          created_at_ms = 1;
        }
        ∷ [];
    snapshot_sigs =
        record {
          signer_id = "bob";
          sig_pk_b64 = "pk";
          sig_b64 = "sig";
          hash_hex = hash_hex;
          alg = "Falcon-1024-CT";
          created_at_unix_ms = 2;
        }
        ∷ [];
    sign_request_dedup = [];
    sign_request_result = [];
    consumed_action_jti = [];
    sign_events = [];
    escrow_admission_artifacts =
        record {
          escrow_id_hex = escrow_hex;
          snapshot_hash_hex = hash_hex;
          action = "release";
          runtime_trust_epoch = "epoch-1";
          artifact_hash_hex = hash_hex;
          artifact_json = "{}";
          created_at_ms = 1;
          updated_at_ms = 1;
        }
        ∷ [];
  };
  limiter = [];
  audit_log = [];
  wallet_calls = [];
}
