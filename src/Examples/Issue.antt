-- ===== src/Examples/Issue.antt =====
-- The theorems on the stored proofs and on the issue of tokens at concrete inputs.
use nexum_core.Common.{
  ℕ, String, str_eq, ◌≡◌, refl, sym, ap, none, some, Option, [], ◌∷◌, arith, if◌then◌else◌,
}
use nexum_core.Common.Rows.{find_row, any_row, count_rows, upsert_row}
use nexum_core.Common.Table.{lookup, insert, retain}
use nexum_core.Common.Text.{trim, all_chars, to_ascii_lowercase, to_ascii_uppercase, present}
use nexum_core.Common.Outcome.{Result, ok}
use nexum_core.Orchestrator.Flow.{tx_sign_pending}
use nexum_core.Orchestrator.Db.{
  OrchestratorDb, WorkflowInstance, QuorumSignProof, normalize_hex_exact, normalize_non_empty,
}
use nexum_core.Orchestrator.Db.Inputs.{
  normalize_jti, normalize_worker_role, normalize_quorum_sign_round_for_role, round_of_role,
}
use nexum_core.Orchestrator.Db.Artifacts.{
  get_workflow_sync, get_proposal_blob_by_txset_hash_sync, get_escrow_admission_artifact_sync,
}
use nexum_core.Orchestrator.Db.Workflows.{find_workflow}
use nexum_core.Orchestrator.Db.Proofs.{
  store_proof, write_proof, upsert_quorum_sign_proof_sync, get_submit_multisig_proof_bundle_sync,
  get_quorum_sign_proof_tx,
}
use nexum_core.Orchestrator.Db.Proofs.Bundle.{IsTable, upsert_keeps_proofs}
use nexum_core.Orchestrator.Db.Proofs.Pair.{bundle-upsert}
use nexum_core.Orchestrator.Token.{
  arbiter, ActionTokenOp, sign_multisig, submit_multisig, IssueActionTokenParams,
  IssuedActionTokenOutput, ActionTokenClaims, base_claims, with_proofs, admission_hash,
  apply_submit_proof_bundle,
}
use nexum_core.Orchestrator.Token as Token
use nexum_core.Orchestrator.Token.Issue.{new_jti, add_proofs, build_claims, issue_action_token}
use nexum_core.Orchestrator.Token.Params.{
  ActionTokenCliInput, IssuerBundle, IsIssuable, build_issue_params, build-IsIssuable,
  required_text, resolve_role_required, resolve_role_optional, check_trust_bundle, parse_algorithm,
  env_name,
}
use nexum_core.Orchestrator.Token.Claims.{Issued, issue-Issued}
use nexum_core.Orchestrator.Token.Accepted.{as_action_claims, Agrees, InTime, IsTokenId}
use nexum_core.Orchestrator.Token.Accepted.Verify.{verified}
use nexum_core.Orchestrator.Token.Accepted.Sign.{issued_sign_token_accepted}
use nexum_core.Orchestrator.Token.Accepted.Submit.{issued_submit_token_accepted}
use nexum_core.Signer.VerifyLimiter.{check, make_room}
use nexum_core.Signer.Token.{ActionClaims, ActionTokenVerifier, sign_req_id}
use nexum_core.Signer.Token.Verify.{verify_sign_multisig, verify_submit_multisig}
use nexum_core.Examples.Party.{
  escrow_hex, hash_hex, arbiter_hex, other_hex, sha256_hex, limits, verifier,
}

abbrev workflow : WorkflowInstance
workflow = record {
  escrow_id_hex = escrow_hex;
  state = tx_sign_pending;
  snapshot_hash_hex = hash_hex;
  participants = "arbiter" ∷ "seller" ∷ [];
  created_at_ms = 1;
  updated_at_ms = 1;
}

abbrev start : OrchestratorDb
start = record {
  workflow_instances = workflow ∷ [];
  workflow_steps = [];
  outbox = [];
  last_outbox_id = 0;
  inbox_offsets = [];
  dead_letters = [];
  proposal_blobs =
      record {
        escrow_id_hex = escrow_hex;
        action = "release";
        tx_data_hex = "00ff";
        txset_hash_hex = hash_hex;
        created_at_ms = 1;
        updated_at_ms = 1;
      }
      ∷ [];
  escrow_admission_artifacts = [];
  quorum_sign_proofs = [];
}

abbrev with_arbiter : OrchestratorDb
with_arbiter =
    (upsert_quorum_sign_proof_sync 5 escrow_hex "arbiter" "arbiter_first" hash_hex "s1" arbiter_hex
      start).1

abbrev db : OrchestratorDb
db =
    (upsert_quorum_sign_proof_sync 6 escrow_hex "seller" "seller_second" hash_hex "s2" other_hex
      with_arbiter).1

start-IsTable : IsTable start
unfolding count_rows
start-IsTable = record { proofs = tt; keyed = λ _. omega arith; single = λ _. omega arith }

with_arbiter-IsTable : IsTable with_arbiter
with_arbiter-IsTable =
    upsert_keeps_proofs 5 escrow_hex "arbiter" "arbiter_first" hash_hex "s1" arbiter_hex start
      start-IsTable

db-IsTable : IsTable db
db-IsTable =
    upsert_keeps_proofs 6 escrow_hex "seller" "seller_second" hash_hex "s2" other_hex with_arbiter
      with_arbiter-IsTable

upsert_keeps_proofs_example : IsTable db
upsert_keeps_proofs_example =
    upsert_keeps_proofs 6 escrow_hex "seller" "seller_second" hash_hex "s2" other_hex with_arbiter
      with_arbiter-IsTable

bundle-upsert_example : get_submit_multisig_proof_bundle_sync 7 escrow_hex hash_hex db ≡ (
  ok (record {
    escrow_id_hex = escrow_hex;
    txset_hash_hex = hash_hex;
    proof_arbiter_jti = "s1";
    proof_arbiter_req_id = arbiter_hex;
    proof_seller_jti = "s2";
    proof_seller_req_id = other_hex;
    arbiter_proof_updated_at_ms = 5;
    seller_proof_updated_at_ms = 6;
    generated_at_ms = 7;
  }),
  db,
)
unfolding normalize_hex_exact normalize_jti normalize_non_empty trim all_chars to_ascii_lowercase
    find_workflow any_row
bundle-upsert_example =
    bundle-upsert escrow_hex hash_hex "s1" arbiter_hex "s2" other_hex refl refl refl refl refl refl
      start workflow refl refl 5 6 7 refl refl refl refl

abbrev input : ActionTokenOp → ActionTokenCliInput
input op = record {
  escrow_id_hex = escrow_hex;
  txset_hash_hex = hash_hex;
  role = arbiter;
  op = op;
  ttl_secs = some 30;
  subject = some " operator";
  wallet_id = some "w";
  sandbox_id = none;
  audience = none;
  nettype = some "mainnet";
}

abbrev params : ActionTokenOp → IssueActionTokenParams
params op = record {
  escrow_id_hex = escrow_hex;
  txset_hash_hex = hash_hex;
  role = arbiter;
  op = op;
  issuer = "nexum";
  ttl_secs = 30;
  subject = "operator";
  wallet_id = "w";
  sandbox_id = "s";
  audience = "sandbox:s";
  nettype = "mainnet";
  runtime_trust_epoch = none;
}

abbrev env : String → Option String
env name = if str_eq name "NXMS_ORCH_ACTION_TOKEN_ARBITER_SANDBOX_ID" then some "s " else none

abbrev vault : Result String IssuerBundle
vault = ok (record { issuer = "nexum"; algorithm = "EdDSA"; public_key_pem = "key" })

params_built :
    (op : ActionTokenOp)
    → build_issue_params env (ok none) vault (λ a. ok tt) (input op) ≡ ok (params op)
unfolding build_issue_params normalize_hex_exact trim all_chars to_ascii_lowercase parse_algorithm
    to_ascii_uppercase check_trust_bundle required_text resolve_role_required resolve_role_optional
    Token.normalize_non_empty env_name present
params_built op = refl

build-IsIssuable_example : IsIssuable (params sign_multisig)
build-IsIssuable_example =
    build-IsIssuable env (ok none) vault (λ a. ok tt) (input sign_multisig) (params sign_multisig)
      (params_built sign_multisig)

issuable : (op : ActionTokenOp) → IsIssuable (params op)
issuable op =
    build-IsIssuable env (ok none) vault (λ a. ok tt) (input op) (params op) (params_built op)

agrees : (op : ActionTokenOp) → Agrees (params op) verifier
unfolding to_ascii_lowercase
agrees op = record {
  role = refl;
  sandbox = refl;
  wallet = refl;
  nettype = refl;
  subject = omega arith;
  ttl = omega arith;
  epoch = tt;
}

in_time : (op : ActionTokenOp) → InTime (params op) verifier 1000 1001
in_time op = record { known = omega arith; fits = omega arith }

-- Every number is written in the same way.
abbrev to_text : ℕ → String
to_text n = "1"

abbrev encode : ActionTokenClaims → Result String String
encode claims = ok "token"

abbrev base : ActionTokenOp → ActionTokenClaims
base op = base_claims 1000 (new_jti to_text 1000 "00ff" arbiter op) (params op) hash_hex none

abbrev sign_output : IssuedActionTokenOutput
sign_output = record { token = "token"; claims = base sign_multisig }

abbrev submit_output : IssuedActionTokenOutput
submit_output = record {
  token = "token";
  claims = with_proofs (base submit_multisig) "s1" "s2" arbiter_hex other_hex;
}

sign_issued :
    issue_action_token to_text encode 1000 1000 7 "00ff" (params sign_multisig) start
    ≡ (ok sign_output, start)
unfolding issue_action_token build_claims add_proofs get_workflow_sync
    get_proposal_blob_by_txset_hash_sync get_escrow_admission_artifact_sync normalize_hex_exact trim
    all_chars to_ascii_lowercase find_workflow find_row admission_hash
sign_issued = refl

submit_issued :
    issue_action_token to_text encode 1000 1000 7 "00ff" (params submit_multisig) db
    ≡ (ok submit_output, db)
unfolding issue_action_token build_claims add_proofs get_workflow_sync
    get_proposal_blob_by_txset_hash_sync get_escrow_admission_artifact_sync normalize_hex_exact trim
    all_chars to_ascii_lowercase find_workflow find_row admission_hash apply_submit_proof_bundle
    Token.normalize_non_empty get_submit_multisig_proof_bundle_sync get_quorum_sign_proof_tx
    upsert_quorum_sign_proof_sync store_proof write_proof upsert_row any_row normalize_worker_role
    normalize_quorum_sign_round_for_role round_of_role normalize_jti normalize_non_empty base_claims
submit_issued = refl

token_id : (op : ActionTokenOp) → IsTokenId (new_jti to_text 1000 "00ff" arbiter op)
unfolding new_jti trim
token_id sign_multisig = record { inked = refl; bounded = omega arith }
token_id submit_multisig = record { inked = refl; bounded = omega arith }

abbrev req_of : String → Option QuorumSignProof → String
req_of other none = other
req_of other (some p) = p.req_id

abbrev decode :
    IssuedActionTokenOutput → ActionTokenVerifier → ℕ → String → Result String ActionClaims
decode out v now token = ok (as_action_claims out.claims)

issue-Issued_example :
    Issued to_text 1000 1000 "00ff" (params submit_multisig) db submit_output.claims
issue-Issued_example =
    issue-Issued (params submit_multisig) (issuable submit_multisig) to_text encode 1000 1000 7
      "00ff" db db submit_output submit_issued

issued_sign_token_accepted_example :
    verify_sign_multisig sha256_hex
      (decode sign_output)
      verifier
      limits
      1001
      "token"
      escrow_hex
      hash_hex
      hash_hex
      []
    ≡ (
      ok (verified sha256_hex (params sign_multisig) sign_output.claims),
      (check limits (sha256_hex "token") 1001 []).1,
    )
unfolding check make_room retain lookup insert find_workflow
issued_sign_token_accepted_example =
    issued_sign_token_accepted sha256_hex (decode sign_output) verifier limits to_text encode
      (params sign_multisig) (issuable sign_multisig) (agrees sign_multisig) 1000 1000 7 1001 "00ff"
      (in_time sign_multisig) (token_id sign_multisig) start start sign_output sign_issued workflow
      refl refl [] _ refl refl

arbiter_made :
    (p : QuorumSignProof)
    → get_quorum_sign_proof_tx escrow_hex "arbiter" "arbiter_first" hash_hex db ≡ some p
    → p.req_id ≡ sign_req_id sha256_hex escrow_hex "sign_multisig" "arbiter_first" hash_hex
unfolding get_quorum_sign_proof_tx sign_req_id find_row normalize_hex_exact trim all_chars
    to_ascii_lowercase upsert_quorum_sign_proof_sync store_proof write_proof upsert_row any_row
    normalize_worker_role normalize_quorum_sign_round_for_role round_of_role normalize_jti
    normalize_non_empty find_workflow
arbiter_made p e = ap (req_of "") (sym e)

seller_made :
    (p : QuorumSignProof)
    → get_quorum_sign_proof_tx escrow_hex "seller" "seller_second" hash_hex db ≡ some p
    → p.req_id ≡ sign_req_id sha256_hex escrow_hex "sign_multisig" "seller_second" hash_hex
unfolding get_quorum_sign_proof_tx sign_req_id find_row normalize_hex_exact trim all_chars
    to_ascii_lowercase upsert_quorum_sign_proof_sync store_proof write_proof upsert_row any_row
    normalize_worker_role normalize_quorum_sign_round_for_role round_of_role normalize_jti
    normalize_non_empty find_workflow
seller_made p e = ap (req_of "") (sym e)

issued_submit_token_accepted_example :
    verify_submit_multisig sha256_hex
      (decode submit_output)
      verifier
      limits
      1001
      "token"
      escrow_hex
      hash_hex
      hash_hex
      []
    ≡ (
      ok (verified sha256_hex (params submit_multisig) submit_output.claims),
      (check limits (sha256_hex "token") 1001 []).1,
    )
unfolding check make_room retain lookup insert find_workflow upsert_quorum_sign_proof_sync any_row
    store_proof write_proof normalize_hex_exact trim all_chars to_ascii_lowercase
    normalize_worker_role normalize_quorum_sign_round_for_role round_of_role normalize_jti
    normalize_non_empty upsert_row
issued_submit_token_accepted_example =
    issued_submit_token_accepted sha256_hex (decode submit_output) verifier limits to_text encode
      (params submit_multisig) (issuable submit_multisig) (agrees submit_multisig) 1000 1000 7 1001
      "00ff" (in_time submit_multisig) (token_id submit_multisig) db db submit_output submit_issued
      workflow refl refl [] _ refl refl db-IsTable.proofs arbiter_made seller_made
