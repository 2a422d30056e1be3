-- ===== src/Transport/Admission.antt =====
-- crates/nxms-transport/src/admission.rs: the artifact by which two guards admit an escrow, and its check
-- against the trust bundle (trust.rs). The hash of an artifact and the Falcon signature are parameters.
pub mod Guards
use nexum_core.Common.{
  ℕ, ltb, ◌==◌, String, str_eq, Bool, true, false, ◌&&◌, ◌||◌, not, Option, none, some, List, [],
  ◌∷◌, length, if◌then◌else◌,
}
use nexum_core.Common.Text.{trim, len, is_empty, all_chars, is_ascii_hexdigit, to_ascii_lowercase}
use nexum_core.Common.Outcome.{Result, ok, err, ensure, ok_or, ◌>>=◌, ◌>>◌}
use nexum_core.Common.Rows.{any_row, find_row}

-- crates/nxms-transport/src/wire.rs
pub data EscrowAction : Type 0 where
  release : EscrowAction
  refund : EscrowAction

pub record EscrowAdmissionSignature : Type 0 where
  pub signer_id : String
  pub signer_role : String
  pub sig_pk_b64 : String
  pub sig_b64 : String
  pub hash_hex : String
  pub alg : String
  pub created_at_unix_ms : ℕ

pub record EscrowAdmissionArtifact : Type 0 where
  pub schema : String
  pub escrow_id_hex : String
  pub snapshot_hash_hex : String
  pub action : EscrowAction
  pub runtime_trust_epoch : String
  pub admitted_at_unix_ms : ℕ
  pub signatures : List EscrowAdmissionSignature

pub record RuntimeTrustPeer : Type 0 where
  pub id : String
  pub role : String
  pub host : String
  pub port : ℕ
  pub kem_pk_b64 : String
  pub sig_pk_b64 : String

-- The fields that the check reads.
pub record RuntimeTrustBundle : Type 0 where
  pub trust_epoch : String
  pub peers : List RuntimeTrustPeer

abbrev pub required_guard_roles : List String
required_guard_roles = "ag-01" ∷ "ag-02" ∷ []

unfoldable pub normalize_non_empty_up_to : String → ℕ → String → Result String String
normalize_non_empty_up_to value max_len error =
    let trimmed = trim value in
    if is_empty trimmed || ltb max_len (len trimmed) then err error else ok trimmed

unfoldable pub validate_hex_exact : String → ℕ → String → Result String (Unit {0})
validate_hex_exact value expected_len error =
    let trimmed = trim value in
    ensure (len trimmed == expected_len && all_chars is_ascii_hexdigit trimmed) error

unfoldable pub validate_unsigned : EscrowAdmissionArtifact → Result String (Unit {0})
validate_unsigned artifact = do
  ensure (str_eq (trim artifact.schema) "nxms-escrow-admission/v1")
      "escrow admission schema mismatch"
  validate_hex_exact artifact.escrow_id_hex 32 "escrow_id_hex must be exactly 32 hex chars"
  validate_hex_exact artifact.snapshot_hash_hex 64 "snapshot_hash_hex must be exactly 64 hex chars"
  let epoch = trim artifact.runtime_trust_epoch
  ensure (not (is_empty epoch || ltb 128 (len epoch))) "runtime_trust_epoch must be 1..=128 chars"

abbrev pub is_peer : String → RuntimeTrustPeer → Bool
is_peer id peer = str_eq peer.id id

-- What a parameter knows of Falcon: key, hash and signature, all as texts.
abbrev pub Falcon : Type 0
Falcon = String → String → String → Result String (Unit {0})

module _ (falcon_verify : Falcon) (bundle : RuntimeTrustBundle) (hash : String) where
  -- The id and the role that are seen.
  unfoldable pub check_signature :
      List String → List String → EscrowAdmissionSignature → Result String (String × String)
  check_signature seen_ids seen_roles signature = do
    id ←
        normalize_non_empty_up_to signature.signer_id 128
          "signature.signer_id must be 1..=128 chars"
    role ←
        normalize_non_empty_up_to signature.signer_role 128
          "signature.signer_role must be 1..=128 chars"
    ensure (any_row (str_eq role) required_guard_roles)
        "escrow admission signature role is not part of AG quorum"
    ensure (not (any_row (str_eq id) seen_ids)) "duplicate escrow admission signer_id"
    ensure (not (any_row (str_eq role) seen_roles)) "duplicate escrow admission signer_role"
    ensure (str_eq (trim signature.alg) "Falcon-1024-CT")
        "unsupported escrow admission signature algorithm"
    ensure (str_eq (to_ascii_lowercase (trim signature.hash_hex)) hash)
        "escrow admission signature hash mismatch"
    peer ←
        ok_or (find_row (is_peer id) bundle.peers)
          "escrow admission signer not in runtime trust bundle"
    ensure (str_eq peer.role role) "escrow admission signer role mismatch"
    ensure (str_eq peer.sig_pk_b64 signature.sig_pk_b64) "escrow admission signer sig_pk mismatch"
    falcon_verify signature.sig_pk_b64 hash signature.sig_b64
    ok (id, role)

  unfoldable pub check_signatures :
      List String → List String → List EscrowAdmissionSignature → Result String (List String)
  check_signatures seen_ids seen_roles [] = ok seen_roles
  check_signatures seen_ids seen_roles (signature ∷ rest) = do
    seen ← check_signature seen_ids seen_roles signature
    check_signatures (seen.0 ∷ seen_ids) (seen.1 ∷ seen_roles) rest

unfoldable pub verify_against_bundle :
    Falcon
    → (EscrowAdmissionArtifact → Result String String)
    → EscrowAdmissionArtifact
    → RuntimeTrustBundle
    → Result String (Unit {0})
verify_against_bundle falcon_verify hash_hex artifact bundle = do
  validate_unsigned artifact
  ensure (str_eq (trim artifact.runtime_trust_epoch) (trim bundle.trust_epoch))
      "escrow admission runtime_trust_epoch mismatch"
  hash ← hash_hex artifact
  ensure (length artifact.signatures == 2) "escrow admission requires exactly 2 guard signatures"
  roles ← check_signatures falcon_verify bundle hash [] [] artifact.signatures
  ensure (any_row (str_eq "ag-01") roles) "missing escrow admission signature for guard role ag-01"
  ensure (any_row (str_eq "ag-02") roles) "missing escrow admission signature for guard role ag-02"
