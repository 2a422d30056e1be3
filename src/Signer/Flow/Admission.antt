-- ===== src/Signer/Flow/Admission.antt =====
-- crates/nxms-signer/src/agent.rs: the check of the admission that is stored for an escrow.
use nexum_core.Common.{
  String, str_eq, Bool, true, false, Option, none, some, ◌≡◌, arith, inl, inr, Option-cases,
}
use nexum_core.Common.Text.{to_ascii_lowercase}
use nexum_core.Common.Outcome.{Result, ok, ensure, ok_or, Result-cases, ◌>>=◌, ◌>>◌}
use nexum_core.Common.Rows.{find_row}
use nexum_core.Transport.Admission.{
  EscrowAction, release, refund, EscrowAdmissionArtifact, RuntimeTrustBundle, Falcon,
  verify_against_bundle,
}
use nexum_core.Transport.Admission.Guards.{BySignatures, verify-BySignatures}
use nexum_core.Signer.Db.{SignerDb}
use nexum_core.Signer.Db.Admission.{admits}
use nexum_core.Signer.Flow.{normalize_hex_exact}

abbrev pub same_action : EscrowAction → EscrowAction → Bool
same_action release release = true
same_action release refund = false
same_action refund release = false
same_action refund refund = true

-- `eq_ignore_ascii_case`
abbrev pub same_text : String → String → Bool
same_text a b = str_eq (to_ascii_lowercase a) (to_ascii_lowercase b)

-- The code outside: the JSON of an artifact, its hash, and Falcon.
pub record Seal : Type 0 where
  pub parse_artifact : String → Result String EscrowAdmissionArtifact
  pub artifact_hash : EscrowAdmissionArtifact → Result String String
  pub falcon_verify : Falcon

module _ (seal : Seal) where
  unfoldable pub verify_escrow_admission_artifact :
      RuntimeTrustBundle
      → EscrowAdmissionArtifact
      → String
      → String
      → EscrowAction
      → Result String String
  verify_escrow_admission_artifact bundle artifact escrow snapshot_hash action = do
    verify_against_bundle seal.falcon_verify seal.artifact_hash artifact bundle
    ensure (same_text artifact.escrow_id_hex escrow) "escrow admission escrow_id mismatch"
    ensure (same_text artifact.snapshot_hash_hex snapshot_hash)
        "escrow admission snapshot_hash mismatch"
    ensure (same_action artifact.action action) "escrow admission action mismatch"
    seal.artifact_hash artifact

  abbrev pub check_expected : Option String → String → Result String (Unit {0})
  check_expected none actual = ok tt
  check_expected (some expected) actual = do
    hash ← normalize_hex_exact expected 64 "action_token.escrow_admission_hash must be 64 hex chars"
    ensure (str_eq actual hash) "action token escrow_admission_hash mismatch"

  unfoldable pub validate_stored_escrow_admission :
      Option RuntimeTrustBundle
      → SignerDb
      → String
      → String
      → EscrowAction
      → Option String
      → Result String (Unit {0})
  validate_stored_escrow_admission none db escrow snapshot_hash action expected = ok tt
  validate_stored_escrow_admission (some bundle) db escrow snapshot_hash action expected = do
    row ←
        ok_or (find_row (admits escrow) db.escrow_admission_artifacts)
          "missing escrow admission artifact"
    artifact ← seal.parse_artifact row.artifact_json
    actual ← verify_escrow_admission_artifact bundle artifact escrow snapshot_hash action
    ensure (same_text actual row.artifact_hash_hex) "stored escrow admission hash drift detected"
    check_expected expected actual

  -- Both guards have admitted the escrow, for this snapshot and action.
  pub record IsAdmitted (bundle : RuntimeTrustBundle) (escrow snapshot_hash : String)
      (action : EscrowAction) : Type 0 where
    pub artifact : EscrowAdmissionArtifact
    pub hash : String
    pub escrow_is : same_text artifact.escrow_id_hex escrow ≡ true
    pub snapshot_is : same_text artifact.snapshot_hash_hex snapshot_hash ≡ true
    pub action_is : same_action artifact.action action ≡ true
    pub hash_is : seal.artifact_hash artifact ≡ ok hash
    pub guards : BySignatures seal.falcon_verify bundle hash artifact.signatures

  -- Nothing is asked for where there is no trust bundle.
  abbrev pub AdmittedIf : Option RuntimeTrustBundle → String → String → EscrowAction → Type 0
  AdmittedIf none escrow snapshot_hash action = Unit
  AdmittedIf (some bundle) escrow snapshot_hash action =
      IsAdmitted bundle escrow snapshot_hash action

  pub stored-AdmittedIf :
      (bundle : Option RuntimeTrustBundle) (db : SignerDb) (escrow snapshot_hash : String)
      (action : EscrowAction) (expected : Option String)
      → validate_stored_escrow_admission bundle db escrow snapshot_hash action expected ≡ ok tt
      → AdmittedIf bundle escrow snapshot_hash action
  unfolding validate_stored_escrow_admission verify_escrow_admission_artifact
  stored-AdmittedIf none db escrow snapshot_hash action expected h = tt
  stored-AdmittedIf (some bundle) db escrow snapshot_hash action expected h =
      elim (Option-cases (find_row (admits escrow) db.escrow_admission_artifacts)) [
        | inl n ↦ ground arith
        | inr (row, f) ↦ elim (Result-cases (seal.parse_artifact row.artifact_json)) [
          | inr (e, g) ↦ ground arith
          | inl (artifact, g) ↦
              elim (Result-cases
                (verify_against_bundle seal.falcon_verify seal.artifact_hash artifact bundle)) [
                  | inr (e, k) ↦ ground arith
                  | inl (_, k) ↦
                      let (hash, hash_is, guards) =
                        verify-BySignatures seal.falcon_verify seal.artifact_hash artifact bundle
                          k in
                      record {
                        artifact = artifact;
                        hash = hash;
                        escrow_is = ground arith;
                        snapshot_is = ground arith;
                        action_is = ground arith;
                        hash_is = hash_is;
                        guards = guards;
                      }
                ]
        ]
      ]
