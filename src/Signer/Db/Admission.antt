-- ===== src/Signer/Db/Admission.antt =====
-- crates/nxms-signer/src/db.rs: the stored admission of each escrow.
use nexum_core.Common.{String, str_eq, Bool, Option}
use nexum_core.Common.Method.{this, put, pure, ◌>>=◌}
use nexum_core.Common.Rows.{find_row, upsert_row}
use nexum_core.Signer.Db.{EscrowAdmissionArtifactRow, Query, as_i64}

abbrev pub admits : String → EscrowAdmissionArtifactRow → Bool
admits escrow row = str_eq row.escrow_id_hex escrow

-- `ON CONFLICT(escrow_id_hex) DO UPDATE`: all but the time of creation.
unfoldable pub upsert_escrow_admission_artifact_sync : EscrowAdmissionArtifactRow → Query Unit
upsert_escrow_admission_artifact_sync row = do
  db ← this
  let stored = record row {
    created_at_ms = as_i64 row.created_at_ms;
    updated_at_ms = as_i64 row.updated_at_ms;
  }
  put (record db {
    escrow_admission_artifacts =
        upsert_row (admits row.escrow_id_hex)
          (λ old. record stored { created_at_ms = old.created_at_ms }) stored
          db.escrow_admission_artifacts;
  })

unfoldable pub get_escrow_admission_artifact_sync :
    String → Query (Option EscrowAdmissionArtifactRow)
get_escrow_admission_artifact_sync escrow = do
  db ← this
  pure (find_row (admits escrow) db.escrow_admission_artifacts)
