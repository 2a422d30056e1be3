-- ===== src/Signer/Db/Snapshots.antt =====
-- crates/nxms-signer/src/db.rs: the snapshots of a contract, their signatures, and the activation of
-- a snapshot that a quorum has signed.
pub mod Live
pub mod Quorum
use nexum_core.Common.{
  ℕ, String, Bool, true, false, ◌&&◌, not, Option, none, some, List, [], ◌∷◌, ◌++◌, leb, ltb,
  str_eq, if◌then◌else◌,
}
use nexum_core.Common.Outcome.{Result, ok, err, ok_or}
use nexum_core.Common.Method.{this, put, pure, lift, require, ◌>>=◌, ◌>>◌}
use nexum_core.Common.Rows.{find_row, count_rows, update_rows, upsert_row}
use nexum_core.Signer.Db.{
  SignerDb, Snapshot, SnapshotSigRow, SnapshotStatus, pending, active, Query, as_i64,
}

abbrev pub has_hash : String → Snapshot → Bool
has_hash hash row = str_eq row.hash_hex hash

abbrev pub of_escrow : String → Snapshot → Bool
of_escrow escrow row = str_eq row.escrow_id_hex escrow

abbrev pub is_active : SnapshotStatus → Bool
is_active pending = false
is_active active = true

abbrev pub signs : String → SnapshotSigRow → Bool
signs hash sig = str_eq sig.hash_hex hash

abbrev pub set_json : String → Snapshot → Snapshot
set_json json row = record row { snapshot_json = json }

abbrev pub set_status : SnapshotStatus → Snapshot → Snapshot
set_status status row = record row { status = status }

unfoldable pub put_snapshot_pending_sync : ℕ → String → String → String → Query Unit
put_snapshot_pending_sync now escrow hash json = do
  db ← this
  put (record db {
    snapshots =
        upsert_row (has_hash hash) (set_json json)
          (record {
            hash_hex = hash;
            escrow_id_hex = escrow;
            snapshot_json = json;
            status = pending;
            created_at_ms = as_i64 now;
          })
          db.snapshots;
  })

-- The columns of the unique index.
abbrev pub same_signer : SnapshotSigRow → SnapshotSigRow → Bool
same_signer sig row = str_eq row.hash_hex sig.hash_hex && str_eq row.signer_id sig.signer_id

abbrev pub set_sig : SnapshotSigRow → SnapshotSigRow → SnapshotSigRow
set_sig sig row = record row {
  sig_pk_b64 = sig.sig_pk_b64;
  sig_b64 = sig.sig_b64;
  alg = sig.alg;
  created_at_unix_ms = as_i64 sig.created_at_unix_ms;
}

unfoldable pub put_snapshot_signature_sync : SnapshotSigRow → Query Unit
put_snapshot_signature_sync sig = do
  db ← this
  put (record db {
    snapshot_sigs =
        upsert_row (same_signer sig) (set_sig sig)
          (record sig { created_at_unix_ms = as_i64 sig.created_at_unix_ms }) db.snapshot_sigs;
  })

-- The two updates: all snapshots of the escrow are pending, then the one with the hash is active.
unfoldable pub activate_rows : String → String → List Snapshot → List Snapshot
activate_rows escrow hash rows =
    update_rows (has_hash hash) (set_status active)
      (update_rows (of_escrow escrow) (set_status pending) rows)

unfoldable pub activate_snapshot_sync : String → ℕ → Query Unit
activate_snapshot_sync hash quorum = do
  db ← this
  require (leb quorum (count_rows (signs hash) db.snapshot_sigs))
      "snapshot has fewer signatures than the quorum"
  row ← lift (ok_or (find_row (has_hash hash) db.snapshots) "snapshot not found")
  put (record db { snapshots = activate_rows row.escrow_id_hex hash db.snapshots })

abbrev newer : Snapshot → Option Snapshot → Option Snapshot
newer row none = some row
newer row (some best) = if ltb row.created_at_ms best.created_at_ms then some best else some row

-- `WHERE escrow_id_hex=?1 AND status='active' ORDER BY created_at_ms DESC LIMIT 1`
unfoldable pub active_snapshot : String → List Snapshot → Option Snapshot
active_snapshot escrow [] = none
active_snapshot escrow (row ∷ rows) =
    let rest = active_snapshot escrow rows in
    if of_escrow escrow row && is_active row.status then newer row rest else rest

unfoldable pub active_snapshot_for_escrow_sync : String → Query (Option Snapshot)
active_snapshot_for_escrow_sync escrow = do db ← this; pure (active_snapshot escrow db.snapshots)
