-- ===== src/Signer/Db.antt =====
-- crates/nxms-signer/src/db.rs: the tables of a signer's database. Times are milliseconds, `now` is
-- an argument of the operations; the errors are the source's texts without the interpolated values.
pub mod Sequence
pub mod Snapshots
pub mod Requests
pub mod Admission
use nexum_core.Common.{ℕ, ◌-◌, ◌^◌, min, String, List, []}
use nexum_core.Common.Method.{Method}

abbrev pub i64_max : ℕ
i64_max = 2 ^ 63 - 1

-- `i64::try_from(v).unwrap_or(i64::MAX)`
abbrev pub as_i64 : ℕ → ℕ
as_i64 v = min v i64_max

-- A row of `incoming_seen`.
pub record IncomingSeen : Type 0 where
  pub escrow_id_hex : String
  pub from_id : String
  pub seq : ℕ
  pub seen_at_ms : ℕ

-- A row of `out_seq`.
pub record OutSeq : Type 0 where
  pub escrow_id_hex : String
  pub from_id : String
  pub last_seq : ℕ
  pub updated_at_ms : ℕ

pub data SnapshotStatus : Type 0 where
  pending : SnapshotStatus
  active : SnapshotStatus

-- A row of `snapshots`.
pub record Snapshot : Type 0 where
  pub hash_hex : String
  pub escrow_id_hex : String
  pub snapshot_json : String
  pub status : SnapshotStatus
  pub created_at_ms : ℕ

-- A row of `snapshot_sigs`.
pub record SnapshotSigRow : Type 0 where
  pub signer_id : String
  pub sig_pk_b64 : String
  pub sig_b64 : String
  pub hash_hex : String
  pub alg : String
  pub created_at_unix_ms : ℕ

pub data RequestStatus : Type 0 where
  in_progress : RequestStatus
  completed : RequestStatus

-- A row of `sign_request_dedup`.
pub record SignRequestRow : Type 0 where
  pub req_id : String
  pub escrow_id_hex : String
  pub op : String
  pub sign_round : String
  pub txset_hash_hex : String
  pub status : RequestStatus
  pub created_at_ms : ℕ
  pub updated_at_ms : ℕ

-- A row of `sign_request_result`.
pub record SignResultRow : Type 0 where
  pub req_id : String
  pub op : String
  pub response_json : String
  pub created_at_ms : ℕ

-- A row of `consumed_action_jti`.
pub record ConsumedJti : Type 0 where
  pub jti : String
  pub escrow_id_hex : String
  pub op : String
  pub sign_round : String
  pub req_id : String
  pub exp_unix_s : ℕ
  pub consumed_at_ms : ℕ

-- A row of `sign_events`.
pub record SignEvent : Type 0 where
  pub escrow_id_hex : String
  pub role : String
  pub sign_round : String
  pub txset_hash_hex : String
  pub jti : String
  pub req_id : String
  pub created_at_ms : ℕ

-- A row of `escrow_admission_artifacts`.
pub record EscrowAdmissionArtifactRow : Type 0 where
  pub escrow_id_hex : String
  pub snapshot_hash_hex : String
  pub action : String
  pub runtime_trust_epoch : String
  pub artifact_hash_hex : String
  pub artifact_json : String
  pub created_at_ms : ℕ
  pub updated_at_ms : ℕ

pub record SignerDb : Type 0 where
  pub incoming_seen : List IncomingSeen
  pub out_seq : List OutSeq
  pub snapshots : List Snapshot
  pub snapshot_sigs : List SnapshotSigRow
  pub sign_request_dedup : List SignRequestRow
  pub sign_request_result : List SignResultRow
  pub consumed_action_jti : List ConsumedJti
  pub sign_events : List SignEvent
  pub escrow_admission_artifacts : List EscrowAdmissionArtifactRow

-- An operation on the database: what it has committed stays, also under an error.
abbrev pub Query : Type 0 → Type 0
Query A = Method SignerDb String A
