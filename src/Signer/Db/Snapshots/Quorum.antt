-- ===== src/Signer/Db/Snapshots/Quorum.antt =====
-- What is active: at most one snapshot of an escrow, signed by a quorum.
use nexum_core.Common.{
  ℕ, ◌≤◌, ◌≡◌, ◌&&◌, str_eq, Bool, String, refl, List, [], ◌∷◌, inl, inr, leb, leb→le, eq_iff,
  arith, Bool-cases, Option-cases,
}
use nexum_core.Common.Rows.{
  find_row, any_row, count_rows, upsert_row, count_rows-none, count_rows-upsert_row,
}
use nexum_core.Signer.Db.{SignerDb, Snapshot, SnapshotSigRow, pending, as_i64}
use nexum_core.Signer.Db.Snapshots.{
  has_hash, signs, set_json, same_signer, set_sig, put_snapshot_pending_sync,
  put_snapshot_signature_sync, activate_snapshot_sync,
}
use nexum_core.Signer.Db.Snapshots.Live.{
  is_live, Backed, live-activate, hashes-activate, Backed-sign, upsert-Backed, activate-Backed,
}

-- The requests about snapshots.
pub data Request : Type 0 where
  propose : ℕ → String → String → String → Request
  sign : SnapshotSigRow → Request
  activate : String → Request

-- The signature of one signer on one hash.
abbrev pub signed_by : String → String → SnapshotSigRow → Bool
signed_by hash signer sig = str_eq sig.hash_hex hash && str_eq sig.signer_id signer

-- Every hash is stored once, an escrow has one active snapshot at most, what is active is backed, and a
-- signer counts once for a hash.
pub record IsSound (quorum : ℕ) (db : SignerDb) : Type 0 where
  pub keyed : (hash : String) → count_rows (has_hash hash) db.snapshots ≤ 1
  pub single : (escrow : String) → count_rows (is_live escrow) db.snapshots ≤ 1
  pub backed : Backed quorum db.snapshot_sigs db.snapshots
  pub distinct : (hash signer : String) → count_rows (signed_by hash signer) db.snapshot_sigs ≤ 1

module _ (quorum : ℕ) where
  pub perform : SignerDb → Request → SignerDb
  perform db (propose now escrow hash json) = (put_snapshot_pending_sync now escrow hash json db).1
  perform db (sign sig) = (put_snapshot_signature_sync sig db).1
  perform db (activate hash) = (activate_snapshot_sync hash quorum db).1

  pub serve : SignerDb → List Request → SignerDb
  serve db [] = db
  serve db (r ∷ rest) = serve (perform db r) rest

-- A signer that signs again replaces the signature.
distinct-sign :
    (hash signer : String) (sig : SnapshotSigRow) (sigs : List SnapshotSigRow)
    → count_rows (signed_by hash signer) sigs ≤ 1
    → count_rows (signed_by hash signer) (
        upsert_row
          (same_signer sig)
          (set_sig sig)
          (record sig { created_at_unix_ms = as_i64 sig.created_at_unix_ms })
          sigs)
      ≤ 1
distinct-sign hash signer sig sigs h =
    let new = record sig { created_at_unix_ms = as_i64 sig.created_at_unix_ms } in
    let sum =
      count_rows-upsert_row (signed_by hash signer) (same_signer sig) (set_sig sig) new sigs
        (λ r. refl) in
    elim (Bool-cases (any_row (same_signer sig) sigs)) [
      | inl k ↦ ground (arith, sum, k, h)
      | inr k ↦ elim (Bool-cases (signed_by hash signer sig)) [
        | inr l ↦ ground (arith, sum, k, l, h)
        | inl l ↦
            let a : sig.hash_hex ≡ hash = ground (arith, eq_iff sig.hash_hex hash) in
            let b : sig.signer_id ≡ signer = ground (arith, eq_iff sig.signer_id signer) in
            let empty : count_rows (signed_by hash signer) sigs ≡ 0 =
              rw (← a, ← b) (count_rows-none (same_signer sig) sigs k) in
            ground (arith, sum, k, l, empty)
      ]
    ]

module _ (quorum : ℕ) where
  abbrev proposed : ℕ → String → String → String → Snapshot
  proposed now escrow hash json = record {
    hash_hex = hash;
    escrow_id_hex = escrow;
    snapshot_json = json;
    status = pending;
    created_at_ms = as_i64 now;
  }

  propose-IsSound :
      (now : ℕ) (escrow hash json : String) (db : SignerDb)
      → IsSound quorum db
      → IsSound quorum (put_snapshot_pending_sync now escrow hash json db).1
  unfolding put_snapshot_pending_sync
  propose-IsSound now escrow hash json db s =
      let new = proposed now escrow hash json in
      let rows = db.snapshots in
      record {
        keyed = λ other. ground (
          arith,
          eq_iff hash other,
          s.keyed other,
          count_rows-none (has_hash hash) rows,
          count_rows-upsert_row (has_hash other) (has_hash hash) (set_json json) new rows
              (λ r. refl),
        );
        single = λ other. ground (
          arith,
          s.single other,
          count_rows-upsert_row (is_live other) (has_hash hash) (set_json json) new rows
              (λ r. refl),
        );
        backed = upsert-Backed quorum hash json db.snapshot_sigs rows new refl s.backed;
        distinct = s.distinct;
      }

  activate-IsSound :
      (hash : String) (db : SignerDb)
      → IsSound quorum db
      → IsSound quorum (activate_snapshot_sync hash quorum db).1
  unfolding activate_snapshot_sync
  activate-IsSound hash db s =
      elim (Bool-cases (leb quorum (count_rows (signs hash) db.snapshot_sigs))) [
        | inr few ↦ rw few s
        | inl enough ↦ rw enough (elim (Option-cases (find_row (has_hash hash) db.snapshots)) [
          | inl n ↦ rw n s
          | inr (row, f) ↦ rw f (record {
            keyed = λ other.
                rw (hashes-activate hash row.escrow_id_hex other db.snapshots) (s.keyed other);
            single = λ other.
                live-activate hash row.escrow_id_hex other db.snapshots (rw f refl) (s.keyed hash)
                  (s.single other);
            backed =
                activate-Backed quorum row.escrow_id_hex hash db.snapshot_sigs db.snapshots
                  (leb→le quorum (count_rows (signs hash) db.snapshot_sigs) enough) s.backed;
            distinct = s.distinct;
          })
        ])
      ]

  perform-IsSound :
      (db : SignerDb) (r : Request) → IsSound quorum db → IsSound quorum (perform quorum db r)
  unfolding perform put_snapshot_signature_sync
  perform-IsSound db (propose now escrow hash json) s = propose-IsSound now escrow hash json db s
  perform-IsSound db (sign sig) s =
      let new = record sig { created_at_unix_ms = as_i64 sig.created_at_unix_ms } in
      record {
        keyed = s.keyed;
        single = s.single;
        backed = Backed-sign quorum sig new db.snapshot_sigs db.snapshots s.backed;
        distinct =
            λ hash signer. distinct-sign hash signer sig db.snapshot_sigs (s.distinct hash signer);
      }
  perform-IsSound db (activate hash) s = activate-IsSound hash db s

  -- Whatever snapshots are proposed, signed and activated, in any order, every hash stays stored
  -- once, an escrow has at most one active snapshot, each active snapshot has at least `quorum`
  -- signatures, and no two signatures of a snapshot have the same signer.
  pub serve-IsSound :
      (db : SignerDb) (rs : List Request) → IsSound quorum db → IsSound quorum (serve quorum db rs)
  unfolding serve
  serve-IsSound db [] s = s
  serve-IsSound db (r ∷ rest) s = serve-IsSound (perform quorum db r) rest (perform-IsSound db r s)
