-- ===== src/Signer/Db/Snapshots/Live.antt =====
-- The active rows of the table of snapshots: how many an escrow has, and who has signed them.
use nexum_core.Common.{
  ℕ, ◌+◌, ◌≤◌, String, ◌≡◌, refl, ◌∙◌, Bool, true, false, ◌&&◌, Option, none, some, List, [], ◌∷◌,
  ◌++◌, inl, inr, str_eq, eq_iff, if◌then◌else◌, arith, Bool-cases,
}
use nexum_core.Common.Rows.{
  any_row, find_row, count_rows, update_rows, upsert_row, count_rows-update_rows,
  count_rows-upsert_row, update_rows-none,
}
use nexum_core.Signer.Db.{Snapshot, SnapshotSigRow, pending, active}
use nexum_core.Signer.Db.Snapshots.{
  has_hash, of_escrow, is_active, signs, set_json, set_status, same_signer, set_sig, activate_rows,
}

abbrev pub is_live : String → Snapshot → Bool
is_live escrow row = of_escrow escrow row && is_active row.status

-- Every active row has at least `quorum` signatures.
abbrev pub Backed : ℕ → List SnapshotSigRow → List Snapshot → Type 0
Backed quorum sigs [] = Unit
Backed quorum sigs (row ∷ rows) =
    (is_active row.status ≡ true → quorum ≤ count_rows (signs row.hash_hex) sigs)
    × Backed quorum sigs rows

-- After all rows of an escrow are pending none is live, and other escrows keep theirs.
live-pending :
    (escrow other : String) (rows : List Snapshot)
    → count_rows (is_live other) (update_rows (of_escrow escrow) (set_status pending) rows)
      ≡ (if str_eq escrow other then 0 else count_rows (is_live other) rows)
unfolding count_rows update_rows
live-pending escrow other [] = ground arith
live-pending escrow other (row ∷ rows) = ground (
  arith,
  eq_iff escrow other,
  eq_iff row.escrow_id_hex escrow,
  eq_iff row.escrow_id_hex other,
  live-pending escrow other rows,
)

-- Activating adds no more live rows than there are rows with the hash.
live-active :
    (hash other : String) (rows : List Snapshot)
    → count_rows (is_live other) (update_rows (has_hash hash) (set_status active) rows)
      ≤ count_rows (is_live other) rows + count_rows (has_hash hash) rows
unfolding count_rows update_rows
live-active hash other [] = ground arith
live-active hash other (row ∷ rows) = ground (arith, live-active hash other rows)

abbrev pub escrow_of : Option Snapshot → Option String
escrow_of none = none
escrow_of (some row) = some row.escrow_id_hex

find-pending :
    (hash escrow : String) (rows : List Snapshot)
    → escrow_of
        (find_row (has_hash hash) (update_rows (of_escrow escrow) (set_status pending) rows))
      ≡ escrow_of (find_row (has_hash hash) rows)
unfolding find_row update_rows
find-pending hash escrow [] = refl
find-pending hash escrow (row ∷ rows) = ground (arith, find-pending hash escrow rows)

-- Escrows other than that of the row with the hash keep their live rows.
live-active_other :
    (hash other escrow : String) (rows : List Snapshot)
    → escrow_of (find_row (has_hash hash) rows) ≡ some escrow
    → count_rows (has_hash hash) rows ≤ 1
    → str_eq escrow other ≡ false
    → count_rows (is_live other) (update_rows (has_hash hash) (set_status active) rows)
      ≡ count_rows (is_live other) rows
unfolding count_rows update_rows find_row
live-active_other hash other escrow [] f k n = refl
live-active_other hash other escrow (row ∷ rows) f k n = ground (
  arith,
  update_rows-none (has_hash hash) (set_status active) rows,
  live-active_other hash other escrow rows,
)

-- The live rows of each escrow after an activation.
pub live-activate :
    (hash escrow other : String) (rows : List Snapshot)
    → escrow_of (find_row (has_hash hash) rows) ≡ some escrow
    → count_rows (has_hash hash) rows ≤ 1
    → count_rows (is_live other) rows ≤ 1
    → count_rows (is_live other) (activate_rows escrow hash rows) ≤ 1
unfolding activate_rows
live-activate hash escrow other rows f k l =
    let cleared = update_rows (of_escrow escrow) (set_status pending) rows in
    ground (
      arith,
      find-pending hash escrow rows,
      count_rows-update_rows (has_hash hash) (of_escrow escrow) (set_status pending) rows
          (λ r. refl),
      live-pending escrow other rows,
      live-active hash other cleared,
      live-active_other hash other escrow cleared,
    )

pub hashes-activate :
    (hash escrow other : String) (rows : List Snapshot)
    → count_rows (has_hash other) (activate_rows escrow hash rows)
      ≡ count_rows (has_hash other) rows
unfolding activate_rows
hashes-activate hash escrow other rows =
    count_rows-update_rows (has_hash other) (has_hash hash) (set_status active)
      (update_rows (of_escrow escrow) (set_status pending) rows) (λ r. refl)
    ∙ count_rows-update_rows (has_hash other) (of_escrow escrow) (set_status pending) rows
        (λ r. refl)

module _ (quorum : ℕ) where
  Backed-pending :
      (escrow : String) (sigs : List SnapshotSigRow) (rows : List Snapshot)
      → Backed quorum sigs rows
      → Backed quorum sigs (update_rows (of_escrow escrow) (set_status pending) rows)
  unfolding update_rows
  Backed-pending escrow sigs [] h = tt
  Backed-pending escrow sigs (row ∷ rows) h = ground (arith, Backed-pending escrow sigs rows)

  Backed-active :
      (hash : String) (sigs : List SnapshotSigRow) (rows : List Snapshot)
      → quorum ≤ count_rows (signs hash) sigs
      → Backed quorum sigs rows
      → Backed quorum sigs (update_rows (has_hash hash) (set_status active) rows)
  unfolding update_rows
  Backed-active hash sigs [] q h = tt
  Backed-active hash sigs (row ∷ rows) q h =
      ground (arith, eq_iff row.hash_hex hash, Backed-active hash sigs rows)

  Backed-json :
      (hash json : String) (sigs : List SnapshotSigRow) (rows : List Snapshot)
      → Backed quorum sigs rows
      → Backed quorum sigs (update_rows (has_hash hash) (set_json json) rows)
  unfolding update_rows
  Backed-json hash json sigs [] h = tt
  Backed-json hash json sigs (row ∷ rows) h = ground (arith, Backed-json hash json sigs rows)

  Backed-append :
      (sigs : List SnapshotSigRow) (rows : List Snapshot) (new : Snapshot)
      → is_active new.status ≡ false
      → Backed quorum sigs rows
      → Backed quorum sigs (rows ++ (new ∷ []))
  Backed-append sigs [] new n h = ground arith
  Backed-append sigs (row ∷ rows) new n h = ground (arith, Backed-append sigs rows new)

  -- More signatures back as much.
  pub Backed-sign :
      (sig : SnapshotSigRow) (new : SnapshotSigRow) (sigs : List SnapshotSigRow)
      (rows : List Snapshot)
      → Backed quorum sigs rows
      → Backed quorum (upsert_row (same_signer sig) (set_sig sig) new sigs) rows
  Backed-sign sig new sigs [] h = tt
  Backed-sign sig new sigs (row ∷ rows) h = ground (
    arith,
    count_rows-upsert_row (signs row.hash_hex) (same_signer sig) (set_sig sig) new sigs (λ r. refl),
    Backed-sign sig new sigs rows,
  )

  pub upsert-Backed :
      (hash json : String) (sigs : List SnapshotSigRow) (rows : List Snapshot) (new : Snapshot)
      → is_active new.status ≡ false
      → Backed quorum sigs rows
      → Backed quorum sigs (upsert_row (has_hash hash) (set_json json) new rows)
  unfolding upsert_row
  upsert-Backed hash json sigs rows new n h = elim (Bool-cases (any_row (has_hash hash) rows)) [
    | inl e ↦ rw e (Backed-json hash json sigs rows h)
    | inr e ↦ rw e (Backed-append sigs rows new n h)
  ]

  pub activate-Backed :
      (escrow hash : String) (sigs : List SnapshotSigRow) (rows : List Snapshot)
      → quorum ≤ count_rows (signs hash) sigs
      → Backed quorum sigs rows
      → Backed quorum sigs (activate_rows escrow hash rows)
  unfolding activate_rows
  activate-Backed escrow hash sigs rows q h =
      Backed-active hash sigs (update_rows (of_escrow escrow) (set_status pending) rows) q
        (Backed-pending escrow sigs rows h)
