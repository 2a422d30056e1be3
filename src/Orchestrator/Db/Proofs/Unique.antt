-- ===== src/Orchestrator/Db/Proofs/Unique.antt =====
-- The uniqueness of the keys and of the requests of the stored proofs.
use nexum_core.Common.{
  ◌≤◌, String, str_eq, Bool, List, [], ◌∷◌, if◌then◌else◌, ◌≡◌, refl, true, false, inl, inr, arith,
  eq_iff, Bool-cases,
}
use nexum_core.Common.Rows.{
  any_row, count_rows, update_rows, upsert_row, count_rows-none, count_rows-append,
  count_rows-upsert_row,
}
use nexum_core.Orchestrator.Db.{QuorumSignProof}
use nexum_core.Orchestrator.Db.Proofs.{same_proof, takes_request, set_proof}

abbrev pub has_request : String → QuorumSignProof → Bool
has_request q p = str_eq p.req_id q

-- Rows of which none has the request under another key.
update-single :
    (new : QuorumSignProof) (q : String) (rows : List QuorumSignProof)
    → any_row (takes_request new) rows ≡ false
    → count_rows (has_request q) (update_rows (same_proof new) (set_proof new) rows) ≤ (
        if str_eq new.req_id q
        then count_rows (same_proof new) rows
        else count_rows (has_request q) rows)
unfolding any_row count_rows update_rows
update-single new q [] free = omega arith
update-single new q (p ∷ rows) free = elim (Bool-cases (same_proof new p)) [
  | inl k ↦ rw k (ground (arith, eq_iff new.req_id q, eq_iff p.req_id q, update-single new q rows))
  | inr k ↦ rw k (
      ground (
        arith,
        k,
        eq_iff new.req_id q,
        eq_iff p.req_id q,
        eq_iff p.req_id new.req_id,
        update-single new q rows,
      ))
]

free-none :
    (new : QuorumSignProof) (q : String) (rows : List QuorumSignProof)
    → any_row (takes_request new) rows ≡ false
    → any_row (same_proof new) rows ≡ false
    → new.req_id ≡ q
    → count_rows (has_request q) rows ≡ 0
unfolding any_row count_rows
free-none new q [] free none same = refl
free-none new q (p ∷ rows) free none same =
    ground (arith, eq_iff p.req_id q, eq_iff p.req_id new.req_id, free-none new q rows)

-- A key that has no row.
same-none :
    (new other : QuorumSignProof) (rows : List QuorumSignProof)
    → same_proof other new ≡ true
    → any_row (same_proof new) rows ≡ false
    → count_rows (same_proof other) rows ≡ 0
same-none new other rows h none =
    let a : new.escrow_id_hex ≡ other.escrow_id_hex =
      ground (arith, eq_iff new.escrow_id_hex other.escrow_id_hex) in
    let b : new.role ≡ other.role = ground (arith, eq_iff new.role other.role) in
    let c : new.sign_round ≡ other.sign_round =
      ground (arith, eq_iff new.sign_round other.sign_round) in
    let d : new.txset_hash_hex ≡ other.txset_hash_hex =
      ground (arith, eq_iff new.txset_hash_hex other.txset_hash_hex) in
    rw (← a, ← b, ← c, ← d) (count_rows-none (same_proof new) rows none)

pub keyed-upsert :
    (new other : QuorumSignProof) (rows : List QuorumSignProof)
    → count_rows (same_proof other) rows ≤ 1
    → count_rows (same_proof other) (upsert_row (same_proof new) (set_proof new) new rows) ≤ 1
keyed-upsert new other rows h =
    let sum =
      count_rows-upsert_row (same_proof other) (same_proof new) (set_proof new) new rows
        (λ r. refl) in
    elim (Bool-cases (any_row (same_proof new) rows)) [
      | inl k ↦ ground (arith, sum, k, h)
      | inr k ↦ elim (Bool-cases (same_proof other new)) [
        | inl l ↦ ground (arith, sum, k, l, same-none new other rows l k)
        | inr l ↦ ground (arith, sum, k, l, h)
      ]
    ]

pub single-upsert :
    (new : QuorumSignProof) (q : String) (rows : List QuorumSignProof)
    → any_row (takes_request new) rows ≡ false
    → count_rows (same_proof new) rows ≤ 1
    → count_rows (has_request q) rows ≤ 1
    → count_rows (has_request q) (upsert_row (same_proof new) (set_proof new) new rows) ≤ 1
unfolding upsert_row
single-upsert new q rows free one h = elim (Bool-cases (any_row (same_proof new) rows)) [
  | inl k ↦ rw k (ground (arith, update-single new q rows free))
  | inr k ↦ rw k (
      ground (
        arith,
        eq_iff new.req_id q,
        count_rows-append (has_request q) rows new,
        free-none new q rows free k,
      ))
]
