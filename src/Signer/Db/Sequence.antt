-- ===== src/Signer/Db/Sequence.antt =====
-- crates/nxms-signer/src/db.rs: `record_incoming_seq`, the guard against replayed messages, and
-- `next_out_seq`, the numbers of the messages sent.
pub mod Refinement
use nexum_core.Common.{
  ℕ, ◌+◌, ◌≤◌, ◌<◌, min, max, String, ◌≡◌, refl, Bool, true, false, ◌&&◌, ◌||◌, not, Option, none,
  some, List, [], ◌∷◌, ◌++◌, leb, ◌==◌, str_eq, eq_iff, if◌then◌else◌, arith,
}
use nexum_core.Common.Outcome.{Result, ok, err, is_ok}
use nexum_core.Common.Method.{this, put, pure, require, ◌>>=◌, ◌>>◌}
use nexum_core.Common.Rows.{any_row, find_row, upsert_row}
use nexum_core.Signer.Db.{SignerDb, IncomingSeen, OutSeq, Query, as_i64, i64_max}

abbrev pub is_stream : String → String → IncomingSeen → Bool
is_stream escrow sender row = str_eq row.escrow_id_hex escrow && str_eq row.from_id sender

-- The larger of a number and one that may be there.
abbrev pub at_least : ℕ → Option ℕ → ℕ
at_least n none = n
at_least n (some m) = max n m

-- `SELECT MAX(seq) FROM incoming_seen WHERE escrow_id_hex=?1 AND from_id=?2`
unfoldable pub max_seen : String → String → List IncomingSeen → Option ℕ
max_seen escrow sender [] = none
max_seen escrow sender (row ∷ rows) =
    let rest = max_seen escrow sender rows in
    if is_stream escrow sender row then some (at_least row.seq rest) else rest

abbrev pub is_ahead : ℕ → Option ℕ → Bool
is_ahead seq none = true
is_ahead seq (some last) = not (leb seq last)

-- The columns of the primary key.
abbrev same_seen : String → String → ℕ → IncomingSeen → Bool
same_seen escrow sender seq row = is_stream escrow sender row && row.seq == seq

unfoldable pub record_incoming_seq_sync : ℕ → String → String → ℕ → Query Unit
record_incoming_seq_sync now escrow sender seq = do
  db ← this
  require (is_ahead (as_i64 seq) (max_seen escrow sender db.incoming_seen))
      "replay/out-of-order seq detected"
  require (not (any_row (same_seen escrow sender (as_i64 seq)) db.incoming_seen))
      "replay seq detected"
  put (record db {
    incoming_seen =
        db.incoming_seen
        ++ (record {
          escrow_id_hex = escrow;
          from_id = sender;
          seq = as_i64 seq;
          seen_at_ms = as_i64 now;
        }
            ∷ []);
  })

abbrev pub is_sender : String → String → OutSeq → Bool
is_sender escrow sender row = str_eq row.escrow_id_hex escrow && str_eq row.from_id sender

abbrev pub last_or_zero : Option OutSeq → ℕ
last_or_zero none = 0
last_or_zero (some row) = row.last_seq

-- `current.unwrap_or(0).saturating_add(1).max(1)`
abbrev pub next_of : ℕ → ℕ
next_of last = max (min (last + 1) i64_max) 1

unfoldable pub next_out_seq_sync : ℕ → String → String → Query ℕ
next_out_seq_sync now escrow sender = do
  db ← this
  let next = next_of (last_or_zero (find_row (is_sender escrow sender) db.out_seq))
  put (record db {
    out_seq =
        upsert_row (is_sender escrow sender)
          (λ row. record row { last_seq = next; updated_at_ms = as_i64 now })
          (record {
            escrow_id_hex = escrow;
            from_id = sender;
            last_seq = next;
            updated_at_ms = as_i64 now;
          })
          db.out_seq;
  })
  pure next
