-- ===== src/Orchestrator/Db/Offsets.antt =====
-- crates/nxms-escrow-orchestrator/src/db.rs: `advance_inbox_offset`.
use nexum_core.Common.{
  ℕ, ◌≤◌, String, ◌≡◌, refl, inl, inr, Bool, true, false, ◌&&◌, not, Option, none, some, List, [],
  ◌∷◌, str_eq, leb, arith, eq_iff, if◌then◌else◌,
}
use nexum_core.Common.Outcome.{ok, is_ok, Result-cases}
use nexum_core.Common.Method.{lift, this, put, require, ◌>>=◌, ◌>>◌}
use nexum_core.Orchestrator.Db.{
  OrchestratorDb, InboxOffset, Query, as_i64, normalize_non_empty, normalize_hex_exact,
}

-- `SELECT last_seq FROM inbox_offsets WHERE peer_id=?1 AND escrow_id_hex=?2`
unfoldable pub last_seq : String → String → List InboxOffset → Option ℕ
last_seq peer escrow [] = none
last_seq peer escrow (o ∷ rows) =
    if str_eq o.peer_id peer && str_eq o.escrow_id_hex escrow
    then some o.last_seq
    else last_seq peer escrow rows

-- `INSERT … ON CONFLICT(peer_id, escrow_id_hex) DO UPDATE …`
unfoldable pub upsert_offset : String → String → ℕ → ℕ → List InboxOffset → List InboxOffset
upsert_offset peer escrow seq now [] =
    record { peer_id = peer; escrow_id_hex = escrow; last_seq = seq; updated_at_ms = now } ∷ []
upsert_offset peer escrow seq now (o ∷ rows) =
    if str_eq o.peer_id peer && str_eq o.escrow_id_hex escrow
    then record o { last_seq = seq; updated_at_ms = now } ∷ rows
    else o ∷ upsert_offset peer escrow seq now rows

abbrev is_ahead : ℕ → Option ℕ → Bool
is_ahead seq none = true
is_ahead seq (some current) = not (leb seq current)

unfoldable pub advance_inbox_offset_sync : ℕ → String → String → ℕ → Query Unit
advance_inbox_offset_sync now peer escrow seq = do
  peer_id ← lift (normalize_non_empty peer "peer_id must not be empty")
  escrow_id_hex ← lift (normalize_hex_exact escrow 32 "escrow_id_hex must be 32 hex chars")
  db ← this
  require (is_ahead (as_i64 seq) (last_seq peer_id escrow_id_hex db.inbox_offsets))
      "inbox offset replay/reset"
  put (record db {
    inbox_offsets = upsert_offset peer_id escrow_id_hex (as_i64 seq) (as_i64 now) db.inbox_offsets;
  })

last_seq-upsert :
    (peer escrow peer' escrow' : String) (seq now : ℕ) (rows : List InboxOffset)
    → last_seq peer' escrow' (upsert_offset peer escrow seq now rows) ≡ (
        if str_eq peer peer' && str_eq escrow escrow'
        then some seq
        else last_seq peer' escrow' rows)
unfolding last_seq upsert_offset
last_seq-upsert peer escrow peer' escrow' seq now [] = refl
last_seq-upsert peer escrow peer' escrow' seq now (o ∷ rows) = ground (
  arith,
  eq_iff peer peer',
  eq_iff escrow escrow',
  eq_iff o.peer_id peer,
  eq_iff o.escrow_id_hex escrow,
  eq_iff o.peer_id peer',
  eq_iff o.escrow_id_hex escrow',
  last_seq-upsert peer escrow peer' escrow' seq now rows,
)

-- The offset that is there afterwards is not behind the one before.
abbrev pub NotBehind : Option ℕ → Option ℕ → Type 0
NotBehind before none = before ≡ none
NotBehind none (some v) = Unit
NotBehind (some u) (some v) = u ≤ v

NotBehind-refl : (o : Option ℕ) → NotBehind o o
NotBehind-refl o = ground arith

NotBehind-trans : (a b c : Option ℕ) → NotBehind a b → NotBehind b c → NotBehind a c
NotBehind-trans a b c h k = ground arith

advance_forward :
    (now seq : ℕ) (peer escrow p e : String) (db : OrchestratorDb)
    → NotBehind
        (last_seq p e db.inbox_offsets)
        (last_seq p e (advance_inbox_offset_sync now peer escrow seq db).1.inbox_offsets)
unfolding advance_inbox_offset_sync
advance_forward now seq peer escrow p e db =
    elim (Result-cases (normalize_non_empty peer "peer_id must not be empty")) [
      | inr (e', h) ↦ rw h (NotBehind-refl (last_seq p e db.inbox_offsets))
      | inl (id, h) ↦
          rw h
            (elim (Result-cases
              (normalize_hex_exact escrow 32 "escrow_id_hex must be 32 hex chars")) [
                | inr (e', k) ↦ rw k (NotBehind-refl (last_seq p e db.inbox_offsets))
                | inl (hex, k) ↦ rw k (
                    ground (
                      arith,
                      eq_iff id p,
                      eq_iff hex e,
                      last_seq-upsert id hex p e (as_i64 seq) (as_i64 now) db.inbox_offsets,
                    ))
              ])
    ]

pub record Advance : Type 0 where
  pub now : ℕ
  pub peer_id : String
  pub escrow_id : String
  pub seq : ℕ

abbrev perform : OrchestratorDb → Advance → OrchestratorDb
perform db a = (advance_inbox_offset_sync a.now a.peer_id a.escrow_id a.seq db).1

pub advances : OrchestratorDb → List Advance → OrchestratorDb
advances db [] = db
advances db (a ∷ rest) = advances (perform db a) rest

-- Whatever sequence numbers arrive, from whomever, no peer's offset for an escrow goes back or
-- is lost.
pub offsets_forward :
    (db : OrchestratorDb) (calls : List Advance) (peer escrow : String)
    → NotBehind
        (last_seq peer escrow db.inbox_offsets)
        (last_seq peer escrow (advances db calls).inbox_offsets)
unfolding advances
offsets_forward db [] peer escrow = NotBehind-refl (last_seq peer escrow db.inbox_offsets)
offsets_forward db (a ∷ rest) peer escrow =
    NotBehind-trans (last_seq peer escrow db.inbox_offsets)
      (last_seq peer escrow (perform db a).inbox_offsets)
      (last_seq peer escrow (advances (perform db a) rest).inbox_offsets)
      (advance_forward a.now a.seq a.peer_id a.escrow_id peer escrow db)
      (offsets_forward (perform db a) rest peer escrow)

-- A sequence number that was taken is not taken again: after an advance that succeeded, the same
-- peer's advance for the escrow with this number or a smaller one fails and changes nothing.
replay_refused :
    (now later seq seq' : ℕ) (peer escrow : String) (db : OrchestratorDb)
    → (advance_inbox_offset_sync now peer escrow seq db).0 ≡ ok tt
    → seq' ≤ seq
    → let db' = (advance_inbox_offset_sync now peer escrow seq db).1 in
      (is_ok (advance_inbox_offset_sync later peer escrow seq' db').0 ≡ false)
      × ((advance_inbox_offset_sync later peer escrow seq' db').1 ≡ db')
unfolding advance_inbox_offset_sync
replay_refused now later seq seq' peer escrow db h le =
    elim (Result-cases (normalize_non_empty peer "peer_id must not be empty")) [
      | inr (e', k) ↦ ground arith
      | inl (id, k) ↦
          elim (Result-cases (normalize_hex_exact escrow 32 "escrow_id_hex must be 32 hex chars")) [
            | inr (e', k') ↦ ground arith
            | inl (hex, k') ↦ ground (
              arith,
              eq_iff id id,
              eq_iff hex hex,
              last_seq-upsert id hex id hex (as_i64 seq) (as_i64 now) db.inbox_offsets,
            )
          ]
    ]
