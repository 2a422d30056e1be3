-- ===== src/Mailbox/Store/Lease.antt =====
-- What a pull hands out, and what an acknowledgement removes.
use nexum_core.Common.{
  ℕ, zero, suc, ◌+◌, ◌≤◌, min, String, ◌≡◌, ◌≢◌, refl, false, List, [], ◌∷◌, arith, eq_iff,
  if◌then◌else◌, length,
}
use nexum_core.Common.Outcome.{Result, ok, err, Result-cases}
use nexum_core.Transport.Wire.{NxmsEnvelope}
use nexum_core.Mailbox.Store.{
  MailboxDb, Message, LeasedMessage, i64_max, deadline, delete_expired, is_available, inbox_rows,
  lease_rows, pull_sync, delete_leased, ack_sync,
}

-- The rows that a pull may hand out.
pub available : ℕ → String → List Message → ℕ
available now to [] = 0
available now to (m ∷ rows) =
    let rest = available now to rows in if is_available now to m then suc rest else rest

available-length :
    (now : ℕ) (to : String) (rows : List Message) → available now to rows ≤ length rows
unfolding available
available-length now to [] = ground arith
available-length now to (m ∷ rows) = ground (arith, available-length now to rows)

-- What the leasing of rows until `until` has done to them: as many are handed out as are available
-- and asked for, no row is lost, and those handed out are not available, now or up to `until`.
abbrev Taken :
    ℕ
    → ℕ
    → ℕ
    → String
    → ℕ
    → List Message
    → Result String (List LeasedMessage × List Message)
    → Type 0
Taken now later until to n rows (ok (out, rest)) =
    (length out ≡ min n (available now to rows))
    × (length rest ≡ length rows)
    × (available now to rest + length out ≡ available now to rows)
    × (available later to rest + length out ≤ length rows)
Taken now later until to n rows (err e) = Unit

module _ (decode : String → Result String NxmsEnvelope) (draw : ℕ → String) where
  lease_rows-Taken :
      (now later until : ℕ) (to : String) (k n : ℕ) (rows : List Message)
      → now ≤ until
      → later ≤ until
      → Taken now later until to n rows (lease_rows decode draw now until to k n rows)
  unfolding lease_rows available
  lease_rows-Taken now later until to k n [] h l = ground arith
  lease_rows-Taken now later until to k zero (m ∷ rows) h l =
      ground (arith, available-length later to rows)
  lease_rows-Taken now later until to k (suc n) (m ∷ rows) h l = ground (
    arith,
    Result-cases (decode m.envelope_json),
    lease_rows-Taken now later until to (suc k) n rows h l,
    lease_rows-Taken now later until to k (suc n) rows h l,
  )

  -- A pull with no undecodable row: `out` is its answer.
  abbrev pub Pulled : ℕ → String → ℕ → ℕ → MailboxDb → List LeasedMessage → Type 0
  Pulled now to n secs db out = (pull_sync decode draw now to n secs db).0 ≡ ok out

  -- A pull that succeeds hands out as many messages as its limit and the rows that are available
  -- to it allow, loses no row that has not expired, and leaves so many rows fewer available.
  pull_exact :
      (now n secs : ℕ) (to : String) (db : MailboxDb) (out : List LeasedMessage)
      → now ≤ i64_max
      → Pulled now to n secs db out
      → (length out ≡ min n (available now to (delete_expired now db.messages)))
        × (length (pull_sync decode draw now to n secs db).1.messages
            ≡ length (delete_expired now db.messages))
        × (available now to (pull_sync decode draw now to n secs db).1.messages + length out
            ≡ available now to (delete_expired now db.messages))
  unfolding pull_sync
  pull_exact now n secs to db out small h =
      let rows = delete_expired now db.messages in
      let until = deadline now secs in
      ground (
        arith,
        Result-cases (lease_rows decode draw now until to 0 n rows),
        lease_rows-Taken now now until to 0 n rows,
      )

length-delete_leased :
    (receipt to : String) (rows : List Message)
    → length (delete_leased receipt to rows) ≤ length rows
unfolding delete_leased
length-delete_leased receipt to [] = ground arith
length-delete_leased receipt to (m ∷ rows) = ground (arith, length-delete_leased receipt to rows)

delete_leased_idem :
    (receipt to : String) (rows : List Message)
    → delete_leased receipt to (delete_leased receipt to rows) ≡ delete_leased receipt to rows
unfolding delete_leased
delete_leased_idem receipt to [] = refl
delete_leased_idem receipt to (m ∷ rows) = ground (arith, delete_leased_idem receipt to rows)

inbox_rows-delete_leased :
    (receipt to other : String) (rows : List Message)
    → to ≢ other
    → inbox_rows other (delete_leased receipt to rows) ≡ inbox_rows other rows
unfolding delete_leased inbox_rows
inbox_rows-delete_leased receipt to other [] h = refl
inbox_rows-delete_leased receipt to other (m ∷ rows) h =
    ground (
      arith,
      eq_iff m.to_id to,
      eq_iff m.to_id other,
      inbox_rows-delete_leased receipt to other rows,
    )

-- An acknowledgement for one inbox leaves the number of rows of every other inbox as it is, and
-- the same acknowledgement, made again, finds no row.
ack_once :
    (receipt to other : String) (db : MailboxDb)
    → to ≢ other
    → (inbox_rows other (ack_sync receipt to db).1.messages ≡ inbox_rows other db.messages)
      × ((ack_sync receipt to (ack_sync receipt to db).1).0 ≡ false)
unfolding ack_sync
ack_once receipt to other db h = (
  inbox_rows-delete_leased receipt to other db.messages h,
  rw (delete_leased_idem receipt to db.messages) (ground arith),
)
