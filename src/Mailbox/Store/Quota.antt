-- ===== src/Mailbox/Store/Quota.antt =====
-- The quotas of the mailbox, over any sequence of operations.
use nexum_core.Common.{
  ℕ, zero, suc, ◌≤◌, min, String, ◌≡◌, refl, List, [], ◌∷◌, ◌++◌, arith, str_eq, eq_iff,
  if◌then◌else◌, length,
}
use nexum_core.Common.Outcome.{Result, ok, err, Result-cases}
use nexum_core.Transport.Wire.{NxmsEnvelope}
use nexum_core.Mailbox.Store.{
  MailboxDb, MailboxLimits, Message, LeasedMessage, deadline, delete_expired, inbox_rows,
  new_message, lease_rows, push_sync, pull_sync, delete_leased, ack_sync, cleanup_expired_sync,
  i64_max,
}

-- The requests that change the store.
pub data Request : Type 0 where
  push : ℕ → NxmsEnvelope → ℕ → Request
  pull : ℕ → String → ℕ → ℕ → Request
  ack : String → String → Request
  cleanup : ℕ → Request

length-append : (m : Message) (rows : List Message) → length (rows ++ (m ∷ [])) ≡ suc (length rows)
length-append m [] = refl
length-append m (_ ∷ rows) = rw (length-append m rows)

module _ (to : String) where
  inbox_rows-append :
      (m : Message) (rows : List Message)
      → inbox_rows to (rows ++ (m ∷ []))
        ≡ (if str_eq m.to_id to then suc (inbox_rows to rows) else inbox_rows to rows)
  unfolding inbox_rows
  inbox_rows-append m [] = refl
  inbox_rows-append m (r ∷ rows) = ground (arith, inbox_rows-append m rows)

  -- One list of rows has no more rows than another, in all and in the inbox.
  abbrev IsSmaller : List Message → List Message → Type 0
  IsSmaller rows rows' = (length rows ≤ length rows') × (inbox_rows to rows ≤ inbox_rows to rows')

  delete_expired-IsSmaller :
      (now : ℕ) (rows : List Message) → IsSmaller (delete_expired now rows) rows
  unfolding delete_expired inbox_rows
  delete_expired-IsSmaller now [] = ground arith
  delete_expired-IsSmaller now (m ∷ rows) = ground (arith, delete_expired-IsSmaller now rows)

  delete_leased-IsSmaller :
      (receipt inbox : String) (rows : List Message)
      → IsSmaller (delete_leased receipt inbox rows) rows
  unfolding delete_leased inbox_rows
  delete_leased-IsSmaller receipt inbox [] = ground arith
  delete_leased-IsSmaller receipt inbox (m ∷ rows) =
      ground (arith, delete_leased-IsSmaller receipt inbox rows)

  abbrev LeasedSmaller : List Message → Result String (List LeasedMessage × List Message) → Type 0
  LeasedSmaller rows (ok (out, rest)) = IsSmaller rest rows
  LeasedSmaller rows (err e) = Unit

  module _ (encode : NxmsEnvelope → String) (decode : String → Result String NxmsEnvelope)
      (draw : ℕ → String) (limits : MailboxLimits) where
    lease_rows-LeasedSmaller :
        (now until : ℕ) (inbox : String) (k n : ℕ) (rows : List Message)
        → LeasedSmaller rows (lease_rows decode draw now until inbox k n rows)
    unfolding lease_rows inbox_rows
    lease_rows-LeasedSmaller now until inbox k n [] = ground arith
    lease_rows-LeasedSmaller now until inbox k zero (m ∷ rows) = ground arith
    lease_rows-LeasedSmaller now until inbox k (suc n) (m ∷ rows) = ground (
      arith,
      Result-cases (decode m.envelope_json),
      lease_rows-LeasedSmaller now until inbox (suc k) n rows,
      lease_rows-LeasedSmaller now until inbox k (suc n) rows,
    )

    pub perform : MailboxDb → Request → MailboxDb
    perform db (push now env ttl_secs) = (push_sync encode now env ttl_secs limits db).1
    perform db (pull now inbox max' lease_secs) =
        (pull_sync decode draw now inbox max' lease_secs db).1
    perform db (ack receipt inbox) = (ack_sync receipt inbox db).1
    perform db (cleanup now) = cleanup_expired_sync now db

    pub serve : MailboxDb → List Request → MailboxDb
    unfolding perform
    serve db [] = db
    serve db (r ∷ rs) = serve (perform db r) rs

    pub record IsWithin (db : MailboxDb) : Type 0 where
      pub global : length db.messages ≤ limits.max_rows_global
      pub inbox : inbox_rows to db.messages ≤ limits.max_messages_per_inbox

    perform-IsWithin : (db : MailboxDb) (r : Request) → IsWithin db → IsWithin (perform db r)
    unfolding perform push_sync pull_sync ack_sync cleanup_expired_sync
    perform-IsWithin db (push now env ttl_secs) w =
        let rows = delete_expired now db.messages in
        let m =
          new_message (encode env) now env (min env.seq i64_max) (deadline now ttl_secs)
            (suc db.last_id) in
        ground (
          arith,
          delete_expired-IsSmaller now db.messages,
          length-append m rows,
          inbox_rows-append m rows,
          eq_iff env.to to,
        )
    perform-IsWithin db (pull now inbox n secs) w =
        let rows = delete_expired now db.messages in
        ground (
          arith,
          delete_expired-IsSmaller now db.messages,
          Result-cases (lease_rows decode draw now (deadline now secs) inbox 0 n rows),
          lease_rows-LeasedSmaller now (deadline now secs) inbox 0 n rows,
        )
    perform-IsWithin db (ack receipt inbox) w =
        ground (arith, delete_leased-IsSmaller receipt inbox db.messages)
    perform-IsWithin db (cleanup now) w = ground (arith, delete_expired-IsSmaller now db.messages)

    -- A store that is within the limits on its rows, in all and in an inbox, stays within them
    -- whatever pushes, pulls, acknowledgements and cleanups it serves.
    pub serve-IsWithin : (db : MailboxDb) (rs : List Request) → IsWithin db → IsWithin (serve db rs)
    unfolding serve
    serve-IsWithin db [] w = w
    serve-IsWithin db (r ∷ rs) w = serve-IsWithin (perform db r) rs (perform-IsWithin db r w)
