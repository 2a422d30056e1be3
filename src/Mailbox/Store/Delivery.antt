-- ===== src/Mailbox/Store/Delivery.antt =====
-- A message's way through the mailbox: pushed, pushed again, pulled, acknowledged.
use nexum_core.Common.{
  ℕ, suc, ◌<◌, min, String, ◌≡◌, refl, true, none, some, List, [], ◌∷◌, ◌++◌, arith, eq_iff,
}
use nexum_core.Common.Outcome.{Result, ok}
use nexum_core.Transport.Wire.{NxmsEnvelope}
use nexum_core.Mailbox.Store.{
  MailboxDb, MailboxLimits, Message, accepted, deduplicated, deadline, delete_expired, new_message,
  lease_rows, push_sync, pull_sync, delete_leased, ack_sync, exists_key, i64_max, same_key,
}

exists_key-append :
    (env : NxmsEnvelope) (seq : ℕ) (m : Message) (rows : List Message)
    → same_key env seq m ≡ true
    → exists_key env seq (rows ++ (m ∷ [])) ≡ true
unfolding exists_key
exists_key-append env seq m [] h = ground arith
exists_key-append env seq m (r ∷ rows) h = ground (arith, exists_key-append env seq m rows h)

module _ (decode : String → Result String NxmsEnvelope) (draw : ℕ → String) where
  pull_one :
      (later n secs last : ℕ) (m : Message) (env : NxmsEnvelope)
      → decode m.envelope_json ≡ ok env
      → m.lease_until_ms ≡ none
      → later < m.expires_at_ms
      → pull_sync decode draw later m.to_id
          (suc n)
          secs
          (record { messages = m ∷ []; last_id = last })
        ≡ (
          ok (record { receipt = draw 0; envelope = env } ∷ []),
          record {
            messages =
                record m { lease_id = some (draw 0); lease_until_ms = some (deadline later secs) }
                ∷ [];
            last_id = last;
          },
        )
  unfolding pull_sync delete_expired lease_rows
  pull_one later n secs last m env inverse free within = ground (arith, eq_iff m.to_id m.to_id)

ack_one :
    (receipt : String) (last : ℕ) (m : Message)
    → m.lease_id ≡ some receipt
    → ack_sync receipt m.to_id (record { messages = m ∷ []; last_id = last })
      ≡ (true, record { messages = []; last_id = last })
unfolding ack_sync delete_leased
ack_one receipt last m h = ground (arith, eq_iff m.to_id m.to_id, eq_iff receipt receipt)

-- The rows that a push leaves are not expired.
delete_expired_idem :
    (now : ℕ) (rows : List Message)
    → delete_expired now (delete_expired now rows) ≡ delete_expired now rows
unfolding delete_expired
delete_expired_idem now [] = refl
delete_expired_idem now (m ∷ rows) = ground (arith, delete_expired_idem now rows)

delete_expired-append :
    (now : ℕ) (m : Message) (rows : List Message)
    → now < m.expires_at_ms
    → delete_expired now (rows ++ (m ∷ [])) ≡ delete_expired now rows ++ (m ∷ [])
unfolding delete_expired
delete_expired-append now m [] h = ground arith
delete_expired-append now m (r ∷ rows) h = ground (arith, delete_expired-append now m rows h)

module _ (encode : NxmsEnvelope → String) (limits : MailboxLimits) where
  -- The row that an envelope becomes.
  abbrev row_of : ℕ → NxmsEnvelope → ℕ → MailboxDb → Message
  row_of now env ttl_secs db =
      new_message (encode env) now env (min env.seq i64_max) (deadline now ttl_secs)
        (suc db.last_id)

  abbrev stored : ℕ → NxmsEnvelope → ℕ → MailboxDb → MailboxDb
  stored now env ttl_secs db = record {
    messages = delete_expired now db.messages ++ (row_of now env ttl_secs db ∷ []);
    last_id = suc db.last_id;
  }

  push_stored :
      (now ttl_secs : ℕ) (env : NxmsEnvelope) (db : MailboxDb)
      → (push_sync encode now env ttl_secs limits db).0 ≡ accepted
      → (push_sync encode now env ttl_secs limits db).1 ≡ stored now env ttl_secs db
  unfolding push_sync
  push_stored now ttl_secs env db h = ground arith

  row_same_key :
      (now ttl_secs : ℕ) (env : NxmsEnvelope) (db : MailboxDb)
      → same_key env (min env.seq i64_max) (row_of now env ttl_secs db) ≡ true
  row_same_key now ttl_secs env db = ground (
    arith,
    eq_iff env.to env.to,
    eq_iff env.from env.from,
    eq_iff env.escrow_id_hex env.escrow_id_hex,
  )

  push_stored_again :
      (now ttl_secs ttl' : ℕ) (env : NxmsEnvelope) (db : MailboxDb)
      → now < i64_max
      → push_sync encode now env ttl' limits (stored now env ttl_secs db)
        ≡ (deduplicated, stored now env ttl_secs db)
  unfolding push_sync
  push_stored_again now ttl_secs ttl' env db small =
      let rows = delete_expired now db.messages in
      let m = row_of now env ttl_secs db in
      rw (delete_expired-append now m rows (ground arith)) (
        rw (delete_expired_idem now db.messages) (
          rw (exists_key-append env (min env.seq i64_max) m rows (row_same_key now ttl_secs env db))
            refl))

  -- An envelope that was accepted is not stored a second time: sent again at the same time, it is
  -- answered as a duplicate and changes nothing.
  push_again :
      (now ttl_secs ttl' : ℕ) (env : NxmsEnvelope) (db : MailboxDb)
      → now < i64_max
      → (push_sync encode now env ttl_secs limits db).0 ≡ accepted
      → push_sync encode now env ttl' limits (push_sync encode now env ttl_secs limits db).1
        ≡ (deduplicated, (push_sync encode now env ttl_secs limits db).1)
  push_again now ttl_secs ttl' env db small h =
      rw (push_stored now ttl_secs env db h) (push_stored_again now ttl_secs ttl' env db small)

  module _ (decode : String → Result String NxmsEnvelope) (draw : ℕ → String) where
    -- An envelope that an empty mailbox accepts is what the next pull of its receiver gives, within
    -- its time to live, and the acknowledgement of that pull's receipt empties the mailbox; the
    -- decoding of the stored text is the inverse of its encoding at this envelope.
    pub delivered :
        (now later ttl_secs n secs : ℕ) (env : NxmsEnvelope) (db : MailboxDb)
        → decode (encode env) ≡ ok env
        → db.messages ≡ []
        → (push_sync encode now env ttl_secs limits db).0 ≡ accepted
        → later < deadline now ttl_secs
        → let pushed = (push_sync encode now env ttl_secs limits db).1 in
          let pulled = pull_sync decode draw later env.to (suc n) secs pushed in
          (pulled.0 ≡ ok (record { receipt = draw 0; envelope = env } ∷ []))
          × ((ack_sync (draw 0) env.to pulled.1).0 ≡ true)
          × ((ack_sync (draw 0) env.to pulled.1).1.messages ≡ [])
    unfolding delete_expired
    delivered now later ttl_secs n secs env db inverse empty h within =
        let m = row_of now env ttl_secs db in
        let leased = record m {
          lease_id = some (draw 0);
          lease_until_ms = some (deadline later secs);
        } in
        rw (push_stored now ttl_secs env db h) (
          rw empty (
            rw (pull_one decode draw later n secs (suc db.last_id) m env inverse refl within)
              (rw (ack_one (draw 0) (suc db.last_id) leased refl) (refl, refl, refl))))
