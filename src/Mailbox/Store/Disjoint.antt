-- ===== src/Mailbox/Store/Disjoint.antt =====
-- What two pulls hand out: no row twice.
use nexum_core.Common.{
  ℕ, zero, suc, Bool, ◌&&◌, ◌==◌, ◌+◌, ◌≤◌, String, ◌≡◌, List, [], ◌∷◌, arith, if◌then◌else◌,
}
use nexum_core.Common.Rows.{count_rows}
use nexum_core.Common.Outcome.{Result, ok, err, Result-cases}
use nexum_core.Transport.Wire.{NxmsEnvelope}
use nexum_core.Mailbox.Store.{
  MailboxDb, Message, LeasedMessage, i64_max, deadline, delete_expired, is_available, lease_rows,
  pull_sync,
}
use nexum_core.Mailbox.Store.Lease.{Pulled}

-- The first `n` rows that a pull may hand out.
unfoldable pub picked : ℕ → String → ℕ → List Message → List Message
picked now to n [] = []
picked now to zero (m ∷ rows) = []
picked now to (suc n) (m ∷ rows) =
    let taken = picked now to n rows in
    let passed = picked now to (suc n) rows in if is_available now to m then m ∷ taken else passed

abbrev pub has_id : ℕ → Message → Bool
has_id id m = m.id == id

abbrev may_take : ℕ → ℕ → String → Message → Bool
may_take id now to m = is_available now to m && has_id id m

module _ (id : ℕ) where
  picked-may_take :
      (now n : ℕ) (to : String) (rows : List Message)
      → count_rows (has_id id) (picked now to n rows) ≤ count_rows (may_take id now to) rows
  unfolding picked count_rows
  picked-may_take now n to [] = omega arith
  picked-may_take now zero to (m ∷ rows) = omega arith
  picked-may_take now (suc n) to (m ∷ rows) =
      ground (arith, picked-may_take now n to rows, picked-may_take now (suc n) to rows)

  count-delete_expired :
      (p : Message → Bool) (now : ℕ) (rows : List Message)
      → count_rows p (delete_expired now rows) ≤ count_rows p rows
  unfolding delete_expired count_rows
  count-delete_expired p now [] = omega arith
  count-delete_expired p now (m ∷ rows) = ground (arith, count-delete_expired p now rows)

  may_take-has_id :
      (now : ℕ) (to : String) (rows : List Message)
      → count_rows (may_take id now to) rows ≤ count_rows (has_id id) rows
  unfolding count_rows
  may_take-has_id now to [] = omega arith
  may_take-has_id now to (m ∷ rows) = ground (arith, may_take-has_id now to rows)

module _ (decode : String → Result String NxmsEnvelope) (draw : ℕ → String) where
  -- Messages that are those of the rows, in their order, each under a receipt that was drawn for it.
  abbrev pub HandsOut : ℕ → List Message → List LeasedMessage → Type 0
  HandsOut k [] [] = Unit
  HandsOut k [] (l ∷ out) = zero ≡ suc zero
  HandsOut k (m ∷ rows) [] = zero ≡ suc zero
  HandsOut k (m ∷ rows) (l ∷ out) =
      (l.receipt ≡ draw k) × (decode m.envelope_json ≡ ok l.envelope) × HandsOut (suc k) rows out

  -- What is leased until `until`: the picked rows are handed out, and are not available up to `until`.
  abbrev LeasedTo :
      ℕ
      → ℕ
      → ℕ
      → String
      → ℕ
      → ℕ
      → List Message
      → Result String (List LeasedMessage × List Message)
      → Type 0
  LeasedTo id now later to k n rows (ok (out, rest)) =
      HandsOut k (picked now to n rows) out
      × (count_rows (has_id id) (picked now to n rows) + count_rows (may_take id later to) rest
          ≤ count_rows (has_id id) rows)
  LeasedTo id now later to k n rows (err e) = Unit

  lease_rows-LeasedTo :
      (id now later until : ℕ) (to : String) (k n : ℕ) (rows : List Message)
      → later ≤ until
      → LeasedTo id now later to k n rows (lease_rows decode draw now until to k n rows)
  unfolding lease_rows picked count_rows
  lease_rows-LeasedTo id now later until to k n [] l = (tt, omega arith)
  lease_rows-LeasedTo id now later until to k zero (m ∷ rows) l =
      (tt, ground (arith, may_take-has_id id later to rows))
  lease_rows-LeasedTo id now later until to k (suc n) (m ∷ rows) l = ground (
    arith,
    Result-cases (decode m.envelope_json),
    lease_rows-LeasedTo id now later until to (suc k) n rows l,
    lease_rows-LeasedTo id now later until to k (suc n) rows l,
  )

  pull-LeasedTo :
      (id now later n secs : ℕ) (to : String) (db : MailboxDb) (out : List LeasedMessage)
      → later ≤ deadline now secs
      → Pulled decode draw now to n secs db out
      → let rows = delete_expired now db.messages in
        HandsOut 0 (picked now to n rows) out
        × (count_rows (has_id id) (picked now to n rows)
              + count_rows
                  (may_take id later to)
                  (pull_sync decode draw now to n secs db).1.messages
            ≤ count_rows (has_id id) rows)
  unfolding pull_sync
  pull-LeasedTo id now later n secs to db out within h =
      let rows = delete_expired now db.messages in
      let until = deadline now secs in
      ground (
        arith,
        Result-cases (lease_rows decode draw now until to 0 n rows),
        lease_rows-LeasedTo id now later until to 0 n rows within,
      )

  -- Two pulls that succeed, the second within the lease time of the first, each hand out, in their order,
  -- the messages of the first rows that are available to it, as many as it asks for; and no id stands
  -- more often among the rows of both than it stands in the table, so that no row is handed out twice.
  pub pulls_disjoint :
      (now later n n' secs secs' id : ℕ) (to : String) (db : MailboxDb)
      (out out' : List LeasedMessage)
      → later ≤ deadline now secs
      → later ≤ i64_max
      → Pulled decode draw now to n secs db out
      → Pulled decode draw later to n' secs' (pull_sync decode draw now to n secs db).1 out'
      → let first = picked now to n (delete_expired now db.messages) in
        let second =
          picked later to n'
            (delete_expired later (pull_sync decode draw now to n secs db).1.messages) in
        HandsOut 0 first out
        × HandsOut 0 second out'
        × (count_rows (has_id id) first + count_rows (has_id id) second
            ≤ count_rows (has_id id) db.messages)
  pulls_disjoint now later n n' secs secs' id to db out out' within small h h' =
      let db' = (pull_sync decode draw now to n secs db).1 in
      let (handed, left) = pull-LeasedTo id now later n secs to db out within h in
      let (handed', _) = pull-LeasedTo id later later n' secs' to db' out' (ground arith) h' in
      let second = picked-may_take id later n' to (delete_expired later db'.messages) in
      let kept = count-delete_expired id (may_take id later to) later db'.messages in
      let live = count-delete_expired id (has_id id) now db.messages in
      (handed, handed', omega (arith, left, second, kept, live))
