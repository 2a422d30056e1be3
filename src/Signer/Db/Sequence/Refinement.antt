-- ===== src/Signer/Db/Sequence/Refinement.antt =====
-- The replay guard as a function from a stream of messages, an escrow and a sender, to the last
-- number that was taken.
use nexum_core.Common.{
  ℕ, max, String, ◌≡◌, refl, ap, inl, inr, Bool, true, false, ◌&&◌, Option, none, some, List, [],
  ◌∷◌, ◌++◌, str_eq, eq_iff, if◌then◌else◌, arith, Bool-cases,
}
use nexum_core.Common.Outcome.{is_ok}
use nexum_core.Common.Rows.{any_row}
use nexum_core.Signer.Db.{SignerDb, IncomingSeen, as_i64}
use nexum_core.Signer.Db.Sequence.{
  is_stream, at_least, max_seen, is_ahead, same_seen, record_incoming_seq_sync,
}
use mathlib.Core.Path.{fun_ext}

-- A message with its number.
pub record Message : Type 0 where
  pub escrow : String
  pub sender : String
  pub seq : ℕ

-- The last number of each stream.
abbrev pub LastTaken : Type 0
LastTaken = String → String → Option ℕ

-- The specification: a message is taken if its number is ahead, and then is the last one.
abbrev pub take_message : LastTaken → Message → LastTaken
take_message last m escrow sender =
    if is_ahead (as_i64 m.seq) (last m.escrow m.sender)
      && (str_eq m.escrow escrow && str_eq m.sender sender)
    then some (as_i64 m.seq)
    else last escrow sender

abbrev pub taken : LastTaken → Message → Bool
taken last m = is_ahead (as_i64 m.seq) (last m.escrow m.sender)

pub spec_run : LastTaken → List Message → List Bool × LastTaken
spec_run last [] = ([], last)
spec_run last (m ∷ ms) =
    let (answers, last') = spec_run (take_message last m) ms in (taken last m ∷ answers, last')

-- The database's run, with whether each message was accepted.
pub run : ℕ → SignerDb → List Message → List Bool × SignerDb
run now db [] = ([], db)
run now db (m ∷ ms) =
    let (answer, db') = record_incoming_seq_sync now m.escrow m.sender m.seq db in
    let (answers, last) = run now db' ms in (is_ok answer ∷ answers, last)

-- What the table stands for.
abbrev pub view : SignerDb → LastTaken
view db escrow sender = max_seen escrow sender db.incoming_seen

at_least_comm : (a b : ℕ) (o : Option ℕ) → max a (at_least b o) ≡ max b (at_least a o)
at_least_comm a b none = omega arith
at_least_comm a b (some n) = omega arith

max_seen-append :
    (escrow sender : String) (rows : List IncomingSeen) (row : IncomingSeen)
    → max_seen escrow sender (rows ++ (row ∷ [])) ≡ (
        if is_stream escrow sender row
        then some (at_least row.seq (max_seen escrow sender rows))
        else max_seen escrow sender rows)
unfolding max_seen
max_seen-append escrow sender [] row = refl
max_seen-append escrow sender (r ∷ rows) row = elim (Bool-cases (is_stream escrow sender r)) [
  | inl e ↦ elim (Bool-cases (is_stream escrow sender row)) [
    | inl f ↦ rw e (
        rw (max_seen-append escrow sender rows row)
          (rw f (ap some (at_least_comm r.seq row.seq (max_seen escrow sender rows)))))
    | inr f ↦ rw e (rw (max_seen-append escrow sender rows row) (rw f refl))
  ]
  | inr e ↦ rw e (max_seen-append escrow sender rows row)
]

-- A number that is ahead has not been stored.
ahead_unseen :
    (escrow sender : String) (n : ℕ) (rows : List IncomingSeen)
    → is_ahead n (max_seen escrow sender rows) ≡ true
    → any_row (same_seen escrow sender n) rows ≡ false
unfolding max_seen any_row
ahead_unseen escrow sender n [] h = refl
ahead_unseen escrow sender n (r ∷ rows) h = ground (arith, ahead_unseen escrow sender n rows)

-- The row that a message becomes.
abbrev row_of : ℕ → Message → IncomingSeen
row_of now m = record {
  escrow_id_hex = m.escrow;
  from_id = m.sender;
  seq = as_i64 m.seq;
  seen_at_ms = as_i64 now;
}

record-taken :
    (now : ℕ) (m : Message) (db : SignerDb)
    → is_ok (record_incoming_seq_sync now m.escrow m.sender m.seq db).0 ≡ taken (view db) m
unfolding record_incoming_seq_sync
record-taken now m db =
    ground (arith, ahead_unseen m.escrow m.sender (as_i64 m.seq) db.incoming_seen)

record-view :
    (now : ℕ) (m : Message) (db : SignerDb) (escrow sender : String)
    → view (record_incoming_seq_sync now m.escrow m.sender m.seq db).1 escrow sender
      ≡ take_message (view db) m escrow sender
unfolding record_incoming_seq_sync
record-view now m db escrow sender = ground (
  arith,
  eq_iff m.escrow escrow,
  eq_iff m.sender sender,
  ahead_unseen m.escrow m.sender (as_i64 m.seq) db.incoming_seen,
  max_seen-append escrow sender db.incoming_seen (row_of now m),
)

-- The guard refines its specification: on any sequence of messages it accepts those whose number
-- is greater than the last one taken of their escrow and sender, and stores no more than that.
pub run_refines :
    (now : ℕ) (db : SignerDb) (ms : List Message)
    → ((run now db ms).0 ≡ (spec_run (view db) ms).0)
      × (view (run now db ms).1 ≡ (spec_run (view db) ms).1)
unfolding run spec_run
run_refines now db [] = (refl, refl)
run_refines now db (m ∷ ms) =
    let db' = (record_incoming_seq_sync now m.escrow m.sender m.seq db).1 in
    let same : view db' ≡ take_message (view db) m =
      fun_ext λ escrow. fun_ext λ sender. record-view now m db escrow sender in
    let rest = run_refines now db' ms in
    (
      rw (record-taken now m db) (rw (← same) (ap (λ answers. taken (view db) m ∷ answers) rest.0)),
      rw (← same) rest.1,
    )
