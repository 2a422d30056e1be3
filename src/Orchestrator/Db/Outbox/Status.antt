-- ===== src/Orchestrator/Db/Outbox/Status.antt =====
-- The life of an outbox row.
use nexum_core.Common.{
  ℕ, suc, String, ◌≡◌, ◌≢◌, refl, inl, inr, false, Option, none, some, List, [], ◌∷◌, ◌++◌, arith,
  Option-cases, Bool-cases, ◌==◌, if◌then◌else◌,
}
use nexum_core.Common.Outcome.{Result-cases}
use nexum_core.Orchestrator.Db.{
  OrchestratorDb, OutboxItem, pending, dead_letter, normalize_non_empty, normalize_hex_exact,
  as_i64,
}
use nexum_core.Orchestrator.Db.Workflows.{find_workflow}
use nexum_core.Orchestrator.Db.Outbox.{
  OutboxInput, find_item, update_item, is_open, update_open, mark_outbox_sent_sync,
  mark_outbox_acked_sync, mark_outbox_retry_sync, enqueue_outbox_sync, outbox_idem_key,
  has_idem_key, insert_item, set_sent, set_acked, set_failed,
}

-- A row stays a row, and one that is no longer open stays as it is.
abbrev pub Lives : Option OutboxItem → Option OutboxItem → Type 0
Lives none o' = Unit
Lives (some o) none = o ≢ o
Lives (some o) (some o') = is_open o.status ≡ false → o' ≡ o

Lives-refl : (o : Option OutboxItem) → Lives o o
Lives-refl o = ground arith

Lives-trans : (a b c : Option OutboxItem) → Lives a b → Lives b c → Lives a c
Lives-trans a b c h k = ground arith

find_item-append :
    (id : ℕ) (rows : List OutboxItem) (o : OutboxItem)
    → Lives (find_item id rows) (find_item id (rows ++ (o ∷ [])))
unfolding find_item
find_item-append id [] o = ground arith
find_item-append id (r ∷ rows) o = ground (arith, find_item-append id rows o)

abbrev changed : (OutboxItem → OutboxItem) → Option OutboxItem → Option OutboxItem
changed f none = none
changed f (some o) = some (f o)

find_item-update :
    (id id' : ℕ) (f : OutboxItem → OutboxItem) (rows : List OutboxItem)
    → ((o : OutboxItem) → (f o).id ≡ o.id)
    → find_item id' (update_item id f rows)
      ≡ (if id == id' then changed f (find_item id' rows) else find_item id' rows)
unfolding find_item update_item
find_item-update id id' f [] h = ground arith
find_item-update id id' f (r ∷ rows) h = ground (arith, h r, find_item-update id id' f rows h)

-- The requests about the outbox.
pub data Request : Type 0 where
  enqueue : ℕ → OutboxInput → Request
  mark_sent : ℕ → ℕ → Request
  mark_acked : ℕ → ℕ → Request
  mark_retry : ℕ → ℕ → ℕ → String → String → ℕ → Request

abbrev pub At : ℕ → OrchestratorDb → Option OutboxItem
At id db = find_item id db.outbox

update_open-Lives :
    (id id' : ℕ) (f : OutboxItem → OutboxItem) (db : OrchestratorDb)
    → ((o : OutboxItem) → (f o).id ≡ o.id)
    → Lives (At id' db) (At id' (update_open id f db).1)
unfolding update_open
update_open-Lives id id' f db h = elim (Option-cases (At id db)) [
  | inl n ↦ elim (Bool-cases (id == 0)) [
    | inl z ↦ rw z (Lives-refl (At id' db))
    | inr z ↦ rw z (rw n (Lives-refl (At id' db)))
  ]
  | inr (o, e) ↦ elim (Bool-cases (id == 0)) [
    | inl z ↦ rw z (Lives-refl (At id' db))
    | inr z ↦ rw z (rw e (ground (arith, find_item-update id id' f db.outbox h)))
  ]
]

insert_item-Lives :
    (id : ℕ) (item : OutboxItem) (db : OrchestratorDb)
    → Lives (At id db) (At id (insert_item item db))
unfolding insert_item
insert_item-Lives id item db = elim (Bool-cases (has_idem_key item.idem_key db.outbox)) [
  | inl h ↦ rw h (Lives-refl (At id db))
  | inr h ↦ rw h (find_item-append id db.outbox item)
]

module _ (sha3_hex : String → String) where
  -- The row that an input becomes.
  abbrev item_of : ℕ → String → String → String → OutboxInput → OrchestratorDb → OutboxItem
  item_of now hex to kind input db = record {
    id = suc db.last_outbox_id;
    escrow_id_hex = hex;
    state = input.state;
    to_id = to;
    msg_type = kind;
    envelope_json = input.envelope_json;
    idem_key = outbox_idem_key sha3_hex hex input.state to kind (sha3_hex input.envelope_json);
    status = pending;
    attempts = 0;
    next_attempt_at_ms = as_i64 now;
    created_at_ms = as_i64 now;
    updated_at_ms = as_i64 now;
  }

  pub perform : OrchestratorDb → Request → OrchestratorDb
  perform db (enqueue now input) = (enqueue_outbox_sync sha3_hex now input db).1
  perform db (mark_sent now id) = (mark_outbox_sent_sync now id db).1
  perform db (mark_acked now id) = (mark_outbox_acked_sync now id db).1
  perform db (mark_retry now id backoff code detail limit) =
      (mark_outbox_retry_sync sha3_hex now id backoff code detail limit db).1

  pub serve : OrchestratorDb → List Request → OrchestratorDb
  serve db [] = db
  serve db (r ∷ rest) = serve (perform db r) rest

  enqueue-Lives :
      (now id : ℕ) (input : OutboxInput) (db : OrchestratorDb)
      → Lives (At id db) (At id (enqueue_outbox_sync sha3_hex now input db).1)
  unfolding enqueue_outbox_sync
  enqueue-Lives now id input db =
      elim (Result-cases
        (normalize_hex_exact input.escrow_id_hex 32 "escrow_id_hex must be 32 hex chars")) [
          | inr (e, h) ↦ rw h (Lives-refl (At id db))
          | inl (hex, h) ↦
              rw h
                (elim (Result-cases (normalize_non_empty input.to_id "to_id must not be empty")) [
                  | inr (e, k) ↦ rw k (Lives-refl (At id db))
                  | inl (to, k) ↦
                      rw k
                        (elim (Result-cases
                          (normalize_non_empty input.msg_type "msg_type must not be empty")) [
                            | inr (e, l) ↦ rw l (Lives-refl (At id db))
                            | inl (kind, l) ↦ rw l (
                                ground (
                                  arith,
                                  Option-cases (find_workflow hex db.workflow_instances),
                                  insert_item-Lives id (item_of now hex to kind input db) db,
                                ))
                          ])
                ])
        ]

  retry-Lives :
      (now id backoff limit id' : ℕ) (code detail : String) (db : OrchestratorDb)
      → Lives
          (At id' db)
          (At id' (mark_outbox_retry_sync sha3_hex now id backoff code detail limit db).1)
  unfolding mark_outbox_retry_sync
  retry-Lives now id backoff limit id' code detail db =
      elim (Result-cases (normalize_non_empty code "error_code must not be empty")) [
        | inr (e, h) ↦ rw h (elim (Bool-cases (id == 0)) [
          | inl z ↦ rw z (Lives-refl (At id' db))
          | inr z ↦ rw z (Lives-refl (At id' db))
        ])
        | inl (c, h) ↦ rw h (elim (Bool-cases (id == 0)) [
          | inl z ↦ rw z (Lives-refl (At id' db))
          | inr z ↦
              rw z
                (elim (Result-cases
                  (normalize_non_empty detail "error_detail_redacted must not be empty")) [
                    | inr (e, k) ↦ rw k (Lives-refl (At id' db))
                    | inl (d, k) ↦ rw k (elim (Option-cases (At id db)) [
                      | inl n ↦ rw n (Lives-refl (At id' db))
                      | inr (o, e) ↦ rw e (
                          ground (
                            arith,
                            find_item-update id id' (set_failed dead_letter now backoff) db.outbox
                                (λ o. refl),
                            find_item-update id id' (set_failed pending now backoff) db.outbox
                                (λ o. refl),
                          ))
                    ])
                  ])
        ])
      ]

  perform-Lives :
      (r : Request) (id : ℕ) (db : OrchestratorDb) → Lives (At id db) (At id (perform db r))
  unfolding perform mark_outbox_sent_sync mark_outbox_acked_sync
  perform-Lives (enqueue now input) id db = enqueue-Lives now id input db
  perform-Lives (mark_sent now id') id db = update_open-Lives id' id (set_sent now) db (λ o. refl)
  perform-Lives (mark_acked now id') id db = update_open-Lives id' id (set_acked now) db (λ o. refl)
  perform-Lives (mark_retry now id' backoff code detail limit) id db =
      retry-Lives now id' backoff limit id code detail db

  -- Whatever the outbox is asked, no row is lost, and one that was acknowledged or became a dead
  -- letter is never changed again.
  pub serve-Lives :
      (db : OrchestratorDb) (rs : List Request) (id : ℕ) → Lives (At id db) (At id (serve db rs))
  unfolding serve
  serve-Lives db [] id = Lives-refl (At id db)
  serve-Lives db (r ∷ rest) id =
      Lives-trans (At id db) (At id (perform db r)) (At id (serve (perform db r) rest))
        (perform-Lives r id db) (serve-Lives (perform db r) rest id)
