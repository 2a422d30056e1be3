-- ===== src/Examples/Mailbox.antt =====
-- The theorems on the mailbox at concrete inputs.
use nexum_core.Common.{ℕ, ◌+◌, ◌-◌, ◌≤◌, String, ◌≡◌, refl, true, List, [], ◌∷◌, arith}
use nexum_core.Common.Text.{trim}
use nexum_core.Common.Table.{Table, lookup}
use nexum_core.Common.Outcome.{Result, ok}
use nexum_core.Transport.Wire.{NxmsEnvelope, tx_sign_req}
use nexum_core.Mailbox.Store.{
  MailboxDb, MailboxLimits, LeasedMessage, push_sync, pull_sync, ack_sync, delete_expired,
  exists_key, inbox_rows, inbox_bytes, lease_rows, char_count,
}
use nexum_core.Mailbox.Store.Delivery.{delivered}
use nexum_core.Mailbox.Store.Disjoint.{picked, has_id, HandsOut, pulls_disjoint}
use nexum_core.Common.Rows.{count_rows}
use nexum_core.Mailbox.Store.Quota.{
  Request, push, pull, ack, cleanup, IsWithin, serve, serve-IsWithin,
}
use nexum_core.Mailbox.Limiter.{WindowCounter, admitted, admitted_bound}

abbrev pub envelope : NxmsEnvelope
envelope = record {
  proto = "NXMS/1";
  kem_id = "FrodoKEM-640-SHAKE";
  sig_id = "Falcon-1024-CT";
  msg_type = tx_sign_req;
  escrow_id_hex = "00112233445566778899aabbccddeeff";
  from = "alice";
  to = "bob";
  seq = 3;
  kem_ct_b64 = "AA";
  nonce_b64 = "AA";
  ciphertext_b64 = "AA";
  tag_b64 = "AA";
  sig_b64 = "AA";
}

abbrev pub encode : NxmsEnvelope → String
encode _ = "{}"

abbrev pub decode : String → Result String NxmsEnvelope
decode _ = ok envelope

abbrev draw : ℕ → String
draw _ = "r"

abbrev pub limits : MailboxLimits
limits = record { max_messages_per_inbox = 2; max_bytes_per_inbox = 10; max_rows_global = 3 }

abbrev pub empty : MailboxDb
empty = record { messages = []; last_id = 0 }

abbrev pub pushed : MailboxDb
pushed = (push_sync encode 1000 envelope 60 limits empty).1

abbrev pulled : Result String (List LeasedMessage) × MailboxDb
pulled = pull_sync decode draw 2000 "bob" 5 30 pushed

abbrev first : List LeasedMessage
first = record { receipt = "r"; envelope = envelope } ∷ []

delivered_example :
    (pulled.0 ≡ ok first)
    × ((ack_sync "r" "bob" pulled.1).0 ≡ true)
    × ((ack_sync "r" "bob" pulled.1).1.messages ≡ [])
unfolding push_sync delete_expired exists_key inbox_rows inbox_bytes
delivered_example =
    delivered encode limits decode draw 1000 2000 60 4 30 envelope empty refl refl refl
      (omega arith)

-- Two messages, of which each pull takes one.
abbrev two : MailboxDb
two = (push_sync encode 1000 (record envelope { seq = 4 }) 60 limits pushed).1

abbrev once : MailboxDb
once = (pull_sync decode draw 2000 "bob" 1 30 two).1

pulls_disjoint_example :
    let rows = picked 2000 "bob" 1 (delete_expired 2000 two.messages) in
    let rows' = picked 9000 "bob" 1 (delete_expired 9000 once.messages) in
    HandsOut decode draw 0 rows first
    × HandsOut decode draw 0 rows' first
    × (count_rows (has_id 1) rows + count_rows (has_id 1) rows'
        ≤ count_rows (has_id 1) two.messages)
unfolding push_sync pull_sync delete_expired exists_key inbox_rows inbox_bytes lease_rows char_count
pulls_disjoint_example =
    pulls_disjoint decode draw 2000 9000 1 1 30 30 1 "bob" two first first (omega arith)
      (omega arith) refl refl

abbrev requests : List Request
requests = push 1000 envelope 60 ∷ pull 2000 "bob" 5 30 ∷ ack "r" "bob" ∷ cleanup 3000 ∷ []

serve-IsWithin_example :
    IsWithin "bob" encode decode draw limits (serve "bob" encode decode draw limits empty requests)
unfolding inbox_rows
serve-IsWithin_example =
    serve-IsWithin "bob" encode decode draw limits empty requests
      (record { global = omega arith; inbox = omega arith })

abbrev counters : Table WindowCounter
counters = ("bob", record { started_at = 100; count = 1 }) ∷ []

abbrev calls : List (String × ℕ)
calls = ("bob", 110) ∷ ("carol", 120) ∷ ("bob", 130) ∷ []

admitted_bound_example : admitted "bob" 2 calls counters ≤ 2 - 1
unfolding trim lookup
admitted_bound_example =
    admitted_bound "bob" 2 (record { started_at = 100; count = 1 }) calls counters (omega arith)
      refl (omega arith) refl (ground arith)
