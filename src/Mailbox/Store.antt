-- ===== src/Mailbox/Store.antt =====
-- crates/nxms-mailbox/src/db.rs: the table `messages` and the operations on it. A row's place in
-- the list is the order of its id, which AUTOINCREMENT makes grow. Times are milliseconds, `now` is
-- an argument; `encode` and `decode` are serde_json's on `NxmsEnvelope`, `draw k` is the k-th
-- receipt that a pull draws.
pub mod Quota
pub mod Lease
pub mod Disjoint
pub mod Delivery
pub mod Stats
use Prim.Native.String
use nexum_core.Common.{
  ℕ, zero, suc, ◌+◌, ◌-◌, ◌^◌, ◌*◌, min, max, String, Bool, true, false, ◌&&◌, ◌||◌, not, Option,
  none, some, List, [], ◌∷◌, ◌++◌, leb, ltb, ◌==◌, str_eq, if◌then◌else◌, length,
}
use nexum_core.Common.Text.{len}
use nexum_core.Common.Outcome.{Result, ok, err, ◌>>=◌}
use nexum_core.Transport.Wire.{NxmsEnvelope, msg_type_key}

abbrev pub i64_max : ℕ
i64_max = 2 ^ 63 - 1

abbrev pub u64_max : ℕ
u64_max = 2 ^ 64 - 1

pub record MailboxLimits : Type 0 where
  pub max_messages_per_inbox : ℕ
  pub max_bytes_per_inbox : ℕ
  pub max_rows_global : ℕ

pub data PushRejection : Type 0 where
  inbox_message_limit : PushRejection
  inbox_bytes_limit : PushRejection
  global_rows_limit : PushRejection

pub record PushResult : Type 0 where
  pub dedup : Bool
  pub rejection : Option PushRejection

pub record LeasedMessage : Type 0 where
  pub receipt : String
  pub envelope : NxmsEnvelope

-- A row of `messages`.
pub record Message : Type 0 where
  pub id : ℕ
  pub to_id : String
  pub from_id : String
  pub escrow_id_hex : String
  pub msg_type : String
  pub seq : ℕ
  pub envelope_json : String
  pub received_at_ms : ℕ
  pub expires_at_ms : ℕ
  pub lease_id : Option String
  pub lease_until_ms : Option ℕ

pub record MailboxDb : Type 0 where
  pub messages : List Message
  pub last_id : ℕ

-- `i64::try_from(secs.saturating_mul(1000)).unwrap_or(i64::MAX)`, then `now.saturating_add(ms.max(1))`
abbrev pub deadline : ℕ → ℕ → ℕ
deadline now secs = min (now + max (min (min (secs * 1000) u64_max) i64_max) 1) i64_max

-- SQLite's LENGTH of a text: its characters, where `envelope_json.len()` counts bytes.
unfoldable pub char_count : String → ℕ
char_count String.[] = 0
char_count (String.◌∷◌ c s) = suc (char_count s)

-- `DELETE FROM messages WHERE expires_at_ms <= now`
unfoldable pub delete_expired : ℕ → List Message → List Message
delete_expired now [] = []
delete_expired now (m ∷ rows) =
    let rest = delete_expired now rows in if leb m.expires_at_ms now then rest else m ∷ rest

-- The columns of the unique index.
abbrev pub same_key : NxmsEnvelope → ℕ → Message → Bool
same_key env seq m =
    str_eq m.to_id env.to
    && str_eq m.from_id env.from
    && str_eq m.escrow_id_hex env.escrow_id_hex
    && m.seq == seq

unfoldable pub exists_key : NxmsEnvelope → ℕ → List Message → Bool
exists_key env seq [] = false
exists_key env seq (m ∷ rows) = same_key env seq m || exists_key env seq rows

-- `SELECT COUNT(1) … WHERE to_id=?`
unfoldable pub inbox_rows : String → List Message → ℕ
inbox_rows to [] = 0
inbox_rows to (m ∷ rows) =
    let rest = inbox_rows to rows in if str_eq m.to_id to then suc rest else rest

-- `SELECT COALESCE(SUM(LENGTH(envelope_json)), 0) … WHERE to_id=?`
unfoldable pub inbox_bytes : String → List Message → ℕ
inbox_bytes to [] = 0
inbox_bytes to (m ∷ rows) =
    let rest = inbox_bytes to rows in
    if str_eq m.to_id to then char_count m.envelope_json + rest else rest

abbrev pub rejected : PushRejection → PushResult
rejected r = record { dedup = false; rejection = some r }

abbrev pub deduplicated : PushResult
deduplicated = record { dedup = true; rejection = none }

abbrev pub accepted : PushResult
accepted = record { dedup = false; rejection = none }

abbrev pub new_message : String → ℕ → NxmsEnvelope → ℕ → ℕ → ℕ → Message
new_message json now env seq expires id = record {
  id = id;
  to_id = env.to;
  from_id = env.from;
  escrow_id_hex = env.escrow_id_hex;
  msg_type = msg_type_key env.msg_type;
  seq = seq;
  envelope_json = json;
  received_at_ms = now;
  expires_at_ms = expires;
  lease_id = none;
  lease_until_ms = none;
}

module _ (encode : NxmsEnvelope → String) where
  -- The unique index cannot refuse the new row: the query before it has found no row with its key.
  unfoldable pub push_sync :
      ℕ → NxmsEnvelope → ℕ → MailboxLimits → MailboxDb → PushResult × MailboxDb
  push_sync now env ttl_secs limits db =
      let rows = delete_expired now db.messages in
      let active = record db { messages = rows } in
      let seq = min env.seq i64_max in
      let json = encode env in
      if exists_key env seq rows
      then (deduplicated, active)
      else if leb limits.max_rows_global (length rows)
      then (rejected global_rows_limit, active)
      else if leb limits.max_messages_per_inbox (inbox_rows env.to rows)
      then (rejected inbox_message_limit, active)
      else if ltb limits.max_bytes_per_inbox (min (inbox_bytes env.to rows + len json) u64_max)
      then (rejected inbox_bytes_limit, active)
      else (
        accepted,
        record {
          messages =
              rows ++ (new_message json now env seq (deadline now ttl_secs) (suc db.last_id) ∷ []);
          last_id = suc db.last_id;
        },
      )

abbrev lease_over : ℕ → Option ℕ → Bool
lease_over now none = true
lease_over now (some until) = ltb until now

-- The WHERE clause of the pull.
abbrev pub is_available : ℕ → String → Message → Bool
is_available now to m =
    str_eq m.to_id to && ltb now m.expires_at_ms && lease_over now m.lease_until_ms

module _ (decode : String → Result String NxmsEnvelope) (draw : ℕ → String) where
  -- The selected rows are leased in the order of their ids; `n` counts down the LIMIT.
  unfoldable pub lease_rows :
      ℕ → ℕ → String → ℕ → ℕ → List Message → Result String (List LeasedMessage × List Message)
  lease_rows now until to k n [] = ok ([], [])
  lease_rows now until to k zero (m ∷ rows) = ok ([], m ∷ rows)
  lease_rows now until to k (suc n) (m ∷ rows) =
      let taken = lease_rows now until to (suc k) n rows in
      let passed = lease_rows now until to k (suc n) rows in
      if is_available now to m
      then (do
        envelope ← decode m.envelope_json
        (out, rest) ← taken
        ok (
          record { receipt = draw k; envelope = envelope } ∷ out,
          record m { lease_id = some (draw k); lease_until_ms = some until } ∷ rest,
        ))
      else (do (out, rest) ← passed; ok (out, m ∷ rest))

  -- An error drops the transaction, but the expired rows have gone before it.
  unfoldable pub pull_sync :
      ℕ → String → ℕ → ℕ → MailboxDb → Result String (List LeasedMessage) × MailboxDb
  pull_sync now to max' lease_secs db =
      let rows = delete_expired now db.messages in
      elim (lease_rows now (deadline now lease_secs) to 0 max' rows) [
        | ok (out, leased) ↦ (ok out, record db { messages = leased })
        | err e ↦ (err e, record db { messages = rows })
      ]

-- `WHERE lease_id=?1 AND to_id=?2`
abbrev has_receipt : Option String → String → Bool
has_receipt none receipt = false
has_receipt (some r) receipt = str_eq r receipt

unfoldable pub delete_leased : String → String → List Message → List Message
delete_leased receipt to [] = []
delete_leased receipt to (m ∷ rows) =
    let rest = delete_leased receipt to rows in
    if has_receipt m.lease_id receipt && str_eq m.to_id to then rest else m ∷ rest

-- `true` if a row was deleted.
unfoldable pub ack_sync : String → String → MailboxDb → Bool × MailboxDb
ack_sync receipt to db =
    let rows = delete_leased receipt to db.messages in
    (ltb (length rows) (length db.messages), record db { messages = rows })

unfoldable pub cleanup_expired_sync : ℕ → MailboxDb → MailboxDb
cleanup_expired_sync now db = record db { messages = delete_expired now db.messages }
