-- ===== src/Mailbox/Store/Stats.antt =====
-- crates/nxms-mailbox/src/db.rs: `stats_sync`. The two queries see the same table; the sizes of the
-- files are arguments. SQLite leaves the order of inboxes with equal backlogs open.
use Prim.Native.Nat.{◌/◌}
use nexum_core.Common.{
  ℕ, suc, ◌+◌, ◌-◌, min, String, str_eq, ◌≡◌, refl, ◌||◌, List, [], ◌∷◌, ltb, ◌==◌, if◌then◌else◌,
  length, arith, eq_iff, ◌∙◌,
}
use nexum_core.Mailbox.Store.{
  MailboxDb, Message, char_count, delete_expired, inbox_rows, inbox_bytes,
}

pub record InboxStats : Type 0 where
  pub to : String
  pub backlog_count : ℕ
  pub oldest_age_secs : ℕ
  pub bytes : ℕ

pub record MailboxStats : Type 0 where
  pub total_rows : ℕ
  pub db_bytes : ℕ
  pub wal_bytes : ℕ
  pub inboxes : List InboxStats

-- A row of the second query.
pub record Group : Type 0 where
  pub to_id : String
  pub backlog_count : ℕ
  pub oldest_ms : ℕ
  pub total_bytes : ℕ

abbrev pub group_of : Message → Group
group_of m = record {
  to_id = m.to_id;
  backlog_count = 1;
  oldest_ms = m.received_at_ms;
  total_bytes = char_count m.envelope_json;
}

abbrev pub with_message : Message → Group → Group
with_message m g = record g {
  backlog_count = suc g.backlog_count;
  oldest_ms = min m.received_at_ms g.oldest_ms;
  total_bytes = char_count m.envelope_json + g.total_bytes;
}

-- `GROUP BY to_id`
unfoldable pub add_message : Message → List Group → List Group
add_message m [] = group_of m ∷ []
add_message m (g ∷ groups) =
    let rest = add_message m groups in
    if str_eq g.to_id m.to_id then with_message m g ∷ groups else g ∷ rest

unfoldable pub group_rows : List Message → List Group
group_rows [] = []
group_rows (m ∷ rows) = add_message m (group_rows rows)

-- `ORDER BY backlog_count DESC`
unfoldable pub insert_group : Group → List Group → List Group
insert_group g [] = g ∷ []
insert_group g (h ∷ groups) =
    let rest = insert_group g groups in
    if ltb g.backlog_count h.backlog_count then h ∷ rest else g ∷ h ∷ groups

unfoldable pub order_groups : List Group → List Group
order_groups [] = []
order_groups (g ∷ groups) = insert_group g (order_groups groups)

abbrev pub oldest_age : ℕ → ℕ → ℕ
oldest_age now oldest_ms =
    if oldest_ms == 0 || ltb now oldest_ms then 0 else (now - oldest_ms) / 1000

-- The loop over the query's rows.
unfoldable pub read_groups : ℕ → List Group → List InboxStats
read_groups now [] = []
read_groups now (g ∷ groups) =
    record {
      to = g.to_id;
      backlog_count = g.backlog_count;
      oldest_age_secs = oldest_age now g.oldest_ms;
      bytes = g.total_bytes;
    }
    ∷ read_groups now groups

unfoldable pub stats_sync : ℕ → ℕ → ℕ → MailboxDb → MailboxStats
stats_sync now db_bytes wal_bytes db =
    let active = delete_expired now db.messages in
    record {
      total_rows = length active;
      db_bytes = db_bytes;
      wal_bytes = wal_bytes;
      inboxes = read_groups now (order_groups (group_rows active));
    }

-- The sum of what a measure says of the inboxes.
unfoldable sum_by : (InboxStats → ℕ) → List InboxStats → ℕ
sum_by measure [] = 0
sum_by measure (s ∷ inboxes) = measure s + sum_by measure inboxes

-- A measure of one inbox alone.
abbrev only : String → (InboxStats → ℕ) → InboxStats → ℕ
only to measure s = if str_eq s.to to then measure s else 0

module _ (now : ℕ) (measure : InboxStats → ℕ) where
  abbrev total : List Group → ℕ
  total groups = sum_by measure (read_groups now groups)

  insert_group-total :
      (g : Group) (groups : List Group) → total (insert_group g groups) ≡ total (g ∷ groups)
  unfolding insert_group read_groups sum_by
  insert_group-total g [] = refl
  insert_group-total g (h ∷ groups) = ground (arith, insert_group-total g groups)

  order_groups-total : (groups : List Group) → total (order_groups groups) ≡ total groups
  unfolding order_groups read_groups sum_by
  order_groups-total [] = refl
  order_groups-total (g ∷ groups) =
      ground (arith, insert_group-total g (order_groups groups), order_groups-total groups)

abbrev backlog : InboxStats → ℕ
backlog s = s.backlog_count

abbrev size : InboxStats → ℕ
size s = s.bytes

module _ (now : ℕ) where
  add_message-total :
      (m : Message) (groups : List Group)
      → total now backlog (add_message m groups) ≡ suc (total now backlog groups)
  unfolding add_message read_groups sum_by
  add_message-total m [] = refl
  add_message-total m (g ∷ groups) = ground (arith, add_message-total m groups)

  group_rows-total : (rows : List Message) → total now backlog (group_rows rows) ≡ length rows
  unfolding group_rows read_groups sum_by
  group_rows-total [] = refl
  group_rows-total (m ∷ rows) =
      ground (arith, add_message-total m (group_rows rows), group_rows-total rows)

  module _ (to : String) where
    add_message-backlog :
        (m : Message) (groups : List Group)
        → total now (only to backlog) (add_message m groups)
          ≡ (if str_eq m.to_id to then 1 else 0) + total now (only to backlog) groups
    unfolding add_message read_groups sum_by
    add_message-backlog m [] = refl
    add_message-backlog m (g ∷ groups) = ground (
      arith,
      eq_iff g.to_id m.to_id,
      eq_iff g.to_id to,
      eq_iff m.to_id to,
      add_message-backlog m groups,
    )

    add_message-size :
        (m : Message) (groups : List Group)
        → total now (only to size) (add_message m groups)
          ≡ (if str_eq m.to_id to then char_count m.envelope_json else 0)
            + total now (only to size) groups
    unfolding add_message read_groups sum_by
    add_message-size m [] = refl
    add_message-size m (g ∷ groups) = ground (
      arith,
      eq_iff g.to_id m.to_id,
      eq_iff g.to_id to,
      eq_iff m.to_id to,
      add_message-size m groups,
    )

    group_rows-backlog :
        (rows : List Message) → total now (only to backlog) (group_rows rows) ≡ inbox_rows to rows
    unfolding group_rows read_groups sum_by inbox_rows
    group_rows-backlog [] = refl
    group_rows-backlog (m ∷ rows) =
        ground (arith, add_message-backlog m (group_rows rows), group_rows-backlog rows)

    group_rows-size :
        (rows : List Message) → total now (only to size) (group_rows rows) ≡ inbox_bytes to rows
    unfolding group_rows read_groups sum_by inbox_bytes
    group_rows-size [] = refl
    group_rows-size (m ∷ rows) =
        ground (arith, add_message-size m (group_rows rows), group_rows-size rows)

-- The statistics agree with the quotas of a push at the same time: their rows are those of the global
-- limit and the sum of the backlogs, and of an inbox they report the rows and the bytes of its limits.
stats_quota :
    (now db_bytes wal_bytes : ℕ) (db : MailboxDb) (to : String)
    → let stats = stats_sync now db_bytes wal_bytes db in
      let active = delete_expired now db.messages in
      (stats.total_rows ≡ length active)
      × (sum_by backlog stats.inboxes ≡ length active)
      × (sum_by (only to backlog) stats.inboxes ≡ inbox_rows to active)
      × (sum_by (only to size) stats.inboxes ≡ inbox_bytes to active)
unfolding stats_sync
stats_quota now db_bytes wal_bytes db to =
    let active = delete_expired now db.messages in
    let groups = group_rows active in
    (
      refl,
      order_groups-total now backlog groups ∙ group_rows-total now active,
      order_groups-total now (only to backlog) groups ∙ group_rows-backlog now to active,
      order_groups-total now (only to size) groups ∙ group_rows-size now to active,
    )
