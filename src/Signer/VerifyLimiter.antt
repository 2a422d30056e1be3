-- ===== src/Signer/VerifyLimiter.antt =====
-- crates/nxms-signer/src/action_token.rs: `VerifyRateLimiter`, how often a token may be presented.
-- Times are in seconds. Of entries that were seen at the same time, the first of the table is evicted.
use nexum_core.Common.{
  ℕ, ◌+◌, ◌-◌, ◌^◌, ◌≤◌, min, max, leb, ltb, String, str_eq, ◌≡◌, refl, Bool, true, ◌&&◌, is_some,
  is_none, Option, none, some, List, [], ◌∷◌, length, if◌then◌else◌, arith, inl, inr, Option-cases,
  eq_iff,
}
use nexum_core.Common.Table.{Table, lookup, insert, retain}
use nexum_core.Common.Outcome.{Result, ok, err}

abbrev pub u32_max : ℕ
u32_max = 2 ^ 32 - 1

pub record VerifyRateEntry : Type 0 where
  pub window_start : ℕ
  pub count : ℕ
  pub last_seen : ℕ

pub record VerifyRateLimits : Type 0 where
  pub max_attempts : ℕ
  pub window_secs : ℕ
  pub max_keys : ℕ

-- `VerifyRateLimiter::new`
abbrev pub new_limits : ℕ → ℕ → ℕ → VerifyRateLimits
new_limits attempts window keys = record {
  max_attempts = max attempts 1;
  window_secs = max window 1;
  max_keys = max keys 64;
}

abbrev earlier :
    String → VerifyRateEntry → Option (String × VerifyRateEntry) → Option (String × VerifyRateEntry)
earlier name entry none = some (name, entry)
earlier name entry (some (other, best)) =
    if ltb best.last_seen entry.last_seen then some (other, best) else some (name, entry)

-- `entries.iter().min_by_key(|(_, entry)| entry.last_seen)`
unfoldable pub oldest : Table VerifyRateEntry → Option (String × VerifyRateEntry)
oldest [] = none
oldest ((name, entry) ∷ table) = earlier name entry (oldest table)

-- `entries.remove(key)`
unfoldable pub remove_key : String → Table VerifyRateEntry → Table VerifyRateEntry
remove_key key [] = []
remove_key key ((name, entry) ∷ table) =
    let rest = remove_key key table in if str_eq name key then table else (name, entry) ∷ rest

abbrev remove_found :
    Option (String × VerifyRateEntry) → Table VerifyRateEntry → Table VerifyRateEntry
remove_found none table = table
remove_found (some (key, _)) table = remove_key key table

unfoldable pub evict_oldest_entry : Table VerifyRateEntry → Table VerifyRateEntry
evict_oldest_entry table = remove_found (oldest table) table

abbrev pub or_insert : ℕ → Option VerifyRateEntry → VerifyRateEntry
or_insert now none = record { window_start = now; count = 0; last_seen = now }
or_insert now (some entry) = entry

abbrev pub renew_entry : VerifyRateLimits → ℕ → VerifyRateEntry → VerifyRateEntry
renew_entry limits now entry =
    if leb limits.window_secs (now - entry.window_start)
    then record { window_start = now; count = 0; last_seen = now }
    else record entry { last_seen = now }

abbrev pub is_fresh : VerifyRateLimits → ℕ → VerifyRateEntry → Bool
is_fresh limits now entry = ltb (now - entry.last_seen) limits.window_secs

-- The table after the expired entries are gone and there is room for the key.
unfoldable pub make_room :
    VerifyRateLimits → String → ℕ → Table VerifyRateEntry → Table VerifyRateEntry
make_room limits key now table =
    let kept = retain (is_fresh limits now) table in
    let full = is_none (lookup key kept) && leb limits.max_keys (length kept) in
    if full then evict_oldest_entry kept else kept

-- `key` is the digest of the token.
unfoldable pub check :
    VerifyRateLimits
    → String
    → ℕ
    → Table VerifyRateEntry
    → Result String (Unit {0}) × Table VerifyRateEntry
check limits key now table =
    let room = make_room limits key now table in
    let entry = renew_entry limits now (or_insert now (lookup key room)) in
    if leb limits.max_attempts entry.count
    then (err "action token verification rate limit exceeded; retry later", insert key entry room)
    else (ok tt, insert key (record entry { count = min (entry.count + 1) u32_max }) room)

length-retain :
    (keep : VerifyRateEntry → Bool) (table : Table VerifyRateEntry)
    → length (retain keep table) ≤ length table
unfolding retain
length-retain keep [] = omega arith
length-retain keep ((name, entry) ∷ table) = ground (arith, length-retain keep table)

length-insert :
    (key : String) (entry : VerifyRateEntry) (table : Table VerifyRateEntry)
    → length (insert key entry table)
      ≡ (if is_some (lookup key table) then length table else length table + 1)
unfolding insert lookup
length-insert key entry [] = ground arith
length-insert key entry ((name, old) ∷ table) = ground (arith, length-insert key entry table)

length-remove_key :
    (key : String) (table : Table VerifyRateEntry)
    → length (remove_key key table) + (if is_some (lookup key table) then 1 else 0) ≡ length table
unfolding remove_key lookup
length-remove_key key [] = ground arith
length-remove_key key ((name, old) ∷ table) = ground (arith, length-remove_key key table)

abbrev Found : Option (String × VerifyRateEntry) → Table VerifyRateEntry → Type 0
Found none table = length table ≡ 0
Found (some (key, _)) table = is_some (lookup key table) ≡ true

oldest-Found : (table : Table VerifyRateEntry) → Found (oldest table) table
unfolding oldest lookup
oldest-Found [] = refl
oldest-Found ((name, entry) ∷ table) = elim (Option-cases (oldest table)) [
  | inl n ↦ rw n (ground (arith, eq_iff name name))
  | inr ((key, best), f) ↦ rw f (ground (arith, eq_iff name name, oldest-Found table))
]

length-evict :
    (table : Table VerifyRateEntry) → length (evict_oldest_entry table) ≡ length table - 1
unfolding evict_oldest_entry
length-evict table = elim (Option-cases (oldest table)) [
  | inl n ↦ ground (arith, oldest-Found table)
  | inr ((key, best), f) ↦ ground (arith, oldest-Found table, length-remove_key key table)
]

-- A key that is new finds room.
room-Free :
    (limits : VerifyRateLimits) (key : String) (now : ℕ) (table : Table VerifyRateEntry)
    → 1 ≤ limits.max_keys
    → length table ≤ limits.max_keys
    → length (make_room limits key now table)
        + (if is_some (lookup key (make_room limits key now table)) then 0 else 1)
      ≤ limits.max_keys
unfolding make_room
room-Free limits key now table k l =
    let kept = retain (is_fresh limits now) table in
    ground (arith, length-retain (is_fresh limits now) table, length-evict kept)

check-bounded :
    (limits : VerifyRateLimits) (key : String) (now : ℕ) (table : Table VerifyRateEntry)
    → 1 ≤ limits.max_keys
    → length table ≤ limits.max_keys
    → length (check limits key now table).1 ≤ limits.max_keys
unfolding check
check-bounded limits key now table k l =
    let room = make_room limits key now table in
    let entry = renew_entry limits now (or_insert now (lookup key room)) in
    ground (
      arith,
      room-Free limits key now table,
      length-insert key entry room,
      length-insert key (record entry { count = min (entry.count + 1) u32_max }) room,
    )

-- The table after some tokens were presented, each with the time.
pub present_all :
    VerifyRateLimits → List (String × ℕ) → Table VerifyRateEntry → Table VerifyRateEntry
present_all limits [] table = table
present_all limits ((key, now) ∷ rest) table =
    present_all limits rest (check limits key now table).1

-- However many tokens are presented, in whatever order and at whatever times, the limiter that `new`
-- makes keeps no more entries than its bound on the keys.
pub keys_bounded :
    (attempts window keys : ℕ) (calls : List (String × ℕ)) (table : Table VerifyRateEntry)
    → length table ≤ max keys 64
    → length (present_all (new_limits attempts window keys) calls table) ≤ max keys 64
unfolding present_all
keys_bounded attempts window keys [] table l = l
keys_bounded attempts window keys ((key, now) ∷ rest) table l =
    let limits = new_limits attempts window keys in
    keys_bounded attempts window keys rest (check limits key now table).1
      (check-bounded limits key now table (omega arith) l)
