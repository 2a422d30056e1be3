-- ===== src/Mailbox/Limiter.antt =====
-- crates/nxms-mailbox/src/lib.rs: `FixedWindowLimiter`. `now` is in seconds, an argument.
use nexum_core.Common.{
  ℕ, ◌+◌, ◌-◌, ◌≤◌, ◌<◌, min, String, ◌≡◌, Bool, true, false, Option, none, some, List, [], ◌∷◌,
  arith, leb, ltb, ◌==◌, ◌||◌, if◌then◌else◌, length, str_eq, eq_iff, is_none, ◌&&◌,
}
use nexum_core.Common.Text.{trim, is_empty}
use nexum_core.Common.Table.{Table, lookup, insert, retain, lookup-insert}

abbrev pub u32_max : ℕ
u32_max = 4294967295

pub record WindowCounter : Type 0 where
  pub started_at : ℕ
  pub count : ℕ

-- `lock.entry(key).or_insert(WindowCounter { started_at: now, count: 0 })`
abbrev or_insert : ℕ → Option WindowCounter → WindowCounter
or_insert now none = record { started_at = now; count = 0 }
or_insert now (some c) = c

-- A window that is over starts anew.
abbrev renew : ℕ → WindowCounter → WindowCounter
renew now c = if leb 60 (now - c.started_at) then record { started_at = now; count = 0 } else c

-- The counter in force for a key at `now`.
unfoldable pub current : ℕ → String → Table WindowCounter → WindowCounter
current now key lock = renew now (or_insert now (lookup key lock))

abbrev is_recent : ℕ → WindowCounter → Bool
is_recent now v = ltb (now - v.started_at) 120

-- `if lock.len() > 50_000 { lock.retain(…) }`
unfoldable pub prune : ℕ → Table WindowCounter → Table WindowCounter
prune now lock =
    let kept = retain (is_recent now) lock in if ltb 50000 (length lock) then kept else lock

unfoldable pub check : String → ℕ → ℕ → Table WindowCounter → Option ℕ × Table WindowCounter
check key limit_per_min now lock =
    let c = current now key lock in
    if limit_per_min == 0 || is_empty (trim key)
    then (none, lock)
    else if leb limit_per_min c.count
    then (some (60 - min (now - c.started_at) 60), insert key c lock)
    else (none, prune now (insert key (record c { count = min (c.count + 1) u32_max }) lock))

lookup-retain :
    (key : String) (keep : WindowCounter → Bool) (c : WindowCounter) (lock : Table WindowCounter)
    → lookup key lock ≡ some c
    → keep c ≡ true
    → lookup key (retain keep lock) ≡ some c
unfolding lookup retain
lookup-retain key keep c [] h k = cc
lookup-retain key keep c ((j, v) ∷ lock) h k =
    ground (arith, eq_iff j key, lookup-retain key keep c lock)

lookup-prune :
    (key : String) (now : ℕ) (c : WindowCounter) (lock : Table WindowCounter)
    → lookup key lock ≡ some c
    → now - c.started_at < 120
    → lookup key (prune now lock) ≡ some c
unfolding prune
lookup-prune key now c lock h k = ground (arith, lookup-retain key (is_recent now) c lock)

-- A refusal asks for a wait of one to sixty seconds.
retry_bounds :
    (key : String) (limit now retry : ℕ) (lock : Table WindowCounter)
    → (check key limit now lock).0 ≡ some retry
    → (1 ≤ retry) × (retry ≤ 60)
unfolding check current
retry_bounds key limit now retry lock h = ground arith

-- The checks of a list of (key, time) requests, in their order, and how many of those for `key`
-- were let through.
pub admitted : String → ℕ → List (String × ℕ) → Table WindowCounter → ℕ
admitted key limit [] lock = 0
admitted key limit ((k, now) ∷ calls) lock =
    let (answer, lock') = check k limit now lock in
    let rest = admitted key limit calls lock' in
    if str_eq k key && is_none answer then rest + 1 else rest

-- Every request is made in the minute from `start`.
abbrev pub InWindow : ℕ → List (String × ℕ) → Type 0
InWindow start [] = Unit
InWindow start ((k, now) ∷ calls) = (start ≤ now) × (now < start + 60) × InWindow start calls

-- Whether a request for `k` was let through and counts for `key`.
abbrev counts_for : String → String → Option ℕ → Bool
counts_for key k answer = str_eq k key && is_none answer

-- In its window, the counter of `key` goes up by one with each of its requests that is let
-- through, and stays under all other requests.
check_counter :
    (key k : String) (limit now : ℕ) (c : WindowCounter) (lock : Table WindowCounter)
    → limit ≤ u32_max
    → is_empty (trim key) ≡ false
    → 0 < limit
    → lookup key lock ≡ some c
    → c.started_at ≤ now
    → now < c.started_at + 60
    → lookup key (check k limit now lock).1
      ≡ some (record c {
        count = if counts_for key k (check k limit now lock).0 then c.count + 1 else c.count;
      })
unfolding check current
check_counter key k limit now c lock small named pos h lo hi = ground (
  arith,
  eq_iff k key,
  lookup-insert k key (current now k lock) lock,
  lookup-insert k key
      (record (current now k lock) { count = min ((current now k lock).count + 1) u32_max }) lock,
  lookup-prune key now c (
      insert k
        (record (current now k lock) { count = min ((current now k lock).count + 1) u32_max })
        lock),
  lookup-prune key now (record c { count = c.count + 1 })
      (insert k
        (record (current now k lock) { count = min ((current now k lock).count + 1) u32_max })
        lock),
)

counted_under :
    (key k : String) (limit now : ℕ) (c : WindowCounter) (lock : Table WindowCounter)
    → is_empty (trim key) ≡ false
    → 0 < limit
    → lookup key lock ≡ some c
    → c.started_at ≤ now
    → now < c.started_at + 60
    → counts_for key k (check k limit now lock).0 ≡ true
    → c.count < limit
unfolding check current
counted_under key k limit now c lock named pos h lo hi n = ground (arith, eq_iff k key)

-- Of the requests made in a key's minute, in any order with those for other keys, no more are let
-- through than its limit, less those that the minute has counted already.
pub admitted_bound :
    (key : String) (limit : ℕ) (c : WindowCounter) (calls : List (String × ℕ))
    (lock : Table WindowCounter)
    → limit ≤ u32_max
    → is_empty (trim key) ≡ false
    → 0 < limit
    → lookup key lock ≡ some c
    → InWindow c.started_at calls
    → admitted key limit calls lock ≤ limit - c.count
unfolding admitted
admitted_bound key limit c [] lock small named pos h w = ground arith
admitted_bound key limit c ((k, now) ∷ calls) lock small named pos h (lo, hi, w) =
    let lock' = (check k limit now lock).1 in
    let counted = counts_for key k (check k limit now lock).0 in
    ground (
      arith,
      check_counter key k limit now c lock,
      counted_under key k limit now c lock,
      admitted_bound key limit (record c { count = c.count + 1 }) calls lock',
      admitted_bound key limit c calls lock',
    )
