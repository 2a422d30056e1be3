-- ===== src/Examples/Api.antt =====
-- The theorems on the mailbox's requests at concrete inputs.
use Prim.Native.Char.{code}
use mathlib.Core.List.{Mem}
use nexum_core.Common.{
  ℕ, ◌*◌, ◌≤◌, String, ◌≡◌, ◌↔◌, ◌⊎◌, refl, true, false, none, some, Option, List, [], ◌∷◌, length,
  arith,
}
use nexum_core.Common.Table.{lookup}
use nexum_core.Common.Text.{trim, all_chars, present}
use nexum_core.Common.Outcome.{Result, ok}
use nexum_core.Transport.Security.{timing_safe_eq_fixed, timing_safe_eq_lem}
use nexum_core.Transport.Wire.{
  validate_envelope, validate_peer_id, validate_hex, validate_b64_field_len,
}
use nexum_core.Mailbox.Limiter.{check, current}
use nexum_core.Mailbox.Store.{
  LeasedMessage, push_sync, delete_expired, exists_key, inbox_rows, inbox_bytes, char_count,
}
use nexum_core.Mailbox.Store.Stats.{
  stats_sync, add_message, group_rows, insert_group, order_groups, read_groups,
}
use nexum_core.Mailbox.Api.{
  ApiConfig, ApiError, AppState, Headers, bears, require_bearer, require_push_auth,
  extract_source_ip,
}
use nexum_core.Mailbox.Api.Auth.{Bears}
use nexum_core.Mailbox.Api.Push.{
  PushRequest, PushResponse, Pushed, push, push-Pushed, store_push, enforce_push_rate_limits,
}
use nexum_core.Mailbox.Api.Pull.{PullRequest, Round, pull, pull_answers}
use nexum_core.Mailbox.Api.Ack.{ack, others, ack_touches_own}
use nexum_core.Examples.Mailbox.{envelope, encode, decode, limits, empty, pushed}

-- The bytes of an ASCII text.
abbrev as_bytes : String → List ℕ
as_bytes String.[] = []
as_bytes (String.◌∷◌ c s) = code c ∷ as_bytes s

timing_safe_eq_lem_example :
    (timing_safe_eq_fixed 8 (as_bytes "Bearer") (as_bytes "bearer") ≡ true)
    ↔ ((as_bytes "Bearer" ≡ as_bytes "bearer") × (length (as_bytes "Bearer") ≤ 8))
timing_safe_eq_lem_example = timing_safe_eq_lem 8 (as_bytes "Bearer") (as_bytes "bearer")

abbrev cfg : ApiConfig
cfg = record {
  push_token = some "p";
  pull_tokens = ("bob", "b") ∷ [];
  ack_tokens = ("carol", "c") ∷ ("bob", "p") ∷ [];
  admin_token = none;
  max_body_bytes = 10;
  default_ttl_secs = 60;
  max_ttl_secs = 100;
  lease_secs = 30;
  max_wait_ms = 500;
  limits = limits;
  rate_limit_ip_per_min = 5;
  rate_limit_to_per_min = 5;
}

-- Every header is the authorization.
abbrev headers : Headers
headers name = some "Bearer p"

abbrev start : AppState
start = record { db = empty; by_ip = []; by_to = []; notified = [] }

abbrev parse : String → Option ℕ
parse text = none

abbrev request : PushRequest
request = record { envelope = envelope; ttl_secs = some 400 }

abbrev read_json : List ℕ → Result String PushRequest
read_json body = ok request

abbrev answered : Result ApiError PushResponse × AppState
answered = push as_bytes parse read_json encode cfg 7 7 1000 none headers (1 ∷ 2 ∷ []) start

push_answered : answered ≡ (ok (record { dedup = false }), answered.1)
unfolding push require_push_auth require_bearer bears timing_safe_eq_fixed enforce_push_rate_limits
    check validate_envelope validate_peer_id validate_hex validate_b64_field_len trim all_chars
    store_push push_sync delete_expired exists_key inbox_rows inbox_bytes current lookup
    extract_source_ip present
push_answered = refl

push-Pushed_example :
    Pushed as_bytes parse read_json encode cfg 1000 headers
      (1 ∷ 2 ∷ [])
      (record { dedup = false })
      start
      answered.1
push-Pushed_example =
    push-Pushed as_bytes parse read_json encode cfg 7 7 1000 none headers (1 ∷ 2 ∷ [])
      (record { dedup = false }) start answered.1 push_answered

ack_touches_own_example :
    let s = record start { db = pushed } in
    let s' = (ack as_bytes cfg headers "r" s).1 in
    (s' ≡ s)
    ⊎ ((inbox : String) × (token : String) × Mem (inbox, token) cfg.ack_tokens
        × Bears as_bytes headers token
        × (others inbox s'.db ≡ others inbox s.db)
        × (s'.by_ip ≡ s.by_ip)
        × (s'.by_to ≡ s.by_to)
        × (s'.notified ≡ s.notified))
ack_touches_own_example = ack_touches_own as_bytes cfg headers "r" (record start { db = pushed })

-- Each round takes 300 ms and is woken.
abbrev rounds : ℕ → Round
rounds k = record { others = λ db. db; now = 2000; instant = 300 * k; woken = true }

abbrev asked : PullRequest
asked = record { to = "bob"; max' = none; wait_ms = some 900 }

pull_answers_example :
    (a : Result ApiError (List LeasedMessage) × AppState) × (pull decode
        (λ k n. "r")
        as_bytes
        cfg
        headers
        asked
        3
        0
        rounds
        start
      ≡ some a)
pull_answers_example =
    pull_answers decode (λ k n. "r") as_bytes cfg headers asked 3 0 2 rounds start (omega arith)
      (omega arith)

-- The statistics of the mailbox with one message, which was received at 1000.
stats_example :
    (stats_sync 4000 7 8 pushed).inboxes
    ≡ record {
      to = "bob";
      backlog_count = 1;
      oldest_age_secs = 3;
      bytes = char_count (encode envelope);
    }
      ∷ []
unfolding stats_sync delete_expired group_rows add_message order_groups insert_group read_groups
    char_count push_sync exists_key inbox_rows inbox_bytes
stats_example = refl
