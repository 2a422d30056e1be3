-- ===== src/Mailbox/Api.antt =====
-- crates/nxms-mailbox/src/api.rs: the configuration, the errors and the authorization of the requests,
-- and `RateLimits` of lib.rs. `headers` reads a header that is visible text; `as_bytes` is `str::as_bytes`.
pub mod Auth
pub mod Push
pub mod Pull
pub mod Ack
pub mod Admin
use Prim.Native.Char.{code}
use Prim.Native.String
use nexum_core.Common.{
  ℕ, max, ◌==◌, String, Bool, true, false, Option, none, some, List, [], ◌∷◌, if◌then◌else◌,
}
use nexum_core.Common.Text.{trim, is_empty, present}
use nexum_core.Common.Table.{Table, lookup}
use nexum_core.Common.Outcome.{Result, ok, err}
use nexum_core.Common.Method.{Method}
use nexum_core.Transport.Security.{timing_safe_eq_fixed}
use nexum_core.Mailbox.Limiter.{WindowCounter}
use nexum_core.Mailbox.Store.{
  MailboxDb, MailboxLimits, PushRejection, inbox_message_limit, inbox_bytes_limit,
  global_rows_limit,
}

abbrev pub auth_header_compare_max_len : ℕ
auth_header_compare_max_len = 1024

pub record ApiConfig : Type 0 where
  pub push_token : Option String
  pub pull_tokens : Table String
  pub ack_tokens : Table String
  pub admin_token : Option String
  pub max_body_bytes : ℕ
  pub default_ttl_secs : ℕ
  pub max_ttl_secs : ℕ
  pub lease_secs : ℕ
  pub max_wait_ms : ℕ
  pub limits : MailboxLimits
  pub rate_limit_ip_per_min : ℕ
  pub rate_limit_to_per_min : ℕ

pub record ApiError : Type 0 where
  pub status : ℕ
  pub detail : String
  pub retry_after_secs : Option ℕ

-- `ApiError::new`
abbrev pub api_error : ℕ → String → ApiError
api_error status detail = record { status = status; detail = detail; retry_after_secs = none }

-- `ApiError::with_retry_after`
abbrev pub with_retry_after : ℕ → String → ℕ → ApiError
with_retry_after status detail secs = record {
  status = status;
  detail = detail;
  retry_after_secs = some (max secs 1);
}

-- `AppState`, and the inboxes whose waiters were notified, the last first.
pub record AppState : Type 0 where
  pub db : MailboxDb
  pub by_ip : Table WindowCounter
  pub by_to : Table WindowCounter
  pub notified : List String

-- A request's handler.
abbrev pub Handler : Type 0 → Type 0
Handler A = Method AppState ApiError A

abbrev pub Headers : Type 0
Headers = String → Option String

abbrev pub or_empty : Option String → String
or_empty none = ""
or_empty (some s) = s

-- The text before the first comma: `v.split(',').next()`.
first_part : String → String
first_part String.[] = String.[]
first_part (String.◌∷◌ c s) =
    let rest = first_part s in if code c == b',' then String.[] else String.◌∷◌ c rest

abbrev first_present : List (Option String) → String
first_present [] = "unknown"
first_present (none ∷ rest) = first_present rest
first_present (some ip ∷ rest) = ip

abbrev part_of : Option String → Option String
part_of none = none
part_of (some v) = some (first_part v)

-- `connect_info` is the text of the peer's address.
unfoldable pub extract_source_ip : Option String → Headers → String
unfolding first_part
extract_source_ip connect_info headers = first_present (
    present (part_of (headers "x-forwarded-for"))
    ∷ present (headers "x-real-ip")
    ∷ connect_info
    ∷ [])

abbrev pub map_push_rejection : PushRejection → ApiError
map_push_rejection inbox_message_limit = api_error 507 "inbox message quota exceeded"
map_push_rejection inbox_bytes_limit = api_error 507 "inbox bytes quota exceeded"
map_push_rejection global_rows_limit = api_error 507 "global mailbox row quota exceeded"

module _ (as_bytes : String → List ℕ) where
  -- The header is `Bearer` with the token.
  unfoldable pub bears : Headers → String → Bool
  bears headers token =
      timing_safe_eq_fixed auth_header_compare_max_len
        (as_bytes (or_empty (headers "authorization"))) (as_bytes (String.◌++◌ "Bearer " token))

  unfoldable pub require_bearer : Option String → Headers → String → Result ApiError (Unit {0})
  require_bearer none headers missing_detail = err (api_error 500 missing_detail)
  require_bearer (some token) headers missing_detail =
      if bears headers token then ok tt else err (api_error 401 "unauthorized")

  unfoldable pub require_push_auth : ApiConfig → Headers → Result ApiError (Unit {0})
  require_push_auth cfg headers =
      require_bearer cfg.push_token headers "push auth is not configured"

  unfoldable pub require_admin_auth : ApiConfig → Headers → Result ApiError (Unit {0})
  require_admin_auth cfg headers =
      require_bearer cfg.admin_token headers "admin auth is not configured"

  unfoldable pub require_pull_auth_for_inbox :
      ApiConfig → Headers → String → Result ApiError (Unit {0})
  require_pull_auth_for_inbox cfg headers inbox = elim (lookup inbox cfg.pull_tokens) [
    | none ↦ err (api_error 403 "inbox is not authorized for pull")
    | some token ↦ require_bearer (some token) headers "pull auth is not configured"
  ]

  -- The loop over the tokens, in the order that the map gives them.
  unfoldable pub find_inbox : Table String → Headers → Result ApiError String
  find_inbox [] headers = err (api_error 401 "unauthorized")
  find_inbox ((inbox, token) ∷ tokens) headers =
      if bears headers token then ok inbox else find_inbox tokens headers

  unfoldable pub authorized_inbox_for_token :
      Table String → Headers → String → Result ApiError String
  authorized_inbox_for_token [] headers missing_detail = err (api_error 500 missing_detail)
  authorized_inbox_for_token (t ∷ tokens) headers missing_detail = find_inbox (t ∷ tokens) headers
