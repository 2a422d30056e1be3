-- ===== src/Mailbox/Api/Ack.antt =====
-- crates/nxms-mailbox/src/api.rs: `ack`.
use mathlib.Core.List.{Mem}
use nexum_core.Common.{
  length, ltb, ℕ, String, str_eq, ◌≡◌, refl, ◌⊎◌, inl, inr, not, List, [], ◌∷◌, arith, Bool-cases,
}
use nexum_core.Common.Rows.{delete_rows}
use nexum_core.Common.Text.{trim, is_empty}
use nexum_core.Common.Outcome.{Result-cases}
use nexum_core.Common.Method.{lift, this, put, require, ◌>>=◌, ◌>>◌}
use nexum_core.Mailbox.Store.{MailboxDb, Message, ack_sync, delete_leased}
use nexum_core.Mailbox.Api.Auth.{Bears, authorized-Mem}
use nexum_core.Mailbox.Api.{
  ApiConfig, AppState, Handler, Headers, api_error, authorized_inbox_for_token,
}

-- The answer's `ok` is `true`.
module _ (as_bytes : String → List ℕ) where
  unfoldable pub ack : ApiConfig → Headers → String → Handler (Unit {0})
  ack cfg headers raw_receipt = do
    authorized_inbox ←
        lift
          (authorized_inbox_for_token as_bytes cfg.ack_tokens headers "ack auth is not configured")
    let receipt = trim raw_receipt
    require (not (is_empty receipt)) (api_error 400 "receipt must not be empty")
    state ← this
    let (found, db) = ack_sync receipt authorized_inbox state.db
    put (record state { db = db })
    require found (api_error 404 "unknown receipt")

-- The rows of the other inboxes.
abbrev pub others : String → MailboxDb → List Message
others inbox db = delete_rows (λ m. str_eq m.to_id inbox) db.messages

delete_leased-others :
    (receipt inbox : String) (rows : List Message)
    → delete_rows (λ m. str_eq m.to_id inbox) (delete_leased receipt inbox rows)
      ≡ delete_rows (λ m. str_eq m.to_id inbox) rows
unfolding delete_leased delete_rows
delete_leased-others receipt inbox [] = refl
delete_leased-others receipt inbox (m ∷ rows) =
    ground (arith, delete_leased-others receipt inbox rows)

module _ (as_bytes : String → List ℕ) where
  -- An acknowledgement, whatever its answer, leaves the state as it is, or its header bears a token of an
  -- inbox and the rows of every other inbox, the limiters and the notifications stay.
  pub ack_touches_own :
      (cfg : ApiConfig) (headers : Headers) (receipt : String) (s : AppState)
      → let s' = (ack as_bytes cfg headers receipt s).1 in
        (s' ≡ s)
        ⊎ ((inbox : String) × (token : String) × Mem (inbox, token) cfg.ack_tokens
            × Bears as_bytes headers token
            × (others inbox s'.db ≡ others inbox s.db)
            × (s'.by_ip ≡ s.by_ip)
            × (s'.by_to ≡ s.by_to)
            × (s'.notified ≡ s.notified))
  unfolding ack ack_sync
  ack_touches_own cfg headers receipt s =
      elim (Result-cases
        (authorized_inbox_for_token as_bytes cfg.ack_tokens headers "ack auth is not configured")) [
          | inr (e, f) ↦ rw f (inl refl)
          | inl (inbox, f) ↦ elim (Bool-cases (is_empty (trim receipt))) [
            | inl g ↦ rw (f, g) (inl refl)
            | inr g ↦
                let rows = delete_leased (trim receipt) inbox s.db.messages in
                let (token, listed, borne) =
                  authorized-Mem as_bytes cfg.ack_tokens headers "ack auth is not configured" inbox
                    f in
                let kept = delete_leased-others (trim receipt) inbox s.db.messages in
                elim (Bool-cases (ltb (length rows) (length s.db.messages))) [
                  | inl k ↦ rw (f, g, k) (inr (inbox, token, listed, borne, kept, refl, refl, refl))
                  | inr k ↦ rw (f, g, k) (inr (inbox, token, listed, borne, kept, refl, refl, refl))
                ]
          ]
        ]
