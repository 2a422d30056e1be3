-- ===== src/Mailbox/Api/Admin.antt =====
-- crates/nxms-mailbox/src/api.rs: `admin_stats`. The answer's `ok` is `true`.
use nexum_core.Common.{ℕ, String, ◌≡◌, ap, some, List}
use nexum_core.Common.Outcome.{ok, ok_inj}
use nexum_core.Common.Method.{lift, this, pure, ◌>>=◌, ◌>>◌, lift-eq-ok}
use nexum_core.Mailbox.Store.Stats.{MailboxStats, stats_sync}
use nexum_core.Mailbox.Api.Auth.{Bears, admin_auth-Bears}
use nexum_core.Mailbox.Api.{ApiConfig, AppState, Handler, Headers, require_admin_auth}

module _ (as_bytes : String → List ℕ) where
  unfoldable pub admin_stats : ApiConfig → Headers → ℕ → ℕ → ℕ → Handler MailboxStats
  admin_stats cfg headers now db_bytes wal_bytes = do
    lift (require_admin_auth as_bytes cfg headers)
    state ← this
    pure (stats_sync now db_bytes wal_bytes state.db)

  -- Statistics are given to a header that bears the admin token that is configured, are those of the
  -- store, and change nothing.
  admin_stats-Bears :
      (cfg : ApiConfig) (headers : Headers) (now db_bytes wal_bytes : ℕ) (stats : MailboxStats)
      (s s' : AppState)
      → admin_stats cfg headers now db_bytes wal_bytes s ≡ (ok stats, s')
      → ((token : String) × (cfg.admin_token ≡ some token) × Bears as_bytes headers token)
        × (stats_sync now db_bytes wal_bytes s.db ≡ stats)
        × (s ≡ s')
  unfolding admin_stats
  admin_stats-Bears cfg headers now db_bytes wal_bytes stats s s' h =
      let (_, auth, rest) = lift-eq-ok (require_admin_auth as_bytes cfg headers) _ s s' h in
      (admin_auth-Bears as_bytes cfg headers auth, ok_inj (ap (λ x. x.0) rest), ap (λ x. x.1) rest)
