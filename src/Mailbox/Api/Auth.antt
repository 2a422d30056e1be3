-- ===== src/Mailbox/Api/Auth.antt =====
-- What the authorization of a request establishes.
use mathlib.Core.List.{Mem, mem-cons_self, mem-cons_of_mem}
use nexum_core.Common.{
  ℕ, String, ◌≡◌, refl, subst, true, Option, none, some, List, [], ◌∷◌, arith, inl, inr, Bool-cases,
}
use Prim.Native.String
use nexum_core.Common.Table.{Table}
use nexum_core.Common.Outcome.{ok}
use nexum_core.Transport.Security.{timing_safe_eq_lem}
use nexum_core.Mailbox.Api.{
  ApiConfig, Headers, require_push_auth, require_admin_auth, or_empty, bears, require_bearer,
  find_inbox, authorized_inbox_for_token, auth_header_compare_max_len,
}

module _ (as_bytes : String → List ℕ) where
  -- The bytes of the header are those of `Bearer` with the token.
  abbrev pub Bears : Headers → String → Type 0
  Bears headers token =
      as_bytes (or_empty (headers "authorization")) ≡ as_bytes (String.◌++◌ "Bearer " token)

  pub bears-Bears :
      (headers : Headers) (token : String)
      → bears as_bytes headers token ≡ true
      → Bears headers token
  unfolding bears
  bears-Bears headers token h = ((timing_safe_eq_lem auth_header_compare_max_len _ _).0 h).0

  require_bearer-Bears :
      (token : Option String) (headers : Headers) (detail : String)
      → require_bearer as_bytes token headers detail ≡ ok tt
      → (t : String) × (token ≡ some t) × Bears headers t
  unfolding require_bearer
  require_bearer-Bears none headers detail h = cc
  require_bearer-Bears (some t) headers detail h = elim (Bool-cases (bears as_bytes headers t)) [
    | inl b ↦ (t, refl, bears-Bears headers t b)
    | inr b ↦ absurd (ground arith)
  ]

  find_inbox-Mem :
      (tokens : Table String) (headers : Headers) (inbox : String)
      → find_inbox as_bytes tokens headers ≡ ok inbox
      → (t : String) × Mem (inbox, t) tokens × Bears headers t
  unfolding find_inbox
  find_inbox-Mem [] headers inbox h = cc
  find_inbox-Mem ((name, token) ∷ tokens) headers inbox h =
      elim (Bool-cases (bears as_bytes headers token)) [
        | inl b ↦
            let same : name ≡ inbox = ground arith in
            (
              token,
              subst (λ n. Mem (n, token) ((name, token) ∷ tokens)) same mem-cons_self,
              bears-Bears headers token b,
            )
        | inr b ↦
            let (t, m, e) = find_inbox-Mem tokens headers inbox (ground arith) in
            (t, mem-cons_of_mem (name, token) m, e)
      ]

  pub authorized-Mem :
      (tokens : Table String) (headers : Headers) (detail inbox : String)
      → authorized_inbox_for_token as_bytes tokens headers detail ≡ ok inbox
      → (t : String) × Mem (inbox, t) tokens × Bears headers t
  unfolding authorized_inbox_for_token
  authorized-Mem [] headers detail inbox h = cc
  authorized-Mem (t ∷ tokens) headers detail inbox h = find_inbox-Mem (t ∷ tokens) headers inbox h

  pub push_auth-Bears :
      (cfg : ApiConfig) (headers : Headers)
      → require_push_auth as_bytes cfg headers ≡ ok tt
      → (t : String) × (cfg.push_token ≡ some t) × Bears headers t
  unfolding require_push_auth
  push_auth-Bears cfg headers h =
      require_bearer-Bears cfg.push_token headers "push auth is not configured" h

  pub admin_auth-Bears :
      (cfg : ApiConfig) (headers : Headers)
      → require_admin_auth as_bytes cfg headers ≡ ok tt
      → (t : String) × (cfg.admin_token ≡ some t) × Bears headers t
  unfolding require_admin_auth
  admin_auth-Bears cfg headers h =
      require_bearer-Bears cfg.admin_token headers "admin auth is not configured" h
