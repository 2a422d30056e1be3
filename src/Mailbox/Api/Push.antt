-- ===== src/Mailbox/Api/Push.antt =====
-- crates/nxms-mailbox/src/api.rs: `push`. `read_json` is serde_json's, `parse_usize` is `str::parse`;
-- the clock is read three times: `to_now` and `ip_now` in seconds, `now` in milliseconds.
use nexum_core.Common.{
  ℕ, ◌≤◌, min, max, ltb, ◌==◌, String, ◌≡◌, refl, sym, ap, subst, inl, inr, Bool, true, false, not,
  Option, none, some, List, ◌∷◌, if◌then◌else◌, length, arith, Option-cases, ◌<◌,
}
use nexum_core.Common.Outcome.{Result, ok, err, map_err, map_err-ok, ok_inj}
use nexum_core.Common.Method.{
  lift, this, put, require, pure, raise, ◌>>=◌, ◌>>◌, lift-eq-ok, require-eq-ok, bind-eq-ok,
}
use nexum_core.Transport.Wire.{NxmsEnvelope, validate_envelope}
use nexum_core.Mailbox.Limiter.{check}
use nexum_core.Mailbox.Store.{PushRejection, push_sync}
use nexum_core.Mailbox.Api.Auth.{Bears, push_auth-Bears}
use nexum_core.Mailbox.Api.{
  ApiConfig, ApiError, AppState, Handler, Headers, api_error, with_retry_after, extract_source_ip,
  map_push_rejection, require_push_auth,
}

pub record PushRequest : Type 0 where
  pub envelope : NxmsEnvelope
  pub ttl_secs : Option ℕ

-- The answer's `ok` is `true`.
pub record PushResponse : Type 0 where
  pub dedup : Bool

abbrev ttl_or : Option ℕ → ℕ → ℕ
ttl_or none default_ttl_secs = default_ttl_secs
ttl_or (some ttl) default_ttl_secs = ttl

abbrev too_many : Option ℕ → String → Result ApiError (Unit {0})
too_many none detail = ok tt
too_many (some retry) detail = err (with_retry_after 429 detail retry)

-- `enforce_push_rate_limits`
unfoldable pub enforce_push_rate_limits :
    ApiConfig → ℕ → ℕ → Option String → Headers → String → Handler (Unit {0})
enforce_push_rate_limits cfg to_now ip_now connect_info headers to = do
  state ← this
  let (wait_to, by_to) = check to cfg.rate_limit_to_per_min to_now state.by_to
  put (record state { by_to = by_to })
  lift (too_many wait_to "rate limit exceeded for target inbox")
  state ← this
  let source_ip = extract_source_ip connect_info headers
  let (wait_ip, by_ip) = check source_ip cfg.rate_limit_ip_per_min ip_now state.by_ip
  put (record state { by_ip = by_ip })
  lift (too_many wait_ip "rate limit exceeded for source ip")

-- The header's claim, where it is there and is a number, and the body itself.
abbrev claimed_len : (String → Option ℕ) → Option String → ℕ
claimed_len parse_usize none = 0
claimed_len parse_usize (some raw) = elim (parse_usize raw) [ none ↦ 0 | some n ↦ n ]

-- After the store's answer: a rejection is an error, and the waiters are notified of a new message.
abbrev finish : String → Option PushRejection → Bool → Handler PushResponse
finish to (some rejection) dedup = raise (map_push_rejection rejection)
finish to none dedup = do
  state ← this
  put (if dedup then state else record state { notified = to ∷ state.notified })
  pure (record { dedup = dedup })

-- What an answer is made of.
finish-ok :
    (to : String) (rejection : Option PushRejection) (dedup : Bool) (r : PushResponse)
    (s s' : AppState)
    → finish to rejection dedup s ≡ (ok r, s')
    → (rejection ≡ none)
      × (dedup ≡ r.dedup)
      × (s.db ≡ s'.db)
      × (s'.notified ≡ (if r.dedup then s.notified else to ∷ s.notified))
finish-ok to (some rejection) dedup r s s' h = cc
finish-ok to none true r s s' h =
    let same : true ≡ r.dedup = ap (λ (x : PushResponse). x.dedup) (ok_inj (ap (λ x. x.0) h)) in
    let state = ap (λ x. x.1) h in
    (
      refl,
      same,
      ap (λ (x : AppState). x.db) state,
      rw (← same) (ap (λ (x : AppState). x.notified) (sym state)),
    )
finish-ok to none false r s s' h =
    let same : false ≡ r.dedup = ap (λ (x : PushResponse). x.dedup) (ok_inj (ap (λ x. x.0) h)) in
    let state = ap (λ x. x.1) h in
    (
      refl,
      same,
      ap (λ (x : AppState). x.db) state,
      rw (← same) (ap (λ (x : AppState). x.notified) (sym state)),
    )

module _ (as_bytes : String → List ℕ) (parse_usize : String → Option ℕ)
    (read_json : List ℕ → Result String PushRequest) (encode : NxmsEnvelope → String) where
  -- The store's part: the message is pushed, and the waiters of its inbox are notified if it is new.
  unfoldable pub store_push : ApiConfig → ℕ → NxmsEnvelope → ℕ → Handler PushResponse
  store_push cfg now env ttl_secs = do
    state ← this
    let (result, db) = push_sync encode now env ttl_secs cfg.limits state.db
    put (record state { db = db })
    finish env.to result.rejection result.dedup

  unfoldable pub push :
      ApiConfig → ℕ → ℕ → ℕ → Option String → Headers → List ℕ → Handler PushResponse
  push cfg to_now ip_now now connect_info headers body = do
    lift (require_push_auth as_bytes cfg headers)
    let max_body_bytes = max cfg.max_body_bytes 1
    require (not (ltb max_body_bytes (claimed_len parse_usize (headers "content-length"))))
        (api_error 413 "request body exceeds max_body_bytes")
    require (not (ltb max_body_bytes (length body)))
        (api_error 413 "request body exceeds max_body_bytes")
    req ← lift (map_err (λ e. api_error 400 "invalid push json") (read_json body))
    enforce_push_rate_limits cfg to_now ip_now connect_info headers req.envelope.to
    lift (map_err (λ e. api_error 400 e) (validate_envelope req.envelope))
    let ttl_secs = ttl_or req.ttl_secs cfg.default_ttl_secs
    require (not (ttl_secs == 0)) (api_error 400 "ttl_secs must be > 0")
    store_push cfg now req.envelope (min ttl_secs (max cfg.max_ttl_secs 1))

  -- What a push that is answered has checked and done.
  pub record Pushed (cfg : ApiConfig) (now : ℕ) (headers : Headers) (body : List ℕ)
      (r : PushResponse) (s s' : AppState) : Type 0 where
    pub token : String
    pub configured : cfg.push_token ≡ some token
    pub borne : Bears as_bytes headers token
    pub fits : length body ≤ max cfg.max_body_bytes 1
    pub request : PushRequest
    pub parsed : read_json body ≡ ok request
    pub valid : validate_envelope request.envelope ≡ ok tt
    pub ttl : ℕ
    pub lives : 0 < ttl
    pub capped : ttl ≤ max cfg.max_ttl_secs 1
    pub stored :
        push_sync encode now request.envelope ttl cfg.limits s.db
        ≡ (record { dedup = r.dedup; rejection = none }, s'.db)
    pub told : s'.notified ≡ (if r.dedup then s.notified else request.envelope.to ∷ s.notified)

  store_push-lem :
      (cfg : ApiConfig) (now : ℕ) (env : NxmsEnvelope) (ttl : ℕ) (r : PushResponse)
      (s s' : AppState)
      → store_push cfg now env ttl s ≡ (ok r, s')
      → (push_sync encode now env ttl cfg.limits s.db
          ≡ (record { dedup = r.dedup; rejection = none }, s'.db))
        × (s'.notified ≡ (if r.dedup then s.notified else env.to ∷ s.notified))
  unfolding store_push
  store_push-lem cfg now env ttl r s s' h =
      let (result, db) = push_sync encode now env ttl cfg.limits s.db in
      let (taken, same, kept, told) =
        finish-ok env.to result.rejection result.dedup r (record s { db = db }) s' h in
      let answer : result ≡ record { dedup = r.dedup; rejection = none } = cc in
      (λ i. (answer i, kept i), told)

  rate_limits-keep :
      (cfg : ApiConfig) (to_now ip_now : ℕ) (connect_info : Option String) (headers : Headers)
      (to : String) (s : AppState)
      → let s' = (enforce_push_rate_limits cfg to_now ip_now connect_info headers to s).1 in
        (s'.db ≡ s.db) × (s'.notified ≡ s.notified)
  unfolding enforce_push_rate_limits
  rate_limits-keep cfg to_now ip_now connect_info headers to s =
      elim (Option-cases (check to cfg.rate_limit_to_per_min to_now s.by_to).0) [
        | inr (w, e) ↦ rw e (refl, refl)
        | inl e ↦ rw e (refl, refl)
      ]

  -- A push that is answered bears the push token that is configured; its body is within the limit and
  -- reads as a request with a valid envelope; the envelope was given to the store with a lifetime of one
  -- second to the configured maximum, and not rejected; and the inbox's waiters were notified exactly if it
  -- is not a duplicate.
  pub push-Pushed :
      (cfg : ApiConfig) (to_now ip_now now : ℕ) (connect_info : Option String) (headers : Headers)
      (body : List ℕ) (r : PushResponse) (s s' : AppState)
      → push cfg to_now ip_now now connect_info headers body s ≡ (ok r, s')
      → Pushed cfg now headers body r s s'
  unfolding push
  push-Pushed cfg to_now ip_now now connect_info headers body r s s' h0 =
      let limit = max cfg.max_body_bytes 1 in
      let (_, auth, h1) = lift-eq-ok (require_push_auth as_bytes cfg headers) _ s s' h0 in
      let (_, h2) =
        require-eq-ok (not (ltb limit (claimed_len parse_usize (headers "content-length")))) _ _ s
          s' h1 in
      let (fits, h3) = require-eq-ok (not (ltb limit (length body))) _ _ s s' h2 in
      let (req, parsed, h4) =
        lift-eq-ok (map_err (λ e. api_error 400 "invalid push json") (read_json body)) _ s s' h3 in
      let limiter =
        enforce_push_rate_limits cfg to_now ip_now connect_info headers req.envelope.to in
      let s1 = (limiter s).1 in
      let (_, _, h5) = bind-eq-ok limiter _ s s' h4 in
      let (_, valid, h6) =
        lift-eq-ok (map_err (λ e. api_error 400 e) (validate_envelope req.envelope)) _ s1 s' h5 in
      let ttl = ttl_or req.ttl_secs cfg.default_ttl_secs in
      let (lives, h7) = require-eq-ok (not (ttl == 0)) _ _ s1 s' h6 in
      let capped = min ttl (max cfg.max_ttl_secs 1) in
      let (stored, told) = store_push-lem cfg now req.envelope capped r s1 s' h7 in
      let (same_db, same_told) =
        rate_limits-keep cfg to_now ip_now connect_info headers req.envelope.to s in
      let (token, configured, borne) = push_auth-Bears as_bytes cfg headers auth in
      record {
        token = token;
        configured = configured;
        borne = borne;
        fits = ground (arith, fits);
        request = req;
        parsed = map_err-ok _ _ req parsed;
        valid = map_err-ok _ _ tt valid;
        ttl = capped;
        lives = ground (arith, lives);
        capped = omega arith;
        stored =
            subst
              (λ d.
                push_sync encode now req.envelope capped cfg.limits d
                ≡ (record { dedup = r.dedup; rejection = none }, s'.db))
              same_db stored;
        told =
            subst (λ n. s'.notified ≡ (if r.dedup then n else req.envelope.to ∷ n)) same_told told;
      }
