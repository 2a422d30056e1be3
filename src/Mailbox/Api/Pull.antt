-- ===== src/Mailbox/Api/Pull.antt =====
-- crates/nxms-mailbox/src/api.rs: `pull`. What the rest of the server does between two rounds of the
-- loop is `rounds`: the k-th round's changes of the store by others, the clock of the database in
-- milliseconds, that of `Instant`, and whether the waiter is notified before it has slept.
use nexum_core.Common.{
  ℕ, zero, suc, ◌+◌, ◌≤◌, ◌<◌, min, max, leb, String, ◌≡◌, refl, subst, Bool, true, false, Option,
  none, some, List, [], ◌∷◌, arith,
}
use nexum_core.Common.Outcome.{Result, ok, err, map_err}
use nexum_core.Transport.Wire.{NxmsEnvelope, validate_peer_id}
use nexum_core.Mailbox.Store.{MailboxDb, LeasedMessage, pull_sync}
use nexum_core.Mailbox.Api.{
  ApiConfig, ApiError, AppState, Headers, api_error, require_pull_auth_for_inbox,
}

pub record PullRequest : Type 0 where
  pub to : String
  pub max' : Option ℕ
  pub wait_ms : Option ℕ

pub record Round : Type 0 where
  pub others : MailboxDb → MailboxDb
  pub now : ℕ
  pub instant : ℕ
  pub woken : Bool

-- `req.max.unwrap_or(10).clamp(1, 50)`
abbrev pub clamp_max : Option ℕ → ℕ
clamp_max none = 10
clamp_max (some n) = min (max n 1) 50

abbrev pub wait_or_zero : Option ℕ → ℕ
wait_or_zero none = 0
wait_or_zero (some ms) = ms

-- What a loop's round does with the leased messages: return them, return none, or go on.
abbrev pub Answer : Type 0
Answer = Result ApiError (List LeasedMessage) × MailboxDb

-- The rest of a round: an error or messages are returned; without any, the loop returns none at the
-- deadline, goes on if it is woken, and returns none if it has slept.
abbrev settle :
    Result String (List LeasedMessage) → MailboxDb → Bool → Bool → Option Answer → Option Answer
settle (err e) db late woken again = some (err (api_error 500 e), db)
settle (ok (m ∷ ms)) db late woken again = some (ok (m ∷ ms), db)
settle (ok []) db true woken again = some (ok [], db)
settle (ok []) db false true again = again
settle (ok []) db false false again = some (ok [], db)

abbrev Returns : Option Answer → Type 0
Returns o = (a : Answer) × (o ≡ some a)

settle-Returns :
    (leased : Result String (List LeasedMessage)) (db : MailboxDb) (late woken : Bool)
    (again : Option Answer)
    → (late ≡ false → Returns again)
    → Returns (settle leased db late woken again)
settle-Returns (err e) db late woken again h = (_, refl)
settle-Returns (ok (m ∷ ms)) db late woken again h = (_, refl)
settle-Returns (ok []) db true woken again h = (_, refl)
settle-Returns (ok []) db false true again h = h refl
settle-Returns (ok []) db false false again h = (_, refl)

-- The checks before the loop, and its outcome.
abbrev reply :
    Result ApiError (Unit {0})
    → Result ApiError (Unit {0})
    → Option Answer
    → AppState
    → Option (Result ApiError (List LeasedMessage) × AppState)
reply (err e) auth outcome state = some (err e, state)
reply (ok _) (err e) outcome state = some (err e, state)
reply (ok _) (ok _) none state = none
reply (ok _) (ok _) (some (answer, db)) state = some (answer, record state { db = db })

reply-Answers :
    (valid auth : Result ApiError (Unit {0})) (outcome : Option Answer) (state : AppState)
    → Returns outcome
    → (a : Result ApiError (List LeasedMessage) × AppState) × (reply valid auth outcome state
        ≡ some a)
reply-Answers (err e) auth outcome state h = (_, refl)
reply-Answers (ok _) (err e) outcome state h = (_, refl)
reply-Answers (ok _) (ok _) none state h = absurd (ground (arith, h.1))
reply-Answers (ok _) (ok _) (some (answer, db)) state h = (_, refl)

module _ (decode : String → Result String NxmsEnvelope) (draw : ℕ → ℕ → String) where
  -- `none` if the fuel runs out; the messages are the response's.
  unfoldable pub pull_loop : ℕ → (ℕ → Round) → ℕ → String → ℕ → ℕ → ℕ → MailboxDb → Option Answer
  pull_loop zero rounds k to max' lease_secs deadline db = none
  pull_loop (suc fuel) rounds k to max' lease_secs deadline db =
      let round = rounds k in
      let (leased, db') =
        pull_sync decode (draw k) round.now to max' lease_secs (round.others db) in
      let again = pull_loop fuel rounds (k + 1) to max' lease_secs deadline db' in
      settle leased db' (leb deadline round.instant) round.woken again

  -- The store is the only part of the state that a pull changes.
  unfoldable pub pull :
      (String → List ℕ)
      → ApiConfig
      → Headers
      → PullRequest
      → ℕ
      → ℕ
      → (ℕ → Round)
      → AppState
      → Option (Result ApiError (List LeasedMessage) × AppState)
  pull as_bytes cfg headers req fuel start rounds state =
      let wait_ms = min (wait_or_zero req.wait_ms) cfg.max_wait_ms in
      let outcome =
        pull_loop fuel rounds 0 req.to (clamp_max req.max') cfg.lease_secs (start + wait_ms)
          state.db in
      reply (map_err (λ e. api_error 400 "invalid to") (validate_peer_id req.to))
        (require_pull_auth_for_inbox as_bytes cfg headers req.to) outcome state

  pull_loop-Returns :
      (fuel : ℕ) (rounds : ℕ → Round) (k n : ℕ) (to : String) (max' lease_secs deadline : ℕ)
      (db : MailboxDb)
      → n < fuel
      → deadline ≤ (rounds (k + n)).instant
      → Returns (pull_loop fuel rounds k to max' lease_secs deadline db)
  unfolding pull_loop
  pull_loop-Returns zero rounds k n to max' lease_secs deadline db h late = absurd (omega arith)
  pull_loop-Returns (suc fuel) rounds k zero to max' lease_secs deadline db h late =
      let run =
        pull_sync decode (draw k) (rounds k).now to max' lease_secs ((rounds k).others db) in
      let here : k + 0 ≡ k = omega arith in
      let reached = subst (λ j. deadline ≤ (rounds j).instant) here late in
      settle-Returns run.0 run.1 _ _ _ (λ early. absurd (ground (arith, reached)))
  pull_loop-Returns (suc fuel) rounds k (suc n) to max' lease_secs deadline db h late =
      let run =
        pull_sync decode (draw k) (rounds k).now to max' lease_secs ((rounds k).others db) in
      let here : k + suc n ≡ k + 1 + n = omega arith in
      let reached = subst (λ j. deadline ≤ (rounds j).instant) here late in
      settle-Returns run.0 run.1 _ _ _ λ early.
        pull_loop-Returns fuel rounds (k + 1) n to max' lease_secs deadline run.1 (omega arith)
          reached

  -- A pull answers, whatever the others do to the store and however often they wake it: if the clock has
  -- reached the longest wait that is configured by the n-th round, more than n rounds of fuel are enough.
  pub pull_answers :
      (as_bytes : String → List ℕ) (cfg : ApiConfig) (headers : Headers) (req : PullRequest)
      (fuel start n : ℕ) (rounds : ℕ → Round) (state : AppState)
      → n < fuel
      → start + cfg.max_wait_ms ≤ (rounds n).instant
      → (a : Result ApiError (List LeasedMessage) × AppState) × (pull as_bytes cfg headers req fuel
            start rounds state
          ≡ some a)
  unfolding pull
  pull_answers as_bytes cfg headers req fuel start n rounds state h late =
      let wait_ms = min (wait_or_zero req.wait_ms) cfg.max_wait_ms in
      let here : n ≡ 0 + n = omega arith in
      let reached : start + cfg.max_wait_ms ≤ (rounds (0 + n)).instant =
        subst (λ j. start + cfg.max_wait_ms ≤ (rounds j).instant) here late in
      reply-Answers (map_err (λ e. api_error 400 "invalid to") (validate_peer_id req.to))
        (require_pull_auth_for_inbox as_bytes cfg headers req.to) _ state
        (pull_loop-Returns fuel rounds 0 n req.to (clamp_max req.max') cfg.lease_secs
          (start + wait_ms) state.db h (omega arith))
