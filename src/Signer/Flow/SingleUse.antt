-- ===== src/Signer/Flow/SingleUse.antt =====
-- That a token serves one call of the wallet at most.
pub mod Sign
pub mod Submit
pub mod Serve
use nexum_core.Common.{
  ℕ, ◌+◌, ◌≤◌, String, str_eq, eq_iff, ◌≡◌, refl, Bool, true, false, Option, none, some, List, [],
  ◌∷◌, ◌++◌, inl, inr, if◌then◌else◌, arith, Bool-cases, Option-cases,
}
use nexum_core.Common.Outcome.{Result, ok, err, is_ok, Result-cases}
use nexum_core.Common.Method.{◌>>=◌}
use nexum_core.Common.Table.{Table}
use nexum_core.Common.Rows.{find_row, count_rows, count_rows-append}
use nexum_core.Signer.Db.{SignRequestRow}
use nexum_core.Signer.Db.Requests.{
  is_open, has_req, has_jti, start_sign_request_sync, get_sign_request_sync,
  get_sign_request_result_sync, abort_sign_request_sync, consume_action_jti_sync,
}
use nexum_core.Signer.Db.Requests.Once.{
  used, start-used, complete-used, abort-used, record-used, result-used, request-used, event-used,
  consume-used,
}
use nexum_core.Signer.Token.{VerifiedSignToken}
use nexum_core.Signer.Flow.{
  Operation, op_text, Context, Agent, WalletCall, Flow, on_db, audit, reject, or_reject,
  call_wallet,
}
use nexum_core.Signer.Flow.Request.{
  Opened, fresh, cached, metadata_match, consume, answer_cached, answer_existing, answer_duplicate,
  consume_or_abort, open_request,
}
use nexum_core.Signer.VerifyLimiter.{VerifyRateLimits, VerifyRateEntry}
use nexum_core.Signer.Token.{ActionTokenVerifier}
use nexum_core.Signer.Flow.Prepare.{Outside, Config, FlowRequest, Prepared, admitted}
use nexum_core.Signer.Flow.Authorize.{
  Authorized, first_context, verified_context, verify_token, on_limiter, open_verified, authorize,
}

abbrev pub is_token : String → Option String → Bool
is_token j none = false
is_token j (some jti) = str_eq jti j

abbrev pub for_jti : String → WalletCall → Bool
for_jti j call = is_token j call.jti

-- How often the wallet was called for a token.
abbrev pub calls : String → Agent → ℕ
calls j agent = count_rows (for_jti j) agent.wallet_calls

-- No more calls than uses, and one use at most.
abbrev pub Spent : String → Agent → Type 0
Spent j agent = (calls j agent ≤ used j agent.db) × (used j agent.db ≤ 1)

-- One call more is allowed for the token.
abbrev pub Ready : String → Option String → Agent → Type 0
Ready j jti agent =
    (calls j agent + (if is_token j jti then 1 else 0) ≤ used j agent.db) × (used j agent.db ≤ 1)

abbrev pub IfOpen :
    {A : Type 0} → String → Option String → Result String (Opened A) × Agent → Type 0
IfOpen j jti (ok fresh, agent) = Ready j jti agent
IfOpen j jti (ok (cached _), agent) = Spent j agent
IfOpen j jti (err _, agent) = Spent j agent

module _ {A : Type 0} (parse : String → Result String A) (now : ℕ) (context : Context)
    (verified : VerifiedSignToken) (j : String) where
  abbrev pub Afterwards : Result String (Opened A) × Agent → Type 0
  Afterwards = IfOpen j (some verified.claims.jti)

  answer_cached-Spent :
      (agent : Agent) → Spent j agent → Afterwards (answer_cached parse now context verified agent)
  unfolding answer_cached or_reject on_db consume audit reject get_sign_request_result_sync
  answer_cached-Spent agent s = ground (
    arith,
    consume-used j now verified.claims.jti context.escrow_id_hex (op_text context.op)
        verified.claims.sign_round verified.req_id verified.claims.exp agent.db,
  )

  consume_or_abort-Spent :
      (agent : Agent)
      → Spent j agent
      → Afterwards (consume_or_abort parse now context verified agent)
  unfolding consume_or_abort on_db consume reject audit
  consume_or_abort-Spent agent s =
      let after =
        (consume_action_jti_sync now verified.claims.jti context.escrow_id_hex (op_text context.op)
          verified.claims.sign_round verified.req_id verified.claims.exp agent.db).1 in
      ground (
        arith,
        consume-used j now verified.claims.jti context.escrow_id_hex (op_text context.op)
            verified.claims.sign_round verified.req_id verified.claims.exp agent.db,
        abort-used j verified.req_id after,
      )

  answer_existing-Spent :
      (row : SignRequestRow) (agent : Agent)
      → Spent j agent
      → Afterwards (answer_existing parse now context verified row agent)
  unfolding answer_existing reject audit
  answer_existing-Spent row agent s = ground (arith, answer_cached-Spent agent s)

  answer_duplicate-Spent :
      (agent : Agent)
      → Spent j agent
      → Afterwards (answer_duplicate parse now context verified agent)
  unfolding answer_duplicate on_db get_sign_request_sync
  answer_duplicate-Spent agent s =
      elim (Option-cases (find_row (has_req verified.req_id) agent.db.sign_request_dedup)) [
        | inl n ↦ rw n s
        | inr (row, f) ↦ rw f (answer_existing-Spent row agent s)
      ]

  open_request-Spent :
      (agent : Agent) → Spent j agent → Afterwards (open_request parse now context verified agent)
  unfolding open_request on_db reject audit
  open_request-Spent agent s =
      let started =
        start_sign_request_sync now verified.req_id context.escrow_id_hex (op_text context.op)
          verified.claims.sign_round context.txset_hash_hex agent.db in
      let after = record agent { db = started.1 } in
      ground (
        arith,
        start-used j now verified.req_id context.escrow_id_hex (op_text context.op)
            verified.claims.sign_round context.txset_hash_hex agent.db,
        consume_or_abort-Spent after,
        answer_duplicate-Spent after,
      )

-- What the authorization leaves: leave for one call of the wallet, where it opens the request.
abbrev pub IfAuthorized : {A : Type 0} → String → Result String (Authorized A) × Agent → Type 0
IfAuthorized j (ok authorized, agent) =
    IfOpen j authorized.context.jti (ok authorized.opened, agent)
IfAuthorized j (err _, agent) = Spent j agent

module _ (outside : Outside) (config : Config) (request : FlowRequest) {A : Type 0}
    (parse : String → Result String A) (op : Operation) (prepared : Prepared) (j : String) where
  open_verified-Spent :
      (verified : VerifiedSignToken) (agent : Agent)
      → Spent j agent
      → IfAuthorized j (open_verified outside config request parse op prepared verified agent)
  unfolding open_verified
  open_verified-Spent verified agent s =
      let context = verified_context (first_context op config.signer_role prepared) verified in
      elim (Result-cases (
        admitted outside config request agent.db prepared.escrow_id_hex prepared.snapshot_hash_hex
          verified.claims.escrow_admission_hash)) [
            | inr (e, f) ↦ rw f s
            | inl (_, f) ↦
                rw f (
                  ground
                    (arith, open_request-Spent parse request.now_ms context verified j agent s))
          ]

  -- A token that was verified, with whatever answer.
  then_open-Spent :
      (answer : Result String VerifiedSignToken) (table : Table VerifyRateEntry) (agent : Agent)
      → Spent j agent
      → IfAuthorized j (
          (or_reject
                (first_context op config.signer_role prepared)
                (on_limiter (λ _. (answer, table)))
              >>= open_verified outside config request parse op prepared)
            agent)
  unfolding or_reject reject audit
  then_open-Spent (ok verified) table agent s =
      open_verified-Spent verified (record agent { limiter = table }) s
  then_open-Spent (err e) table agent s = s

  authorize-Spent :
      (verifier : Option (ActionTokenVerifier × VerifyRateLimits)) (token : Option String)
      (agent : Agent)
      → Spent j agent
      → IfAuthorized j (authorize outside config request parse op prepared verifier token agent)
  unfolding authorize reject audit or_reject
  authorize-Spent none token agent s = ground arith
  authorize-Spent (some v) none agent s = s
  authorize-Spent (some (verifier, limits)) (some token) agent s =
      let verification =
        verify_token outside config request op verifier limits prepared token agent.limiter in
      then_open-Spent verification.0 verification.1 agent s
