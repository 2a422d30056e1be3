-- ===== src/Signer/Flow/Proof/Submit.antt =====
-- What a submission rests on.
use nexum_core.Common.{
  ◌⊎◌, String, str_eq, ◌&&◌, Bool-cases, eq_iff, ◌≡◌, refl, inl, inr, false, some, List, arith,
  Option-cases,
}
use nexum_core.Common.Text.{present}
use nexum_core.Common.Table.{Table}
use nexum_core.Common.Outcome.{Result, ok, err, is_ok, Result-cases}
use nexum_core.Common.Method.{◌>>=◌}
use nexum_core.Common.Rows.{find_row}
use nexum_core.Signer.Db.{SignEvent}
use nexum_core.Signer.Db.Requests.{is_event, abort_sign_request_sync, get_sign_event_sync}
use nexum_core.Signer.VerifyLimiter.{VerifyRateLimits, VerifyRateEntry}
use nexum_core.Signer.Token.{ActionTokenVerifier, VerifiedSignToken}
use nexum_core.Signer.Bridge.{Confirms, verify_seller-Confirms}
use nexum_core.Signer.Flow.{submit_multisig, Context, Agent, on_db, audit, reject, or_reject}
use nexum_core.Signer.Flow.Prepare.{Outside, Config, FlowRequest, Prepared, admitted}
use nexum_core.Signer.Flow.Authorize.{
  Authorized, first_context, verified_context, verify_token, on_limiter, open_verified, authorize,
}
use nexum_core.Signer.Flow.Submit.{deny, or_deny, check_or_deny, seller_answer, check_quorum}
use nexum_core.Signer.Flow.Proof.{Quiet, open_request-Quiet}

-- The recorded signature of the arbiter is the one that the token names, and the orchestrator's answer
-- names the seller's as the token does, unless the orchestrator is not asked.
pub record Proven (config : Config) (request : FlowRequest) (context : Context)
    (verified : VerifiedSignToken) (events : List SignEvent) : Type 0 where
  pub event : SignEvent
  pub event_is :
      find_row
        (is_event context.escrow_id_hex "arbiter" "arbiter_first" context.txset_hash_hex)
        events
      ≡ some event
  pub jti_is : present verified.claims.proof_arbiter_jti ≡ some event.jti
  pub req_is : present verified.claims.proof_arbiter_req_id ≡ some event.req_id
  pub seller_jti : String
  pub seller_req_id : String
  pub seller_jti_is : present verified.claims.proof_seller_jti ≡ some seller_jti
  pub seller_req_is : present verified.claims.proof_seller_req_id ≡ some seller_req_id
  pub seller_is :
      ((config.production_hardening ≡ false) × (config.verify_env ≡ false))
      ⊎ Confirms request.bundle context.escrow_id_hex context.txset_hash_hex seller_jti
          seller_req_id

module _ (outside : Outside) (config : Config) (request : FlowRequest) where
  abbrev pub Checked :
      Context → VerifiedSignToken → Agent → Result String (Unit {0}) × Agent → Type 0
  Checked context verified agent (ok _, after) =
      (after.wallet_calls ≡ agent.wallet_calls)
      × Proven config request context verified agent.db.sign_events
  Checked context verified agent (err _, after) = after.wallet_calls ≡ agent.wallet_calls

  pub check_quorum-Checked :
      (context : Context) (verified : VerifiedSignToken) (agent : Agent)
      → Checked context verified agent (check_quorum outside config request context verified agent)
  unfolding check_quorum on_db get_sign_event_sync or_deny check_or_deny deny reject audit
      abort_sign_request_sync
  check_quorum-Checked context verified agent =
      elim (Option-cases (
        find_row (is_event context.escrow_id_hex "arbiter" "arbiter_first" context.txset_hash_hex)
          agent.db.sign_events)) [
            | inl n ↦ rw n refl
            | inr (event, f) ↦ elim (Option-cases (present verified.claims.proof_arbiter_jti)) [
              | inl n ↦ rw (f, n) refl
              | inr (jti, g) ↦ elim (Option-cases (present verified.claims.proof_arbiter_req_id)) [
                | inl n ↦ rw (f, g, n) refl
                | inr (req, k) ↦
                    elim (Bool-cases (str_eq event.jti jti && str_eq event.req_id req)) [
                      | inr n ↦ rw (f, g, k, n) refl
                      | inl o ↦ elim (Option-cases (present verified.claims.proof_seller_jti)) [
                        | inl n ↦ rw (f, g, k, o, n) refl
                        | inr (a, l) ↦
                            elim (Option-cases (present verified.claims.proof_seller_req_id)) [
                              | inl n ↦ rw (f, g, k, o, l, n) refl
                              | inr (b, m) ↦
                                  elim (Result-cases (seller_answer config request context a b)) [
                                    | inr (_, n) ↦ rw (f, g, k, o, l, m, n) refl
                                    | inl (_, n) ↦
                                        rw (f, g, k, o, l, m, n)
                                          (
                                            refl,
                                            record {
                                              event = event;
                                              event_is = f;
                                              jti_is = ground (arith, eq_iff event.jti jti);
                                              req_is = ground (arith, eq_iff event.req_id req);
                                              seller_jti = a;
                                              seller_req_id = b;
                                              seller_jti_is = l;
                                              seller_req_is = m;
                                              seller_is =
                                                  verify_seller-Confirms request.bundle
                                                    context.escrow_id_hex context.txset_hash_hex a b
                                                    config.production_hardening config.verify_env n;
                                            },
                                          )
                                  ]
                            ]
                      ]
                    ]
              ]
            ]
          ]

  module _ (verifier : ActionTokenVerifier) (limits : VerifyRateLimits) (prepared : Prepared) where
    -- An authorization calls no wallet; where it opens the request, the token was verified.
    abbrev pub WithToken :
        String → Agent → Result String (Authorized (List String)) × Agent → Type 0
    WithToken token agent (ok authorized, after) =
        Quiet agent after
        × ((verified : VerifiedSignToken) × ((verify_token outside config request submit_multisig
                verifier limits prepared token agent.limiter).0
              ≡ ok verified)
            × (authorized.token ≡ some verified)
            × (authorized.context
                ≡ verified_context (first_context submit_multisig config.signer_role prepared)
                    verified))
    WithToken token agent (err _, after) = Quiet agent after

    -- The same for a token that was verified.
    abbrev pub OpenedFor :
        VerifiedSignToken → Agent → Result String (Authorized (List String)) × Agent → Type 0
    OpenedFor verified agent (ok authorized, after) =
        Quiet agent after
        × (authorized.token ≡ some verified)
        × (authorized.context
            ≡ verified_context (first_context submit_multisig config.signer_role prepared) verified)
    OpenedFor verified agent (err _, after) = Quiet agent after

    open_verified-OpenedFor :
        (verified : VerifiedSignToken) (agent : Agent)
        → OpenedFor verified agent (
            open_verified outside config request outside.parse_submit_result submit_multisig
              prepared verified agent)
    unfolding open_verified
    open_verified-OpenedFor verified agent =
        let context =
          verified_context (first_context submit_multisig config.signer_role prepared) verified in
        elim (Result-cases (
          admitted outside config request agent.db prepared.escrow_id_hex prepared.snapshot_hash_hex
            verified.claims.escrow_admission_hash)) [
              | inr (e, f) ↦ rw f (refl, refl)
              | inl (_, f) ↦ rw f (
                  ground (
                    arith,
                    open_request-Quiet outside.parse_submit_result request.now_ms context verified
                        agent,
                  ))
            ]

    -- A token that was verified, with whatever answer.
    abbrev VerifiedAs :
        Agent
        → Result String VerifiedSignToken
        → Result String (Authorized (List String)) × Agent
        → Type 0
    VerifiedAs agent (ok verified) result = OpenedFor verified agent result
    VerifiedAs agent (err _) result = (is_ok result.0 ≡ false) × Quiet agent result.1

    then_open-VerifiedAs :
        (answer : Result String VerifiedSignToken) (table : Table VerifyRateEntry) (agent : Agent)
        → VerifiedAs agent answer (
            (or_reject
                  (first_context submit_multisig config.signer_role prepared)
                  (on_limiter (λ _. (answer, table)))
                >>= open_verified outside config request outside.parse_submit_result submit_multisig
                    prepared)
              agent)
    unfolding or_reject reject audit
    then_open-VerifiedAs (ok verified) table agent =
        open_verified-OpenedFor verified (record agent { limiter = table })
    then_open-VerifiedAs (err e) table agent = (refl, (refl, refl))

    from_answer :
        (token : String) (agent : Agent) (answer : Result String VerifiedSignToken)
        → (verify_token outside config request submit_multisig verifier limits prepared token
            agent.limiter).0
          ≡ answer
        → (result : Result String (Authorized (List String)) × Agent)
        → VerifiedAs agent answer result
        → WithToken token agent result
    from_answer token agent (ok verified) e (ok authorized, after) v =
        (v.0, (verified, e, v.1, v.2))
    from_answer token agent (ok verified) e (err _, after) v = v
    from_answer token agent (err f) e (ok authorized, after) v = ground arith
    from_answer token agent (err f) e (err _, after) v = v.1

    pub authorize-WithToken :
        (token : String) (agent : Agent)
        → WithToken token agent (
            authorize outside config request outside.parse_submit_result submit_multisig prepared
              (some (verifier, limits))
              (some token)
              agent)
    unfolding authorize or_reject
    authorize-WithToken token agent =
        let verification =
          verify_token outside config request submit_multisig verifier limits prepared token
            agent.limiter in
        from_answer token agent verification.0 refl _
          (then_open-VerifiedAs verification.0 verification.1 agent)
