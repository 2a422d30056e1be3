-- ===== src/Signer/Flow/Proof/Serve.antt =====
-- The whole of a submission.
use nexum_core.Common.{String, ◌≡◌, refl, ◌∙◌, subst, ◌⊎◌, inl, inr, Option, none, some, List}
use nexum_core.Common.Outcome.{Result, ok, err, Result-cases}
use nexum_core.Common.Method.{continue, ◌>>=◌}
use nexum_core.Signer.VerifyLimiter.{VerifyRateLimits}
use nexum_core.Signer.Token.{ActionTokenVerifier, VerifiedSignToken}
use nexum_core.Signer.Flow.{submit_multisig, Context, Agent, Flow, audit, reject}
use nexum_core.Signer.Flow.Request.{Opened, fresh, cached}
use nexum_core.Signer.Flow.Prepare.{Outside, Config, FlowRequest, Prepared, prepare}
use nexum_core.Signer.Flow.Authorize.{
  Authorized, first_context, verified_context, verify_token, authorize,
}
use nexum_core.Signer.Token.Verify.{verify_submit_multisig}
use nexum_core.Signer.Flow.Submit.{
  check_token_quorum, submit_fresh, submit_opened, submit_multisig_flow,
}
use nexum_core.Signer.Flow.Proof.{Quiet}
use nexum_core.Signer.Flow.Proof.Submit.{
  Proven, Checked, WithToken, check_quorum-Checked, authorize-WithToken,
}

module _ (outside : Outside) (config : Config) (request : FlowRequest) where
  from_Checked :
      (context : Context) (verified : VerifiedSignToken) (agent : Agent)
      (next : Unit → Flow (List String)) (result : Result String (Unit {0}) × Agent)
      → Checked outside config request context verified agent result
      → ((continue result.0 next result.1).1.wallet_calls ≡ agent.wallet_calls)
        ⊎ Proven config request context verified agent.db.sign_events
  from_Checked context verified agent next (ok _, after) c = inr c.1
  from_Checked context verified agent next (err _, after) c = inl c

  submit_opened-Proven :
      (prepared : Prepared) (context : Context) (verified : VerifiedSignToken)
      (token : Option VerifiedSignToken) (opened : Opened (List String)) (agent after : Agent)
      → Quiet agent after
      → token ≡ some verified
      → ((submit_opened outside config request prepared context token opened after).1.wallet_calls
          ≡ agent.wallet_calls)
        ⊎ Proven config request context verified agent.db.sign_events
  unfolding submit_opened submit_fresh check_token_quorum
  submit_opened-Proven prepared context verified token (cached _) agent after q t = inl q.0
  submit_opened-Proven prepared context verified token fresh agent after q t =
      rw t
        (elim (from_Checked context verified after _ _
          (check_quorum-Checked outside config request context verified after)) [
            | inl e ↦ inl (e ∙ q.0)
            | inr p ↦ inr (subst (Proven config request context verified) q.1 p)
          ])

  -- What a submission for a token rests on.
  pub record Authentic (verifier : ActionTokenVerifier) (limits : VerifyRateLimits) (agent : Agent)
      : Type 0 where
    pub token : String
    pub prepared : Prepared
    pub verified : VerifiedSignToken
    pub token_is : request.action_token ≡ some token
    pub prepared_is : prepare outside config request agent.db ≡ ok prepared
    pub verified_is :
        (verify_submit_multisig outside.sha256_hex outside.decode verifier limits request.now_s
          token prepared.escrow_id_hex prepared.txset_hash_hex prepared.snapshot_hash_hex
          agent.limiter).0
        ≡ ok verified
    pub proven :
        Proven config request
          (verified_context (first_context submit_multisig config.signer_role prepared) verified)
          verified
          agent.db.sign_events

  module _ (verifier : ActionTokenVerifier) (limits : VerifyRateLimits) where
    from_WithToken :
        (prepared : Prepared) (token : String) (agent : Agent)
        (result : Result String (Authorized (List String)) × Agent)
        → request.action_token ≡ some token
        → prepare outside config request agent.db ≡ ok prepared
        → WithToken outside config request verifier limits prepared token agent result
        → ((continue result.0
              (λ a. submit_opened outside config request prepared a.context a.token a.opened)
              result.1).1.wallet_calls
            ≡ agent.wallet_calls)
          ⊎ Authentic verifier limits agent
    unfolding verify_token
    from_WithToken prepared token agent (err _, after) t p q = inl q.0
    from_WithToken prepared token agent (ok a, after) t p (q, (verified, v, k, c)) =
        elim (submit_opened-Proven prepared a.context verified a.token a.opened agent after q k) [
          | inl e ↦ inl e
          | inr proven ↦ inr (record {
            token = token;
            prepared = prepared;
            verified = verified;
            token_is = t;
            prepared_is = p;
            verified_is = v;
            proven =
                subst (λ context. Proven config request context verified agent.db.sign_events) c
                  proven;
          })
        ]

    prepared-Authentic :
        (prepared : Prepared) (v : Option (ActionTokenVerifier × VerifyRateLimits))
        (t : Option String) (agent : Agent)
        → v ≡ some (verifier, limits)
        → request.action_token ≡ t
        → prepare outside config request agent.db ≡ ok prepared
        → (((authorize outside config request outside.parse_submit_result submit_multisig prepared v
                  t
                >>= λ a. submit_opened outside config request prepared a.context a.token a.opened)
              agent).1.wallet_calls
            ≡ agent.wallet_calls)
          ⊎ Authentic verifier limits agent
    unfolding authorize reject audit
    prepared-Authentic prepared v none agent e t p = rw e (inl refl)
    prepared-Authentic prepared v (some token) agent e t p = rw e (
        from_WithToken prepared token agent _ t p
          (authorize-WithToken outside config request verifier limits prepared token agent))

    -- Where the signer has a verifier of tokens, the wallet is not asked to submit unless the request has
    -- one that was verified for this transaction set, and the token names the arbiter's signature as this
    -- signer recorded it, by its token and request, and the seller's as the orchestrator answered for the
    -- escrow and the transaction set; or there is neither production hardening nor the flag of the
    -- environment, and the orchestrator is not asked.
    pub submit-Authentic :
        (agent : Agent)
        → config.verifier ≡ some (verifier, limits)
        → ((submit_multisig_flow outside config request agent).1.wallet_calls ≡ agent.wallet_calls)
          ⊎ Authentic verifier limits agent
    unfolding submit_multisig_flow
    submit-Authentic agent e = elim (Result-cases (prepare outside config request agent.db)) [
      | inr (_, f) ↦ inl (rw f refl)
      | inl (prepared, f) ↦
          rw f (prepared-Authentic prepared config.verifier request.action_token agent e refl f)
    ]
