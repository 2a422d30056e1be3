-- ===== src/Signer/Flow/SingleUse/Submit.antt =====
-- That a submission keeps it. While the quorum is checked, the call for the token is still to be made.
use nexum_core.Common.{String, Option, none, some, List, inl, inr, arith}
use nexum_core.Common.Text.{present}
use nexum_core.Common.Outcome.{Result, ok, err, ok_or, Result-cases}
use nexum_core.Common.Method.{lift, ◌>>=◌}
use nexum_core.Signer.Db.Requests.{get_sign_event_sync}
use nexum_core.Signer.Db.Requests.Once.{abort-used}
use nexum_core.Signer.Token.{VerifiedSignToken}
use nexum_core.Signer.Flow.{submit_multisig, Context, Agent, Flow, on_db, audit, reject}
use nexum_core.Signer.Flow.Request.{Opened, fresh, cached}
use nexum_core.Signer.Flow.Prepare.{Outside, Config, FlowRequest, Prepared, prepare}
use nexum_core.Signer.Flow.Authorize.{authorize}
use nexum_core.Signer.Flow.Wallet.{ask_wallet, complete_request}
use nexum_core.Signer.Flow.Submit.{
  deny, or_deny, check_or_deny, seller_answer, check_quorum, check_token_quorum, submit_now,
  submit_fresh, submit_opened, submit_multisig_flow,
}
use nexum_core.Signer.Flow.SingleUse.Sign.{
  bind-Spent, ask_wallet-Spent, complete-Spent, authorized-Spent,
}
use nexum_core.Signer.Flow.SingleUse.{Spent, Ready, IfOpen, authorize-Spent}

module _ (j : String) (jti : Option String) where
  bind-Ready :
      {A B : Type 0} (m : Flow A) (f : A → Flow B) (agent : Agent)
      → Ready j jti (m agent).1
      → ((a : A) (after : Agent) → Ready j jti after → Ready j jti (f a after).1)
      → Ready j jti ((m >>= f) agent).1
  bind-Ready m f agent s h = elim (Result-cases (m agent).0) [
    | inr (e, g) ↦ rw g s
    | inl (a, g) ↦ rw g (h a (m agent).1 s)
  ]

  deny-Ready :
      (A : Type 0) (context : Context) (verified : VerifiedSignToken) (e : String) (agent : Agent)
      → Ready j jti agent
      → Ready j jti (deny {A = A} context verified e agent).1
  unfolding deny reject audit on_db
  deny-Ready A context verified e agent s = ground (arith, abort-used j verified.req_id agent.db)

  or_deny-Ready :
      {A : Type 0} (context : Context) (verified : VerifiedSignToken) (o : Option A) (e : String)
      (agent : Agent)
      → Ready j jti agent
      → Ready j jti (or_deny context verified o e agent).1
  unfolding or_deny
  or_deny-Ready context verified none e agent s = deny-Ready _ context verified e agent s
  or_deny-Ready context verified (some a) e agent s = s

  check_or_deny-Ready :
      (context : Context) (verified : VerifiedSignToken) (r : Result String (Unit {0}))
      (agent : Agent)
      → Ready j jti agent
      → Ready j jti (check_or_deny context verified r agent).1
  unfolding check_or_deny
  check_or_deny-Ready context verified (ok _) agent s = s
  check_or_deny-Ready context verified (err e) agent s = deny-Ready _ context verified e agent s

  module _ (outside : Outside) (config : Config) (request : FlowRequest) where
    check_quorum-Ready :
        (context : Context) (verified : VerifiedSignToken) (agent : Agent)
        → Ready j jti agent
        → Ready j jti (check_quorum outside config request context verified agent).1
    unfolding check_quorum on_db get_sign_event_sync
    check_quorum-Ready context verified agent s =
        bind-Ready (or_deny context verified _ _) _ agent
          (or_deny-Ready context verified _ _ agent s)
          λ local a1 s1.
            bind-Ready (lift (ok_or (present verified.claims.proof_arbiter_jti) _)) _ a1 s1
              λ _ a2 s2.
                bind-Ready (lift (ok_or (present verified.claims.proof_arbiter_req_id) _)) _ a2 s2
                  λ _ a3 s3.
                    bind-Ready (check_or_deny context verified _) _ a3
                      (check_or_deny-Ready context verified _ a3 s3)
                      λ _ a4 s4.
                        bind-Ready
                          (or_deny context verified (present verified.claims.proof_seller_jti) _) _
                          a4
                          (or_deny-Ready context verified (present verified.claims.proof_seller_jti)
                            _ a4 s4)
                          λ a a5 s5.
                            bind-Ready
                              (or_deny context verified
                                (present verified.claims.proof_seller_req_id) _)
                              _ a5
                              (or_deny-Ready context verified
                                (present verified.claims.proof_seller_req_id) _ a5 s5)
                              λ b a6 s6.
                                check_or_deny-Ready context verified
                                  (seller_answer config request context a b) a6 s6

    check_token_quorum-Ready :
        (context : Context) (token : Option VerifiedSignToken) (agent : Agent)
        → Ready j jti agent
        → Ready j jti (check_token_quorum outside config request context token agent).1
    unfolding check_token_quorum
    check_token_quorum-Ready context none agent s = s
    check_token_quorum-Ready context (some verified) agent s =
        check_quorum-Ready context verified agent s

-- A call that may still be made need not be.
Ready→Spent : (j : String) (jti : Option String) (agent : Agent) → Ready j jti agent → Spent j agent
Ready→Spent j jti agent s = ground arith

module _ (j : String) (outside : Outside) (config : Config) (request : FlowRequest) where
  submit_now-Spent :
      (prepared : Prepared) (context : Context) (agent : Agent)
      → Ready j context.jti agent
      → Spent j (submit_now outside config request prepared context agent).1
  unfolding submit_now audit
  submit_now-Spent prepared context agent r =
      let ask = ask_wallet context prepared.tx_data_hex request.submitted in
      bind-Spent j ask _ agent
        (ask_wallet-Spent j context prepared.tx_data_hex request.submitted agent r)
        λ hashes a1 s1.
          bind-Spent j
            (complete_request request.now_ms context context.req_id
              (outside.submit_result_json hashes))
            _ a1
            (complete-Spent j request.now_ms context context.req_id
              (outside.submit_result_json hashes) a1 s1)
            λ _ a2 s2. s2

  submit_fresh-Spent :
      (prepared : Prepared) (context : Context) (token : Option VerifiedSignToken) (agent : Agent)
      → Ready j context.jti agent
      → Spent j (submit_fresh outside config request prepared context token agent).1
  unfolding submit_fresh
  submit_fresh-Spent prepared context token agent r =
      let m = check_token_quorum outside config request context token agent in
      let ready =
        check_token_quorum-Ready j context.jti outside config request context token agent r in
      elim (Result-cases m.0) [
        | inr (e, f) ↦ rw f (Ready→Spent j context.jti m.1 ready)
        | inl (_, f) ↦ rw f (submit_now-Spent prepared context m.1 ready)
      ]

  submit_opened-Spent :
      (prepared : Prepared) (context : Context) (token : Option VerifiedSignToken)
      (opened : Opened (List String)) (agent : Agent)
      → IfOpen j context.jti (ok opened, agent)
      → Spent j (submit_opened outside config request prepared context token opened agent).1
  unfolding submit_opened
  submit_opened-Spent prepared context token fresh agent s =
      submit_fresh-Spent prepared context token agent s
  submit_opened-Spent prepared context token (cached hashes) agent s = s

  pub submit-Spent :
      (agent : Agent)
      → Spent j agent
      → Spent j (submit_multisig_flow outside config request agent).1
  unfolding submit_multisig_flow
  submit-Spent agent s = elim (Result-cases (prepare outside config request agent.db)) [
    | inr (e, f) ↦ rw f s
    | inl (prepared, f) ↦
        let m =
          authorize outside config request outside.parse_submit_result submit_multisig prepared
            config.verifier request.action_token agent in
        rw f (
          authorized-Spent j
            (λ a. submit_opened outside config request prepared a.context a.token a.opened)
            (λ a after. submit_opened-Spent prepared a.context a.token a.opened after) m.0 m.1
            (authorize-Spent outside config request outside.parse_submit_result submit_multisig
              prepared j config.verifier request.action_token agent s))
  ]
