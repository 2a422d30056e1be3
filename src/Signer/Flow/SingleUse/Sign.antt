-- ===== src/Signer/Flow/SingleUse/Sign.antt =====
-- That a signature keeps it.
use nexum_core.Common.{ℕ, String, ◌≡◌, Option, none, some, inl, inr, arith}
use nexum_core.Common.Outcome.{Result, ok, err, Result-cases}
use nexum_core.Common.Method.{continue, lift, ◌>>=◌}
use nexum_core.Common.Rows.{count_rows-append}
use nexum_core.Signer.Db.{Query}
use nexum_core.Signer.Db.Requests.{record_sign_event_sync}
use nexum_core.Signer.Db.Requests.Once.{used, complete-used, abort-used, record-used}
use nexum_core.Signer.Token.{sign_req_id}
use nexum_core.Signer.Flow.{
  sign_multisig, op_text, Context, Agent, WalletCall, Flow, on_db, audit, reject, call_wallet,
}
use nexum_core.Signer.Flow.Request.{Opened, fresh, cached}
use nexum_core.Signer.Flow.Prepare.{
  Outside, Config, FlowRequest, Prepared, SignedMultisigTx, prepare, txset_sha256_hex,
}
use nexum_core.Signer.Flow.Authorize.{Authorized, authorize}
use nexum_core.Signer.Flow.Wallet.{abort_request, settle, ask_wallet, complete_request}
use nexum_core.Signer.Flow.Sign.{record_signature, sign_now, sign_opened, sign_multisig_flow}
use nexum_core.Signer.Flow.SingleUse.{for_jti, Spent, Ready, IfOpen, IfAuthorized, authorize-Spent}

module _ (j : String) where
  pub bind-Spent :
      {A B : Type 0} (m : Flow A) (f : A → Flow B) (agent : Agent)
      → Spent j (m agent).1
      → ((a : A) (after : Agent) → Spent j after → Spent j (f a after).1)
      → Spent j ((m >>= f) agent).1
  bind-Spent m f agent s h = elim (Result-cases (m agent).0) [
    | inr (e, g) ↦ rw g s
    | inl (a, g) ↦ rw g (h a (m agent).1 s)
  ]

  abort-Spent :
      (req : Option String) (agent : Agent) → Spent j agent → Spent j (abort_request req agent).1
  unfolding abort_request on_db
  abort-Spent none agent s = s
  abort-Spent (some req) agent s = ground (arith, abort-used j req agent.db)

  settle-Spent :
      {A : Type 0} (context : Context) (answer : Result String A) (agent : Agent)
      → Spent j agent
      → Spent j (settle context answer agent).1
  unfolding settle reject audit
  settle-Spent context (ok a) agent s = s
  settle-Spent context (err e) agent s =
      bind-Spent (abort_request context.req_id) _ agent (abort-Spent context.req_id agent s)
        (λ _ _ t. t)

  pub ask_wallet-Spent :
      {A : Type 0} (context : Context) (tx_data : String) (answer : Result String A) (agent : Agent)
      → Ready j context.jti agent
      → Spent j (ask_wallet context tx_data answer agent).1
  unfolding ask_wallet call_wallet audit
  ask_wallet-Spent context tx_data answer agent r =
      let call : WalletCall = record {
        op = context.op;
        tx_data_hex = tx_data;
        req_id = context.req_id;
        jti = context.jti;
      } in
      settle-Spent context answer _
        (ground (arith, count_rows-append (for_jti j) agent.wallet_calls call))

  pub complete-Spent :
      (now : ℕ) (context : Context) (req : Option String) (json : String) (agent : Agent)
      → Spent j agent
      → Spent j (complete_request now context req json agent).1
  unfolding complete_request on_db
  complete-Spent now context none json agent s = s
  complete-Spent now context (some req) json agent s =
      ground (arith, complete-used j now req (op_text context.op) json agent.db)

  on_db-Spent :
      {A : Type 0} (query : Query A) (agent : Agent)
      → used j (query agent.db).1 ≡ used j agent.db
      → Spent j agent
      → Spent j (on_db query agent).1
  unfolding on_db
  on_db-Spent query agent e s = ground arith

  lift-Spent :
      {A : Type 0} (r : Result String A) (agent : Agent)
      → Spent j agent
      → Spent j (lift {S = Agent} r agent).1
  lift-Spent r agent s = s

  pub authorized-Spent :
      {A B : Type 0} (next : Authorized A → Flow B)
      → ((a : Authorized A) (after : Agent)
          → IfOpen j a.context.jti (ok a.opened, after)
          → Spent j (next a after).1)
      → (r : Result String (Authorized A)) (after : Agent) → IfAuthorized j (r, after)
      → Spent j (continue r next after).1
  authorized-Spent next h (ok a) after s = h a after s
  authorized-Spent next h (err e) after s = s

  module _ (outside : Outside) (config : Config) (request : FlowRequest) where
    record_signature-Spent :
        (context : Context) (signed : SignedMultisigTx) (jti req : Option String) (agent : Agent)
        → Spent j agent
        → Spent j (record_signature outside config request context signed jti req agent).1
    unfolding record_signature
    record_signature-Spent context signed none req agent s = s
    record_signature-Spent context signed (some jti) none agent s = s
    record_signature-Spent context signed (some jti) (some req) agent s =
        bind-Spent
          (on_db (
            record_sign_event_sync request.now_ms context.escrow_id_hex context.role
              context.sign_round context.txset_hash_hex jti req))
          _ agent (on_db-Spent _ agent (record-used j _ _ _ _ _ _ _ agent.db) s)
          λ _ a1 s1. bind-Spent (lift request.proof_stored) _ a1 s1 λ _ a2 s2.
            bind-Spent (lift (txset_sha256_hex outside signed.tx_data_hex)) _ a2 s2
              λ signed_hash a3 s3.
                bind-Spent
                  (on_db (
                    record_sign_event_sync request.now_ms context.escrow_id_hex context.role
                      context.sign_round signed_hash jti
                      (sign_req_id outside.sha256_hex context.escrow_id_hex "sign_multisig"
                        context.sign_round signed_hash)))
                  _ a3 (on_db-Spent _ a3 (record-used j _ _ _ _ _ _ _ a3.db) s3) λ _ a4 s4. s4

    sign_now-Spent :
        (prepared : Prepared) (context : Context) (agent : Agent)
        → Ready j context.jti agent
        → Spent j (sign_now outside config request prepared context agent).1
    unfolding sign_now audit
    sign_now-Spent prepared context agent r =
        bind-Spent (ask_wallet context prepared.tx_data_hex request.signed) _ agent
          (ask_wallet-Spent context prepared.tx_data_hex request.signed agent r)
          λ signed a1 s1.
            bind-Spent
              (complete_request request.now_ms context context.req_id
                (outside.sign_result_json signed))
              _ a1
              (complete-Spent request.now_ms context context.req_id
                (outside.sign_result_json signed) a1 s1)
              λ _ a2 s2.
                bind-Spent
                  (record_signature outside config request context signed context.jti
                    context.req_id)
                  _ a2 (record_signature-Spent context signed context.jti context.req_id a2 s2)
                  λ _ a3 s3. s3

    sign_opened-Spent :
        (prepared : Prepared) (context : Context) (opened : Opened SignedMultisigTx) (agent : Agent)
        → IfOpen j context.jti (ok opened, agent)
        → Spent j (sign_opened outside config request prepared context opened agent).1
    unfolding sign_opened
    sign_opened-Spent prepared context fresh agent s = sign_now-Spent prepared context agent s
    sign_opened-Spent prepared context (cached signed) agent s = s

    pub sign-Spent :
        (agent : Agent)
        → Spent j agent
        → Spent j (sign_multisig_flow outside config request agent).1
    unfolding sign_multisig_flow
    sign-Spent agent s = elim (Result-cases (prepare outside config request agent.db)) [
      | inr (e, f) ↦ rw f s
      | inl (prepared, f) ↦
          let m =
            authorize outside config request outside.parse_sign_result sign_multisig prepared
              config.verifier request.action_token agent in
          rw f (
            authorized-Spent (λ a. sign_opened outside config request prepared a.context a.opened)
              (λ a after. sign_opened-Spent prepared a.context a.opened after) m.0 m.1
              (authorize-Spent outside config request outside.parse_sign_result sign_multisig
                prepared j config.verifier request.action_token agent s))
    ]
