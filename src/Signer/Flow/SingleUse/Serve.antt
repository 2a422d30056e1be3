-- ===== src/Signer/Flow/SingleUse/Serve.antt =====
-- Any sequence of requests to sign and to submit.
use nexum_core.Common.{◌≤◌, String, List, [], ◌∷◌, arith}
use nexum_core.Signer.Db.Requests.Once.{used}
use nexum_core.Signer.Flow.{Operation, sign_multisig, submit_multisig, Agent}
use nexum_core.Signer.Flow.Prepare.{Outside, Config, FlowRequest}
use nexum_core.Signer.Flow.Sign.{sign_multisig_flow}
use nexum_core.Signer.Flow.Submit.{submit_multisig_flow}
use nexum_core.Signer.Flow.SingleUse.{calls, Spent}
use nexum_core.Signer.Flow.SingleUse.Sign.{sign-Spent}
use nexum_core.Signer.Flow.SingleUse.Submit.{submit-Spent}

module _ (outside : Outside) (config : Config) where
  unfoldable pub perform : Agent → Operation × FlowRequest → Agent
  perform agent (sign_multisig, request) = (sign_multisig_flow outside config request agent).1
  perform agent (submit_multisig, request) = (submit_multisig_flow outside config request agent).1

  pub serve : Agent → List (Operation × FlowRequest) → Agent
  serve agent [] = agent
  serve agent (request ∷ rest) = serve (perform agent request) rest

  perform-Spent :
      (j : String) (agent : Agent) (request : Operation × FlowRequest)
      → Spent j agent
      → Spent j (perform agent request)
  unfolding perform
  perform-Spent j agent (sign_multisig, request) s = sign-Spent j outside config request agent s
  perform-Spent j agent (submit_multisig, request) s = submit-Spent j outside config request agent s

  serve-Spent :
      (j : String) (agent : Agent) (requests : List (Operation × FlowRequest))
      → Spent j agent
      → Spent j (serve agent requests)
  unfolding serve
  serve-Spent j agent [] s = s
  serve-Spent j agent (request ∷ rest) s =
      serve-Spent j (perform agent request) rest (perform-Spent j agent request s)

  -- Whatever requests to sign and to submit are served, in any order, with whatever answers
  -- of the wallet and of the orchestrator, the wallet is called at most once for a token, if
  -- before it was called for it no more often than its uses are recorded, and these are one
  -- at most.
  pub single_use :
      (j : String) (agent : Agent) (requests : List (Operation × FlowRequest))
      → calls j agent ≤ used j agent.db
      → used j agent.db ≤ 1
      → calls j (serve agent requests) ≤ 1
  single_use j agent requests c u = ground (arith, serve-Spent j agent requests (c, u))
