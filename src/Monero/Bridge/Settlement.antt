-- ===== src/Monero/Bridge/Settlement.antt =====
-- The bridge's requests after the key exchange: `dispute`, `confirm_release`, `confirm_refund` and
-- `funded_check`.
use mathlib.Core.Option
use nexum_core.Common.{ℕ, String, Bool, ◌&&◌, Option, leb, if◌then◌else◌}
use nexum_core.Common.Int.{ℤ}
use nexum_core.Common.Outcome.{ok, ◌>>=◌}
use nexum_core.Monero.Types.{ready, state_eq}
use nexum_core.Monero.Slots.{Result'}
use nexum_core.Monero.Contract.{
  EscrowContract, new_xmr, dispute_snapshot, release_snapshot, refund_snapshot,
}
use nexum_core.Monero.Contract.Settlement
use nexum_core.Monero.Contract.Settlement.{
  mark_funded, open_dispute, import_dispute_snapshot, import_release_snapshot,
  import_refund_snapshot,
}
use nexum_core.Monero.Fee.{Env, quote, escrow_fee_policy_from_env}
use nexum_core.Monero.Bridge.Names.{
  parse_participant, parse_participant_opt, format_participant, parse_state, format_state,
}
use nexum_core.Monero.Bridge.Requests.{call}

-- `EscrowContract::new_xmr(0, "buyer", "seller", "server", 0)`
abbrev pub blank : ℕ → EscrowContract
blank amount = new_xmr 0 "buyer" "seller" "server" amount

pub record DisputeRequest : Type 0 where
  pub state : String
  pub actor_role : String
  pub reason : Option String
  pub dispute_opened_by : Option String
  pub dispute_reason : Option String
  pub dispute_opened_at : Option ℤ

pub record DisputeResponse : Type 0 where
  pub state : String
  pub dispute_opened_by : Option String
  pub dispute_reason : Option String
  pub dispute_opened_at : Option ℤ

unfoldable pub dispute : ℤ → DisputeRequest → Result' DisputeResponse
dispute now req = do
  state ← parse_state req.state
  opened_by ← parse_participant_opt req.dispute_opened_by
  (_, c1) ←
      call (record (blank 0) { state = state })
        (import_dispute_snapshot opened_by req.dispute_reason req.dispute_opened_at)
  actor ← parse_participant req.actor_role
  (_, c2) ← call c1 (open_dispute now actor req.reason)
  let (by, reason, at) = dispute_snapshot c2
  ok (record {
    state = format_state c2.state;
    dispute_opened_by = Option.map format_participant by;
    dispute_reason = reason;
    dispute_opened_at = at;
  })

pub record ConfirmRequest : Type 0 where
  pub state : String
  pub actor_role : String
  pub txid : Option String
  pub stored_txid : Option String
  pub confirm_buyer : Bool
  pub confirm_seller : Bool
  pub confirm_arbiter : Bool

pub record ConfirmResponse : Type 0 where
  pub state : String
  pub stored_txid : Option String
  pub confirm_buyer : Bool
  pub confirm_seller : Bool
  pub confirm_arbiter : Bool
  pub confirmations : ℕ

-- The requests and answers of release and refund differ only in the prefix of their field names.
unfoldable pub confirm_release : ConfirmRequest → Result' ConfirmResponse
confirm_release req = do
  state ← parse_state req.state
  (_, c1) ←
      call (record (blank 0) { state = state })
        (import_release_snapshot req.confirm_buyer req.confirm_seller req.confirm_arbiter
          req.stored_txid)
  actor ← parse_participant req.actor_role
  ((_, confirmations), c2) ← call c1 (Settlement.confirm_release actor req.txid)
  let (b, s, a, txid) = release_snapshot c2
  ok (record {
    state = format_state c2.state;
    stored_txid = txid;
    confirm_buyer = b;
    confirm_seller = s;
    confirm_arbiter = a;
    confirmations = confirmations;
  })

unfoldable pub confirm_refund : ConfirmRequest → Result' ConfirmResponse
confirm_refund req = do
  state ← parse_state req.state
  (_, c1) ←
      call (record (blank 0) { state = state })
        (import_refund_snapshot req.confirm_buyer req.confirm_seller req.confirm_arbiter
          req.stored_txid)
  actor ← parse_participant req.actor_role
  ((_, confirmations), c2) ← call c1 (Settlement.confirm_refund actor req.txid)
  let (b, s, a, txid) = refund_snapshot c2
  ok (record {
    state = format_state c2.state;
    stored_txid = txid;
    confirm_buyer = b;
    confirm_seller = s;
    confirm_arbiter = a;
    confirmations = confirmations;
  })

pub record FundedRequest : Type 0 where
  pub state : String
  pub amount_atomic : ℕ
  pub unlocked_balance : ℕ

unfoldable pub funded_check : Env → FundedRequest → Result' String
funded_check env req = do
  state ← parse_state req.state
  let c = record (blank req.amount_atomic) { state = state }
  policy ← escrow_fee_policy_from_env env
  q ← quote policy req.amount_atomic
  if state_eq c.state ready && leb q.required_funding_atomic req.unlocked_balance
      then (do (_, c') ← call c (mark_funded req.unlocked_balance); ok (format_state c'.state))
      else ok (format_state c.state)
