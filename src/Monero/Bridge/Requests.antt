-- ===== src/Monero/Bridge/Requests.antt =====
-- The bridge's key-exchange requests: `submit_r1`, `submit_r2`, `submit_r3`.
use nexum_core.Common.{
  ℕ, String, Bool, ◌&&◌, Option, List, [], ◌∷◌, is_some, is_none, if◌then◌else◌,
}
use nexum_core.Common.Outcome.{ok, err, ok_or, ◌>>=◌}
use nexum_core.Monero.Types.{EscrowParticipant, arbiter, missing_data}
use nexum_core.Monero.Slots.{Result'}
use nexum_core.Monero.Contract.{EscrowContract, EscrowTransition, ContractMethod, new_xmr}
use nexum_core.Monero.Contract.Rounds.{
  set_arbiter_round1, submit_round1, set_arbiter_round2, submit_round2, set_arbiter_round3,
  submit_round3, set_deposit_address,
}
use nexum_core.Monero.Bridge.Names.{parse_participant, parse_state, format_state}

-- `c.method(…)?` on a local contract: an error drops the contract with the request.
abbrev pub call : {A : Type 0} → EscrowContract → ContractMethod A → Result' (A × EscrowContract)
call c m = let (r, c') = m c in elim r [ ok a ↦ ok (a, c') | err e ↦ err e ]

-- The answers of `wallet_rpc_call` for an escrow: `make_multisig`, `exchange_multisig_keys`, and
-- `finalize_or_address_multisig` with its fallback.
pub record Wallet : Type 0 where
  pub make_multisig : ℕ → List String → Result' String
  pub exchange_multisig_keys : ℕ → List String → Result' String
  pub finalize_or_address : ℕ → List String → Result' String

pub record SubmitR1Request : Type 0 where
  pub escrow_id : ℕ
  pub state : String
  pub actor_role : String
  pub multisig_info : String
  pub refund_address : Option String
  pub xmr_r1_buyer : Option String
  pub xmr_r1_seller : Option String
  pub xmr_r1_arbiter : Option String
  pub xmr_r2_arbiter : Option String
  pub refund_address_buyer : Option String
  pub refund_address_seller : Option String

pub record SubmitR1Response : Type 0 where
  pub state : String
  pub xmr_r1_buyer : Option String
  pub xmr_r1_seller : Option String
  pub xmr_r1_arbiter : Option String
  pub xmr_r2_arbiter : Option String
  pub refund_address_buyer : Option String
  pub refund_address_seller : Option String

pub record SubmitR2Request : Type 0 where
  pub escrow_id : ℕ
  pub state : String
  pub actor_role : String
  pub multisig_info : String
  pub xmr_r2_buyer : Option String
  pub xmr_r2_seller : Option String
  pub xmr_r2_arbiter : Option String
  pub xmr_r3_arbiter : Option String

pub record SubmitR2Response : Type 0 where
  pub state : String
  pub xmr_r2_buyer : Option String
  pub xmr_r2_seller : Option String
  pub xmr_r2_arbiter : Option String
  pub xmr_r3_arbiter : Option String

pub record SubmitR3Request : Type 0 where
  pub escrow_id : ℕ
  pub state : String
  pub actor_role : String
  pub multisig_info : String
  pub xmr_r3_buyer : Option String
  pub xmr_r3_seller : Option String
  pub xmr_r3_arbiter : Option String
  pub deposit_address : Option String

pub record SubmitR3Response : Type 0 where
  pub state : String
  pub xmr_r3_buyer : Option String
  pub xmr_r3_seller : Option String
  pub xmr_r3_arbiter : Option String
  pub deposit_address : Option String

-- The two inputs that the wallet is given.
abbrev inputs : Option String → Option String → String → String → Result' (List String)
inputs b s b_missing s_missing = do
  x ← ok_or b (missing_data b_missing)
  y ← ok_or s (missing_data s_missing)
  ok (x ∷ y ∷ [])

module _ (is_xmr_address : String → Bool) (wallet : Wallet) where
  actor_round1 : EscrowParticipant → String → Option String → ContractMethod EscrowTransition
  actor_round1 arbiter info refund = set_arbiter_round1 info
  actor_round1 who info refund = submit_round1 is_xmr_address who info refund

  -- When the round is complete, the arbiter's next information comes from the wallet.
  follow_round1 : ℕ → EscrowContract → Result' EscrowContract
  follow_round1 escrow_id c =
      if is_some c.xmr_r1_buyer
        && is_some c.xmr_r1_seller
        && is_some c.xmr_r1_arbiter
        && is_none c.xmr_r2_arbiter
      then (do
        r2_inputs ←
            inputs c.xmr_r1_buyer c.xmr_r1_seller "xmr_r1_buyer missing" "xmr_r1_seller missing"
        r2 ← wallet.make_multisig escrow_id r2_inputs
        (_, c') ← call c (set_arbiter_round2 r2)
        ok c')
      else ok c

  unfoldable pub submit_r1 : SubmitR1Request → Result' SubmitR1Response
  unfolding actor_round1 follow_round1
  submit_r1 req = do
    state ← parse_state req.state
    let c = record (new_xmr req.escrow_id "buyer" "seller" "server" 0) {
      state = state;
      xmr_r1_buyer = req.xmr_r1_buyer;
      xmr_r1_seller = req.xmr_r1_seller;
      xmr_r1_arbiter = req.xmr_r1_arbiter;
      xmr_r2_arbiter = req.xmr_r2_arbiter;
      refund_address_buyer = req.refund_address_buyer;
      refund_address_seller = req.refund_address_seller;
    }
    actor ← parse_participant req.actor_role
    (_, c1) ← call c (actor_round1 actor req.multisig_info req.refund_address)
    c2 ← follow_round1 req.escrow_id c1
    ok (record {
      state = format_state c2.state;
      xmr_r1_buyer = c2.xmr_r1_buyer;
      xmr_r1_seller = c2.xmr_r1_seller;
      xmr_r1_arbiter = c2.xmr_r1_arbiter;
      xmr_r2_arbiter = c2.xmr_r2_arbiter;
      refund_address_buyer = c2.refund_address_buyer;
      refund_address_seller = c2.refund_address_seller;
    })

  actor_round2 : EscrowParticipant → String → ContractMethod EscrowTransition
  actor_round2 arbiter info = set_arbiter_round2 info
  actor_round2 who info = submit_round2 who info

  follow_round2 : ℕ → EscrowContract → Result' EscrowContract
  follow_round2 escrow_id c =
      if is_some c.xmr_r2_buyer
        && is_some c.xmr_r2_seller
        && is_some c.xmr_r2_arbiter
        && is_none c.xmr_r3_arbiter
      then (do
        r3_inputs ←
            inputs c.xmr_r2_buyer c.xmr_r2_seller "xmr_r2_buyer missing" "xmr_r2_seller missing"
        r3 ← wallet.exchange_multisig_keys escrow_id r3_inputs
        (_, c') ← call c (set_arbiter_round3 r3)
        ok c')
      else ok c

  unfoldable pub submit_r2 : SubmitR2Request → Result' SubmitR2Response
  unfolding actor_round2 follow_round2
  submit_r2 req = do
    state ← parse_state req.state
    let c = record (new_xmr req.escrow_id "buyer" "seller" "server" 0) {
      state = state;
      xmr_r2_buyer = req.xmr_r2_buyer;
      xmr_r2_seller = req.xmr_r2_seller;
      xmr_r2_arbiter = req.xmr_r2_arbiter;
      xmr_r3_arbiter = req.xmr_r3_arbiter;
    }
    actor ← parse_participant req.actor_role
    (_, c1) ← call c (actor_round2 actor req.multisig_info)
    c2 ← follow_round2 req.escrow_id c1
    ok (record {
      state = format_state c2.state;
      xmr_r2_buyer = c2.xmr_r2_buyer;
      xmr_r2_seller = c2.xmr_r2_seller;
      xmr_r2_arbiter = c2.xmr_r2_arbiter;
      xmr_r3_arbiter = c2.xmr_r3_arbiter;
    })

  actor_round3 : EscrowParticipant → String → ContractMethod EscrowTransition
  actor_round3 arbiter info = set_arbiter_round3 info
  actor_round3 who info = submit_round3 who info

  follow_round3 : ℕ → EscrowContract → Result' EscrowContract
  follow_round3 escrow_id c =
      if is_some c.xmr_r3_buyer
        && is_some c.xmr_r3_seller
        && is_some c.xmr_r3_arbiter
        && is_none c.deposit_address
      then (do
        finalize_inputs ←
            inputs c.xmr_r3_buyer c.xmr_r3_seller "xmr_r3_buyer missing" "xmr_r3_seller missing"
        deposit ← wallet.finalize_or_address escrow_id finalize_inputs
        (_, c') ← call c (set_deposit_address is_xmr_address deposit)
        ok c')
      else ok c

  unfoldable pub submit_r3 : SubmitR3Request → Result' SubmitR3Response
  unfolding actor_round3 follow_round3
  submit_r3 req = do
    state ← parse_state req.state
    let c = record (new_xmr req.escrow_id "buyer" "seller" "server" 0) {
      state = state;
      xmr_r3_buyer = req.xmr_r3_buyer;
      xmr_r3_seller = req.xmr_r3_seller;
      xmr_r3_arbiter = req.xmr_r3_arbiter;
      deposit_address = req.deposit_address;
    }
    actor ← parse_participant req.actor_role
    (_, c1) ← call c (actor_round3 actor req.multisig_info)
    c2 ← follow_round3 req.escrow_id c1
    ok (record {
      state = format_state c2.state;
      xmr_r3_buyer = c2.xmr_r3_buyer;
      xmr_r3_seller = c2.xmr_r3_seller;
      xmr_r3_arbiter = c2.xmr_r3_arbiter;
      deposit_address = c2.deposit_address;
    })
