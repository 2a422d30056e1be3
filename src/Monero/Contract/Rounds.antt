-- ===== src/Monero/Contract/Rounds.antt =====
-- The key-exchange rounds of `EscrowContract`: `set_arbiter_round1` to `submit_round3`, and
-- `set_deposit_address` (crates/nxms-monero-core/src/multisig/state.rs).
use nexum_core.Common.{String, true, Option, [], ◌∷◌, ◌&&◌, Bool, is_some}
use nexum_core.Common.Method.{this, put, pure, raise, lift, require, ◌>>=◌, ◌>>◌}
use nexum_core.Common.Text.{trim}
use nexum_core.Monero.Types.{
  new, xmr_msig_r1, xmr_msig_r2, xmr_msig_r3, ready, is_xmr, EscrowParticipant, buyer, seller,
  arbiter, invalid_argument, missing_data,
}
use nexum_core.Monero.Slots.{ensure_state_in, set_once, set_refund_once}
use nexum_core.Monero.Contract.{EscrowContract, EscrowTransition, ContractMethod}

-- The tests "round data incomplete" of the next round.
abbrev pub round1_complete : EscrowContract → Bool
round1_complete c = is_some c.xmr_r1_buyer && is_some c.xmr_r1_seller && is_some c.xmr_r1_arbiter

abbrev pub round2_complete : EscrowContract → Bool
round2_complete c = is_some c.xmr_r2_buyer && is_some c.xmr_r2_seller && is_some c.xmr_r2_arbiter

abbrev pub round3_complete : EscrowContract → Bool
round3_complete c = is_some c.xmr_r3_buyer && is_some c.xmr_r3_seller && is_some c.xmr_r3_arbiter

unfoldable pub set_arbiter_round1 : String → ContractMethod EscrowTransition
set_arbiter_round1 multisig_info = do
  c ← this
  require (is_xmr c.asset) (invalid_argument "round1 only valid for XMR")
  lift (ensure_state_in c.state (new ∷ xmr_msig_r1 ∷ []) "set_arbiter_round1")
  slot ← lift (set_once c.xmr_r1_arbiter multisig_info true "xmr_r1_arbiter")
  put (record c { xmr_r1_arbiter = slot; state = xmr_msig_r1 })
  pure (record { from = c.state; to = xmr_msig_r1; action = "xmr_r1_arbiter" })

-- The `match who` of `submit_round1`: two writes, the second of which may fail.
fill_round1 : (String → Bool) → EscrowParticipant → String → Option String → ContractMethod Unit
fill_round1 is_xmr_address buyer multisig_info refund_address = do
  c ← this
  slot ← lift (set_once c.xmr_r1_buyer multisig_info true "xmr_r1_buyer")
  put (record c { xmr_r1_buyer = slot })
  refund ←
      lift (
        set_refund_once is_xmr_address c.refund_address_buyer refund_address "refund_address_buyer")
  put (record c { xmr_r1_buyer = slot; refund_address_buyer = refund })
fill_round1 is_xmr_address seller multisig_info refund_address = do
  c ← this
  slot ← lift (set_once c.xmr_r1_seller multisig_info true "xmr_r1_seller")
  put (record c { xmr_r1_seller = slot })
  refund ← lift (
      set_refund_once is_xmr_address c.refund_address_seller refund_address "refund_address_seller")
  put (record c { xmr_r1_seller = slot; refund_address_seller = refund })
fill_round1 is_xmr_address arbiter multisig_info refund_address =
    raise (invalid_argument "arbiter should use set_arbiter_round1")

unfoldable pub submit_round1 :
    (String → Bool) → EscrowParticipant → String → Option String → ContractMethod EscrowTransition
unfolding fill_round1
submit_round1 is_xmr_address who multisig_info refund_address = do
  c ← this
  require (is_xmr c.asset) (invalid_argument "round1 only valid for XMR")
  lift (ensure_state_in c.state (new ∷ xmr_msig_r1 ∷ []) "submit_round1")
  fill_round1 is_xmr_address who multisig_info refund_address
  filled ← this
  put (record filled { state = xmr_msig_r1 })
  pure (record { from = c.state; to = xmr_msig_r1; action = "xmr_r1" })

unfoldable pub set_arbiter_round2 : String → ContractMethod EscrowTransition
set_arbiter_round2 multisig_info = do
  c ← this
  require (is_xmr c.asset) (invalid_argument "round2 only valid for XMR")
  lift (ensure_state_in c.state (xmr_msig_r1 ∷ xmr_msig_r2 ∷ []) "set_arbiter_round2")
  require (round1_complete c) (missing_data "round1 data incomplete")
  slot ← lift (set_once c.xmr_r2_arbiter multisig_info true "xmr_r2_arbiter")
  put (record c { xmr_r2_arbiter = slot; state = xmr_msig_r2 })
  pure (record { from = c.state; to = xmr_msig_r2; action = "xmr_r2_arbiter" })

-- The `match who` of `submit_round2`.
fill_round2 : EscrowParticipant → String → ContractMethod Unit
fill_round2 buyer multisig_info = do
  c ← this
  slot ← lift (set_once c.xmr_r2_buyer multisig_info true "xmr_r2_buyer")
  put (record c { xmr_r2_buyer = slot })
fill_round2 seller multisig_info = do
  c ← this
  slot ← lift (set_once c.xmr_r2_seller multisig_info true "xmr_r2_seller")
  put (record c { xmr_r2_seller = slot })
fill_round2 arbiter multisig_info = raise (invalid_argument "arbiter should use set_arbiter_round2")

unfoldable pub submit_round2 : EscrowParticipant → String → ContractMethod EscrowTransition
unfolding fill_round2
submit_round2 who multisig_info = do
  c ← this
  require (is_xmr c.asset) (invalid_argument "round2 only valid for XMR")
  lift (ensure_state_in c.state (xmr_msig_r2 ∷ []) "submit_round2")
  fill_round2 who multisig_info
  pure (record { from = c.state; to = c.state; action = "xmr_r2" })

unfoldable pub set_arbiter_round3 : String → ContractMethod EscrowTransition
set_arbiter_round3 multisig_info = do
  c ← this
  require (is_xmr c.asset) (invalid_argument "round3 only valid for XMR")
  lift (ensure_state_in c.state (xmr_msig_r2 ∷ xmr_msig_r3 ∷ []) "set_arbiter_round3")
  require (round2_complete c) (missing_data "round2 data incomplete")
  slot ← lift (set_once c.xmr_r3_arbiter multisig_info true "xmr_r3_arbiter")
  put (record c { xmr_r3_arbiter = slot; state = xmr_msig_r3 })
  pure (record { from = c.state; to = xmr_msig_r3; action = "xmr_r3_arbiter" })

-- The `match who` of `submit_round3`.
fill_round3 : EscrowParticipant → String → ContractMethod Unit
fill_round3 buyer multisig_info = do
  c ← this
  slot ← lift (set_once c.xmr_r3_buyer multisig_info true "xmr_r3_buyer")
  put (record c { xmr_r3_buyer = slot })
fill_round3 seller multisig_info = do
  c ← this
  slot ← lift (set_once c.xmr_r3_seller multisig_info true "xmr_r3_seller")
  put (record c { xmr_r3_seller = slot })
fill_round3 arbiter multisig_info = raise (invalid_argument "arbiter should use set_arbiter_round3")

unfoldable pub submit_round3 : EscrowParticipant → String → ContractMethod EscrowTransition
unfolding fill_round3
submit_round3 who multisig_info = do
  c ← this
  require (is_xmr c.asset) (invalid_argument "round3 only valid for XMR")
  lift (ensure_state_in c.state (xmr_msig_r3 ∷ []) "submit_round3")
  fill_round3 who multisig_info
  pure (record { from = c.state; to = c.state; action = "xmr_r3" })

unfoldable pub set_deposit_address : (String → Bool) → String → ContractMethod EscrowTransition
set_deposit_address is_xmr_address address = do
  c ← this
  require (is_xmr c.asset) (invalid_argument "deposit address only valid for XMR")
  lift (ensure_state_in c.state (xmr_msig_r3 ∷ ready ∷ []) "set_deposit_address")
  require (round3_complete c) (missing_data "round3 data incomplete")
  let normalized = trim address
  require (is_xmr_address normalized) (invalid_argument "invalid deposit address")
  slot ← lift (set_once c.deposit_address normalized true "deposit_address")
  put (record c { deposit_address = slot; state = ready })
  pure (record { from = c.state; to = ready; action = "deposit_address" })
