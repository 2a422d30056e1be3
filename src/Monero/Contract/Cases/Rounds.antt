-- ===== src/Monero/Contract/Cases/Rounds.antt =====
-- The cases of the key-exchange rounds.
use nexum_core.Common.{String, Bool, Option, [], ◌∷◌, arith}
use nexum_core.Common.Text.{trim}
use nexum_core.Monero.Types.{
  new, xmr_msig_r1, xmr_msig_r2, xmr_msig_r3, ready, EscrowParticipant, buyer, seller, arbiter,
}
use nexum_core.Monero.Slots.{ensure_state_in-eq-ok, set_once_cases, set_refund_once_cases}
use nexum_core.Monero.Contract.{EscrowContract}
use nexum_core.Monero.Contract.Rounds.{
  set_arbiter_round1, submit_round1, set_arbiter_round2, submit_round2, set_arbiter_round3,
  submit_round3, set_deposit_address,
}
use nexum_core.Monero.Contract.Ops.{arbiter1, round1, arbiter2, round2, arbiter3, round3, deposit}
use nexum_core.Monero.Contract.Cases.{Ends}

module _ (p : String → Bool) (c : EscrowContract) where
  pub set_arbiter_round1-Ends :
      (info : String) → Ends p c (arbiter1 info) (set_arbiter_round1 info c).1
  unfolding set_arbiter_round1
  set_arbiter_round1-Ends info = ground (
    arith,
    ensure_state_in-eq-ok c.state (new ∷ xmr_msig_r1 ∷ []) "set_arbiter_round1",
    set_once_cases c.xmr_r1_arbiter info "xmr_r1_arbiter",
  )

  pub set_arbiter_round2-Ends :
      (info : String) → Ends p c (arbiter2 info) (set_arbiter_round2 info c).1
  unfolding set_arbiter_round2
  set_arbiter_round2-Ends info = ground (
    arith,
    ensure_state_in-eq-ok c.state (xmr_msig_r1 ∷ xmr_msig_r2 ∷ []) "set_arbiter_round2",
    set_once_cases c.xmr_r2_arbiter info "xmr_r2_arbiter",
  )

  pub submit_round2-Ends :
      (who : EscrowParticipant) (info : String)
      → Ends p c (round2 who info) (submit_round2 who info c).1
  unfolding submit_round2
  submit_round2-Ends buyer info = ground (
    arith,
    ensure_state_in-eq-ok c.state (xmr_msig_r2 ∷ []) "submit_round2",
    set_once_cases c.xmr_r2_buyer info "xmr_r2_buyer",
  )
  submit_round2-Ends seller info = ground (
    arith,
    ensure_state_in-eq-ok c.state (xmr_msig_r2 ∷ []) "submit_round2",
    set_once_cases c.xmr_r2_seller info "xmr_r2_seller",
  )
  submit_round2-Ends arbiter info = ground arith

  pub set_arbiter_round3-Ends :
      (info : String) → Ends p c (arbiter3 info) (set_arbiter_round3 info c).1
  unfolding set_arbiter_round3
  set_arbiter_round3-Ends info = ground (
    arith,
    ensure_state_in-eq-ok c.state (xmr_msig_r2 ∷ xmr_msig_r3 ∷ []) "set_arbiter_round3",
    set_once_cases c.xmr_r3_arbiter info "xmr_r3_arbiter",
  )

  pub submit_round3-Ends :
      (who : EscrowParticipant) (info : String)
      → Ends p c (round3 who info) (submit_round3 who info c).1
  unfolding submit_round3
  submit_round3-Ends buyer info = ground (
    arith,
    ensure_state_in-eq-ok c.state (xmr_msig_r3 ∷ []) "submit_round3",
    set_once_cases c.xmr_r3_buyer info "xmr_r3_buyer",
  )
  submit_round3-Ends seller info = ground (
    arith,
    ensure_state_in-eq-ok c.state (xmr_msig_r3 ∷ []) "submit_round3",
    set_once_cases c.xmr_r3_seller info "xmr_r3_seller",
  )
  submit_round3-Ends arbiter info = ground arith

  pub submit_round1-Ends :
      (who : EscrowParticipant) (info : String) (addr : Option String)
      → Ends p c (round1 who info addr) (submit_round1 p who info addr c).1
  unfolding submit_round1
  submit_round1-Ends buyer info addr = ground (
    arith,
    ensure_state_in-eq-ok c.state (new ∷ xmr_msig_r1 ∷ []) "submit_round1",
    set_once_cases c.xmr_r1_buyer info "xmr_r1_buyer",
    set_refund_once_cases p c.refund_address_buyer addr "refund_address_buyer",
  )
  submit_round1-Ends seller info addr = ground (
    arith,
    ensure_state_in-eq-ok c.state (new ∷ xmr_msig_r1 ∷ []) "submit_round1",
    set_once_cases c.xmr_r1_seller info "xmr_r1_seller",
    set_refund_once_cases p c.refund_address_seller addr "refund_address_seller",
  )
  submit_round1-Ends arbiter info addr = ground arith

  pub set_deposit_address-Ends :
      (address : String) → Ends p c (deposit address) (set_deposit_address p address c).1
  unfolding set_deposit_address
  set_deposit_address-Ends address = ground (
    arith,
    ensure_state_in-eq-ok c.state (xmr_msig_r3 ∷ ready ∷ []) "set_deposit_address",
    set_once_cases c.deposit_address (trim address) "deposit_address",
  )
