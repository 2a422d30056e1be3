-- ===== src/Monero/Contract/Steps.antt =====
-- The cases of a step, whatever its operation.
use nexum_core.Common.{String, Bool}
use nexum_core.Monero.Contract.{EscrowContract}
use nexum_core.Monero.Contract.Ops.{
  Op, arbiter1, round1, arbiter2, round2, arbiter3, round3, deposit, fund, disputed, release,
  refund, perform, step,
}
use nexum_core.Monero.Contract.Cases.{Ends}
use nexum_core.Monero.Contract.Cases.Rounds.{
  set_arbiter_round1-Ends, submit_round1-Ends, set_arbiter_round2-Ends, submit_round2-Ends,
  set_arbiter_round3-Ends, submit_round3-Ends, set_deposit_address-Ends,
}
use nexum_core.Monero.Contract.Cases.Settlement.{
  mark_funded-Ends, open_dispute-Ends, confirm_release-Ends, confirm_refund-Ends,
}

module _ (p : String → Bool) where
  pub step-Ends : (op : Op) (c : EscrowContract) → Ends p c op (step p c op)
  unfolding perform
  step-Ends (arbiter1 info) c = set_arbiter_round1-Ends p c info
  step-Ends (round1 who info addr) c = submit_round1-Ends p c who info addr
  step-Ends (arbiter2 info) c = set_arbiter_round2-Ends p c info
  step-Ends (round2 who info) c = submit_round2-Ends p c who info
  step-Ends (arbiter3 info) c = set_arbiter_round3-Ends p c info
  step-Ends (round3 who info) c = submit_round3-Ends p c who info
  step-Ends (deposit address) c = set_deposit_address-Ends p c address
  step-Ends (fund balance) c = mark_funded-Ends p c balance
  step-Ends (disputed now who reason) c = open_dispute-Ends p c now who reason
  step-Ends (release who txid) c = confirm_release-Ends p c who txid
  step-Ends (refund who txid) c = confirm_refund-Ends p c who txid
