-- ===== src/Monero/Contract/Ops.antt =====
-- The operations of `EscrowContract` that an escrow goes through, as one alphabet, and their runs; the
-- imports of snapshots, which the bridge makes into a new contract, are not among them. A caller
-- that gets an error goes on with the contract as the operation has left it.
use nexum_core.Common.{ℕ, String, Option, List, [], ◌∷◌, ◌++◌, ◌≡◌, refl, Bool}
use nexum_core.Common.Int.{ℤ}
use nexum_core.Common.Outcome.{Result, ok, err}
use nexum_core.Monero.Types.{EscrowParticipant, MoneroArbitraError}
use nexum_core.Monero.Contract.{EscrowContract, ContractMethod}
use nexum_core.Monero.Contract.Rounds.{
  set_arbiter_round1, submit_round1, set_arbiter_round2, submit_round2, set_arbiter_round3,
  submit_round3, set_deposit_address,
}
use nexum_core.Monero.Contract.Settlement.{
  mark_funded, open_dispute, confirm_release, confirm_refund,
}

pub data Op : Type 0 where
  arbiter1 : String → Op
  round1 : EscrowParticipant → String → Option String → Op
  arbiter2 : String → Op
  round2 : EscrowParticipant → String → Op
  arbiter3 : String → Op
  round3 : EscrowParticipant → String → Op
  deposit : String → Op
  fund : ℕ → Op
  disputed : ℤ → EscrowParticipant → Option String → Op
  release : EscrowParticipant → Option String → Op
  refund : EscrowParticipant → Option String → Op

-- `let _ = …?`
abbrev pub forget :
    {A : Type 0} → Result MoneroArbitraError A → Result MoneroArbitraError (Unit {0})
forget (ok _) = ok tt
forget (err e) = err e

abbrev pub ignore : {A : Type 0} → ContractMethod A → ContractMethod Unit
ignore m c = let (r, c') = m c in (forget r, c')

-- `is_xmr_address` of the same crate is a parameter here.
module _ (is_xmr_address : String → Bool) where
  unfoldable pub perform : Op → ContractMethod Unit
  perform (arbiter1 info) = ignore (set_arbiter_round1 info)
  perform (round1 who info addr) = ignore (submit_round1 is_xmr_address who info addr)
  perform (arbiter2 info) = ignore (set_arbiter_round2 info)
  perform (round2 who info) = ignore (submit_round2 who info)
  perform (arbiter3 info) = ignore (set_arbiter_round3 info)
  perform (round3 who info) = ignore (submit_round3 who info)
  perform (deposit addr) = ignore (set_deposit_address is_xmr_address addr)
  perform (fund balance) = ignore (mark_funded balance)
  perform (disputed now who reason) = ignore (open_dispute now who reason)
  perform (release who txid) = ignore (confirm_release who txid)
  perform (refund who txid) = ignore (confirm_refund who txid)

  abbrev pub step : EscrowContract → Op → EscrowContract
  step c op = (perform op c).1

  unfoldable pub run : EscrowContract → List Op → EscrowContract
  run c [] = c
  run c (op ∷ ops) = run (step c op) ops

  pub run-append :
      (c : EscrowContract) (ops ops' : List Op) → run c (ops ++ ops') ≡ run (run c ops) ops'
  unfolding run
  run-append c [] ops' = refl
  run-append c (op ∷ ops) ops' = run-append (step c op) ops ops'
