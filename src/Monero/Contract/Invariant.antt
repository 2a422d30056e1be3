-- ===== src/Monero/Contract/Invariant.antt =====
-- What every contract that starts as `new_xmr` satisfies, whatever operations follow.
use nexum_core.Common.{
  ℕ, ◌≤◌, String, ◌≡◌, ◌≢◌, Bool, true, false, Option, none, some, List, [], ◌∷◌, arith, is_some,
}
use nexum_core.Monero.Types.{
  EscrowState, new, xmr_msig_r1, xmr_msig_r2, xmr_msig_r3, funded, released, refunded, dispute,
  closed,
}
use nexum_core.Monero.Slots.{is_txid}
use nexum_core.Monero.Contract.{EscrowContract, count, new_xmr}
use nexum_core.Monero.Contract.Rounds.{round1_complete, round2_complete, round3_complete}
use nexum_core.Monero.Contract.Settlement.{count_release, count_refund}
use nexum_core.Monero.Contract.Steps.{step-Ends}
use nexum_core.Monero.Contract.Ops.{Op, release, refund, step, run}

-- How many rounds a state presupposes.
abbrev pub rounds_done : EscrowState → ℕ
rounds_done new = 0
rounds_done xmr_msig_r1 = 0
rounds_done xmr_msig_r2 = 1
rounds_done xmr_msig_r3 = 2
rounds_done _ = 3

abbrev pub in_settlement : EscrowState → Bool
in_settlement funded = true
in_settlement released = true
in_settlement refunded = true
in_settlement dispute = true
in_settlement _ = false

abbrev pub holds {ℓ} : {A : Type ℓ} → (A → Bool) → Option A → Bool
holds p none = true
holds p (some a) = p a

-- A state is reached only with the data of the rounds before it.
pub record IsKeyed (c : EscrowContract) : Type 0 where
  pub first_round : 1 ≤ rounds_done c.state → round1_complete c ≡ true
  pub second_round : 2 ≤ rounds_done c.state → round2_complete c ≡ true
  pub third_round : 3 ≤ rounds_done c.state → round3_complete c ≡ true
  pub deposit_known : 3 ≤ rounds_done c.state → is_some c.deposit_address ≡ true

-- The contract is settled one way exactly when that way has two confirmations.
pub record IsSettled (c : EscrowContract) : Type 0 where
  pub not_closed : c.state ≢ closed
  pub release_quorum : c.state ≡ released → 2 ≤ count c.release_confirmations
  pub released_at_quorum : 2 ≤ count c.release_confirmations → c.state ≡ released
  pub refund_quorum : c.state ≡ refunded → 2 ≤ count c.refund_confirmations
  pub refunded_at_quorum : 2 ≤ count c.refund_confirmations → c.state ≡ refunded

pub record IsDisputed (c : EscrowContract) : Type 0 where
  pub dispute_opener : c.state ≡ dispute → is_some c.dispute_opened_by ≡ true
  pub dispute_time : c.state ≡ dispute → is_some c.dispute_opened_at ≡ true

module _ (is_xmr_address : String → Bool) where
  pub record IsAddressed (c : EscrowContract) : Type 0 where
    pub deposit_valid : holds is_xmr_address c.deposit_address ≡ true
    pub buyer_refund_valid : holds is_xmr_address c.refund_address_buyer ≡ true
    pub seller_refund_valid : holds is_xmr_address c.refund_address_seller ≡ true
    pub release_txid_valid : holds is_txid c.release_txid ≡ true
    pub refund_txid_valid : holds is_txid c.refund_txid ≡ true

  step-IsDisputed :
      (op : Op) (c : EscrowContract) → IsDisputed c → IsDisputed (step is_xmr_address c op)
  unfolding count_release count_refund
  step-IsDisputed (release who none) c h =
      ground (arith, step-Ends is_xmr_address (release who none) c)
  step-IsDisputed (refund who none) c h =
      ground (arith, step-Ends is_xmr_address (refund who none) c)
  step-IsDisputed op c h = ground (arith, step-Ends is_xmr_address op c)

  step-IsSettled :
      (op : Op) (c : EscrowContract) → IsSettled c → IsSettled (step is_xmr_address c op)
  unfolding count_release count_refund
  step-IsSettled (release who none) c h =
      ground (arith, step-Ends is_xmr_address (release who none) c)
  step-IsSettled (refund who none) c h =
      ground (arith, step-Ends is_xmr_address (refund who none) c)
  step-IsSettled op c h = ground (arith, step-Ends is_xmr_address op c)

  step-IsAddressed :
      (op : Op) (c : EscrowContract) → IsAddressed c → IsAddressed (step is_xmr_address c op)
  unfolding count_release count_refund
  step-IsAddressed (release who none) c h =
      ground (arith, step-Ends is_xmr_address (release who none) c)
  step-IsAddressed (refund who none) c h =
      ground (arith, step-Ends is_xmr_address (refund who none) c)
  step-IsAddressed op c h = ground (arith, step-Ends is_xmr_address op c)

  step-IsKeyed : (op : Op) (c : EscrowContract) → IsKeyed c → IsKeyed (step is_xmr_address c op)
  unfolding count_release count_refund
  step-IsKeyed (release who none) c h =
      ground (arith, step-Ends is_xmr_address (release who none) c)
  step-IsKeyed (refund who none) c h = ground (arith, step-Ends is_xmr_address (refund who none) c)
  step-IsKeyed op c h = ground (arith, step-Ends is_xmr_address op c)

  pub record IsSound (c : EscrowContract) : Type 0 where
    pub keyed : IsKeyed c
    pub settled : IsSettled c
    pub disputed : IsDisputed c
    pub addressed : IsAddressed c

  pub step-IsSound : (op : Op) (c : EscrowContract) → IsSound c → IsSound (step is_xmr_address c op)
  step-IsSound op c h = record {
    keyed = step-IsKeyed op c h.keyed;
    settled = step-IsSettled op c h.settled;
    disputed = step-IsDisputed op c h.disputed;
    addressed = step-IsAddressed op c h.addressed;
  }

  pub run-IsSound :
      (c : EscrowContract) (ops : List Op) → IsSound c → IsSound (run is_xmr_address c ops)
  unfolding run
  run-IsSound c [] h = h
  run-IsSound c (op ∷ ops) h = run-IsSound (step is_xmr_address c op) ops (step-IsSound op c h)

  -- Whatever operations a new contract sees (the snapshot imports are not among them), in any order and
  -- with any answers, its state has the round data, the deposit address, the confirmations and the
  -- dispute data that it presupposes; it is released exactly if two participants confirmed the release,
  -- refunded exactly if two confirmed the refund; and every stored address and transaction id is valid.
  pub new_contract-IsSound :
      (id amount : ℕ) (b s a : String) (ops : List Op)
      → IsSound (run is_xmr_address (new_xmr id b s a amount) ops)
  unfolding new_xmr
  new_contract-IsSound id amount b s a ops = run-IsSound (new_xmr id b s a amount) ops (record {
    keyed = ground arith;
    settled = ground arith;
    disputed = ground arith;
    addressed = ground arith;
  })

  -- No run of a new contract (the snapshot imports are not among its operations) collects two
  -- confirmations for the release and two for the refund.
  pub never_settled_twice :
      (id amount : ℕ) (b s a : String) (ops : List Op)
      → let c = run is_xmr_address (new_xmr id b s a amount) ops in
        ¬ ((2 ≤ count c.release_confirmations) × (2 ≤ count c.refund_confirmations))
  never_settled_twice id amount b s a ops h =
      let settled = (new_contract-IsSound id amount b s a ops).settled in
      cc (settled.released_at_quorum h.0, settled.refunded_at_quorum h.1)
