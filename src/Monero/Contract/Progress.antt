-- ===== src/Monero/Contract/Progress.antt =====
-- The order of an escrow's states, what an error leaves behind, and what a reported transition says.
use nexum_core.Common.{
  ℕ, ◌≤◌, String, ◌≡◌, refl, ◌∙◌, ◌≢◌, ◌↔◌, ◌⊎◌, Bool, true, false, none, some, List, [], ◌∷◌,
  arith,
}
use nexum_core.Common.Int.{ℤ}
use nexum_core.Common.Outcome.{is_ok}
use nexum_core.Monero.Types.{
  EscrowState, new, xmr_msig_r1, xmr_msig_r2, xmr_msig_r3, ready, funded, released, refunded,
  dispute, closed, EscrowParticipant, buyer, seller, arbiter,
}
use nexum_core.Monero.Slots.{ensure_state_in, set_once_cases, normalize_dispute_reason}
use nexum_core.Monero.Contract.{EscrowContract}
use nexum_core.Monero.Contract.Rounds.{
  set_arbiter_round1, submit_round1, set_arbiter_round2, submit_round2, set_arbiter_round3,
  submit_round3, set_deposit_address,
}
use nexum_core.Monero.Contract.Settlement.{
  mark_funded, open_dispute, confirm_release, confirm_refund, count_release, count_refund,
}
use nexum_core.Monero.Contract.Ops.{
  Op, arbiter1, round1, arbiter2, round2, arbiter3, round3, deposit, fund, disputed, release,
  refund, perform, step, run,
}
use nexum_core.Monero.Contract.Cases.{put_round1}
use nexum_core.Monero.Contract.Steps.{step-Ends}

-- The place of a state in the life of an escrow.
abbrev pub stage : EscrowState → ℕ
stage new = 0
stage xmr_msig_r1 = 1
stage xmr_msig_r2 = 2
stage xmr_msig_r3 = 3
stage ready = 4
stage funded = 5
stage dispute = 6
stage released = 7
stage refunded = 7
stage closed = 7

abbrev pub IsTerminal : EscrowState → Type 0
IsTerminal s = (s ≡ released) ⊎ (s ≡ refunded) ⊎ (s ≡ closed)

module _ (p : String → Bool) where
  step_advances : (op : Op) (c : EscrowContract) → stage c.state ≤ stage (step p c op).state
  unfolding count_release count_refund
  step_advances (release who none) c = ground (arith, step-Ends p (release who none) c)
  step_advances (refund who none) c = ground (arith, step-Ends p (refund who none) c)
  step_advances op c = ground (arith, step-Ends p op c)

  step_terminal :
      (op : Op) (c : EscrowContract) → IsTerminal c.state → (step p c op).state ≡ c.state
  unfolding count_release count_refund
  step_terminal (release who none) c h = ground (arith, step-Ends p (release who none) c)
  step_terminal (refund who none) c h = ground (arith, step-Ends p (refund who none) c)
  step_terminal op c h = ground (arith, step-Ends p op c)

  -- The operations that write in two parts.
  abbrev two_writes : Op → Bool
  two_writes (round1 who info addr) = true
  two_writes (disputed now who reason) = true
  two_writes _ = false

  error_keeps :
      (op : Op) (c : EscrowContract)
      → two_writes op ≡ false
      → is_ok (perform p op c).0 ≡ false
      → step p c op ≡ c
  unfolding perform set_arbiter_round1 submit_round1 set_arbiter_round2 submit_round2
      set_arbiter_round3 submit_round3 set_deposit_address mark_funded open_dispute confirm_release
      confirm_refund
  error_keeps (release who none) c t h = ground arith
  error_keeps (refund who none) c t h = ground arith
  error_keeps (round2 buyer info) c t h = ground arith
  error_keeps (round3 buyer info) c t h = ground arith
  error_keeps op c t h = ground arith

  -- An escrow never moves back: whatever operations follow, its state stands no earlier in its
  -- life, and once released, refunded or closed it stays so.
  pub run_advances :
      (c : EscrowContract) (ops : List Op)
      → (stage c.state ≤ stage (run p c ops).state)
        × (IsTerminal c.state → (run p c ops).state ≡ c.state)
  unfolding run
  run_advances c [] = (omega arith, λ _. refl)
  run_advances c (op ∷ ops) =
      let rest = run_advances (step p c op) ops in
      let here = step_advances op c in
      (omega arith, λ t. let e = step_terminal op c t in rest.1 (rw e t) ∙ e)

  -- What a failed operation may have written: nothing, or the first of its two writes.
  abbrev pub IsLeftover : EscrowContract → Op → EscrowContract → Type 0
  IsLeftover c (round1 who info addr) c' = (c' ≡ c) ⊎ (c' ≡ put_round1 who info c)
  IsLeftover c (disputed now who reason) c' =
      (c' ≡ c) ⊎ (c' ≡ record c { dispute_opened_by = some who })
  IsLeftover c _ c' = c' ≡ c

  -- An operation (the snapshot imports are not among them) that returns an error leaves the contract as it
  -- was, but for two: `submit_round1` may have stored the round information, and `open_dispute` the
  -- opener.
  pub error_leaves :
      (op : Op) (c : EscrowContract)
      → is_ok (perform p op c).0 ≡ false
      → IsLeftover c op (step p c op)
  unfolding perform submit_round1 open_dispute
  error_leaves (round1 buyer info addr) c h =
      ground (arith, set_once_cases c.xmr_r1_buyer info "xmr_r1_buyer")
  error_leaves (round1 seller info addr) c h =
      ground (arith, set_once_cases c.xmr_r1_seller info "xmr_r1_seller")
  error_leaves (round1 arbiter info addr) c h = ground arith
  error_leaves (disputed now who reason) c h = ground arith
  error_leaves (arbiter1 info) c h = error_keeps (arbiter1 info) c refl h
  error_leaves (arbiter2 info) c h = error_keeps (arbiter2 info) c refl h
  error_leaves (arbiter3 info) c h = error_keeps (arbiter3 info) c refl h
  error_leaves (round2 who info) c h = error_keeps (round2 who info) c refl h
  error_leaves (round3 who info) c h = error_keeps (round3 who info) c refl h
  error_leaves (deposit address) c h = error_keeps (deposit address) c refl h
  error_leaves (fund balance) c h = error_keeps (fund balance) c refl h
  error_leaves (release who txid) c h = error_keeps (release who txid) c refl h
  error_leaves (refund who txid) c h = error_keeps (refund who txid) c refl h

  -- `mark_funded` succeeds exactly in the ready state with a sufficient balance, and then only the
  -- state changes, to funded.
  fund_exact :
      (balance : ℕ) (c : EscrowContract)
      → ((is_ok (perform p (fund balance) c).0 ≡ true)
          ↔ ((c.state ≡ ready) × (c.amount_atomic ≤ balance)))
        × (is_ok (perform p (fund balance) c).0 ≡ true
            → step p c (fund balance) ≡ record c { state = funded })
  unfolding perform mark_funded ensure_state_in
  fund_exact balance c = (ground arith, ground arith)

  -- A ready escrow that was never funded is released by a dispute and two confirmations: the opener
  -- and the two participants that confirm may be any, the two being different.
  pub unfunded_release :
      (c : EscrowContract) (now : ℤ) (who a b : EscrowParticipant)
      → c.state ≡ ready
      → c.dispute_opened_by ≡ none
      → a ≢ b
      → (run p c (disputed now who none ∷ release a none ∷ release b none ∷ [])).state ≡ released
  unfolding run perform open_dispute confirm_release count_release ensure_state_in
      normalize_dispute_reason
  unfunded_release c now who a b at_ready fresh distinct = ground arith
