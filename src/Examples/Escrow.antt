-- ===== src/Examples/Escrow.antt =====
-- The theorems on the escrow contract and its fees at concrete inputs.
use nexum_core.Monero.Address.{decode_block, accumulate, b58_value, position_from, out_bytes}
use nexum_core.Monero.Address.Blocks.{value_of, in_block, block_value, decode_block_exact}
use nexum_core.Common.{
  ℕ, List, [], ◌∷◌, some, arith, ◌+◌, ◌≤◌, ◌<◌, max, String, ◌≡◌, refl, Bool, true, false, none,
  some, List, [], ◌∷◌, ◌++◌, arith,
}
use nexum_core.Common.Int.{pos}
use nexum_core.Common.Text.{trim}
use nexum_core.Common.Outcome.{ok, is_ok}
use nexum_core.Monero.Types.{buyer, seller, arbiter, ready, released}
use nexum_core.Monero.Slots.{ensure_state_in}
use nexum_core.Monero.Contract.{EscrowContract, new_xmr, count}
use nexum_core.Monero.Contract.Settlement.{mark_funded}
use nexum_core.Monero.Contract.Ops.{Op, fund, disputed, release, perform, step, run}
use nexum_core.Monero.Contract.Invariant.{IsSound, new_contract-IsSound, never_settled_twice}
use nexum_core.Monero.Contract.Slots.{KeepsRounds, KeepsPayout, run_keeps_slots}
use nexum_core.Monero.Contract.Progress.{
  stage, IsTerminal, IsLeftover, run_advances, error_leaves, unfunded_release,
}
use nexum_core.Monero.Contract.Setup.{RoundInfo, setup_ops, setup_completes}
use nexum_core.Monero.Fee.{u64_max, EscrowFeePolicy, quote}
use nexum_core.Monero.Fee.Quote.{quote_exact}

abbrev any_address : String → Bool
any_address _ = true

abbrev info : RoundInfo
info = record { from_buyer = "b"; from_seller = "s"; from_arbiter = "a" }

abbrev other : RoundInfo
other = record { from_buyer = "x"; from_seller = "y"; from_arbiter = "z" }

abbrev escrow : EscrowContract
escrow = new_xmr 7 "bea" "sam" "ada" 100

abbrev release_ops : List Op
release_ops = release buyer none ∷ release seller none ∷ []

abbrev life_ops : List Op
life_ops = setup_ops info info info "4A" ++ (fund 100 ∷ release_ops)

new_contract-IsSound_example : IsSound any_address (run any_address escrow life_ops)
new_contract-IsSound_example = new_contract-IsSound any_address 7 100 "bea" "sam" "ada" life_ops

never_settled_twice_example : ¬ (
    (2 ≤ count (run any_address escrow life_ops).release_confirmations)
    × (2 ≤ count (run any_address escrow life_ops).refund_confirmations))
never_settled_twice_example = never_settled_twice any_address 7 100 "bea" "sam" "ada" life_ops

setup_completes_example :
    let c = run any_address escrow (setup_ops info info info "4A") in
    (c.state ≡ ready) × (c.deposit_address ≡ some (trim "4A"))
unfolding trim
setup_completes_example =
    setup_completes any_address 7 100 "bea" "sam" "ada" info info info "4A"
      (record { buyer_given = refl; seller_given = refl; arbiter_given = refl })
      (record { buyer_given = refl; seller_given = refl; arbiter_given = refl })
      (record { buyer_given = refl; seller_given = refl; arbiter_given = refl }) refl refl

-- Round data, addresses and a dispute are stored.
abbrev filled_escrow : EscrowContract
filled_escrow = record escrow {
  state = ready;
  xmr_r1_buyer = some "b";
  xmr_r2_seller = some "s";
  xmr_r3_arbiter = some "a";
  refund_address_buyer = some "4B";
  deposit_address = some "4A";
  dispute_opened_by = some seller;
}

abbrev other_ops : List Op
other_ops = setup_ops other other other "4C" ++ (disputed (pos 5) buyer none ∷ release_ops)

run_keeps_slots_example :
    KeepsRounds filled_escrow (run any_address filled_escrow other_ops)
    × KeepsPayout filled_escrow (run any_address filled_escrow other_ops)
run_keeps_slots_example = run_keeps_slots any_address filled_escrow other_ops

run_advances_example :
    (stage escrow.state ≤ stage (run any_address escrow life_ops).state)
    × (IsTerminal escrow.state → (run any_address escrow life_ops).state ≡ escrow.state)
run_advances_example = run_advances any_address escrow life_ops

abbrev ready_escrow : EscrowContract
ready_escrow = record escrow { state = ready }

error_leaves_example : IsLeftover any_address escrow (fund 100) (step any_address escrow (fund 100))
unfolding perform mark_funded new_xmr ensure_state_in
error_leaves_example = error_leaves any_address (fund 100) escrow refl

unfunded_release_example :
    (run any_address ready_escrow
      (disputed (pos 5) buyer none ∷ release seller none ∷ release arbiter none ∷ [])).state
    ≡ released
unfolding new_xmr
unfunded_release_example =
    unfunded_release any_address ready_escrow (pos 5) buyer seller arbiter refl refl (ground arith)

abbrev policy : EscrowFeePolicy
policy = record { min_escrow_amount_atomic = 1; fee_floor_atomic = 5; fee_bps = 250 }

quote_exact_example :
    (1000 + max 5 25 ≤ u64_max
      → quote policy 1000 ≡ ok (record { fee_atomic = 25; required_funding_atomic = 1025 }))
    × (u64_max < 1000 + max 5 25 → is_ok (quote policy 1000) ≡ false)
quote_exact_example =
    quote_exact policy 1000 25 (omega arith) (omega arith) (omega arith, omega arith)

-- "11111111121" and three bytes: the digits 1 and 0, which stand for 58.
abbrev block : List ℕ
block = 49 ∷ 49 ∷ 49 ∷ 49 ∷ 49 ∷ 49 ∷ 49 ∷ 49 ∷ 49 ∷ 50 ∷ 49 ∷ []

decode_block_exact_example : value_of (decode_block block 3) ≡ in_block 3 (block_value 0 block)
decode_block_exact_example = decode_block_exact block 3 (omega arith)

block_decoded : decode_block block 3 ≡ some (0 ∷ 0 ∷ 58 ∷ [])
unfolding decode_block accumulate b58_value position_from out_bytes
block_decoded = refl
