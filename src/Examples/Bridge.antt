-- ===== src/Examples/Bridge.antt =====
-- The theorems on the bridge at concrete inputs.
use nexum_core.Common.{ℕ, String, ◌≡◌, refl, Bool, true, false, none, List}
use nexum_core.Common.Outcome.{ok, is_ok}
use nexum_core.Monero.Slots.{Result'}
use nexum_core.Monero.Bridge.Names.{parse_participant}
use nexum_core.Monero.Bridge.Requests.{
  Wallet, SubmitR2Request, submit_r2, SubmitR3Request, submit_r3,
}
use nexum_core.Monero.Bridge.Keys.{arbiter_rounds_fail}

abbrev any_address : String → Bool
any_address _ = true

abbrev answer : ℕ → List String → Result' String
answer _ _ = ok "info"

abbrev wallet : Wallet
wallet = record {
  make_multisig = answer;
  exchange_multisig_keys = answer;
  finalize_or_address = answer;
}

abbrev two : SubmitR2Request
two = record {
  escrow_id = 7;
  state = "XMR_MSIG_R1";
  actor_role = "arbiter";
  multisig_info = "info";
  xmr_r2_buyer = none;
  xmr_r2_seller = none;
  xmr_r2_arbiter = none;
  xmr_r3_arbiter = none;
}

abbrev three : SubmitR3Request
three = record {
  escrow_id = 7;
  state = "XMR_MSIG_R2";
  actor_role = "arbiter";
  multisig_info = "info";
  xmr_r3_buyer = none;
  xmr_r3_seller = none;
  xmr_r3_arbiter = none;
  deposit_address = none;
}

arbiter_rounds_fail_example :
    (is_ok (submit_r2 any_address wallet two) ≡ false)
    × (is_ok (submit_r3 any_address wallet three) ≡ false)
unfolding parse_participant
arbiter_rounds_fail_example = arbiter_rounds_fail any_address wallet two three refl refl
