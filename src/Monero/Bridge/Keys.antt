-- ===== src/Monero/Bridge/Keys.antt =====
-- What the key-exchange requests of the bridge answer to the arbiter.
use nexum_core.Common.{String, ◌≡◌, refl, Bool, false, ◌∷◌, [], arith, inl, inr}
use nexum_core.Common.Outcome.{ok, is_ok, Result-cases}
use nexum_core.Monero.Types.{xmr_msig_r1, xmr_msig_r2, xmr_msig_r3, arbiter}
use nexum_core.Monero.Slots.{ensure_state_in-eq-ok}
use nexum_core.Monero.Contract.{new_xmr}
use nexum_core.Monero.Contract.Rounds.{set_arbiter_round2, set_arbiter_round3}
use nexum_core.Monero.Bridge.Names.{parse_state, parse_participant}
use nexum_core.Monero.Bridge.Requests.{
  Wallet, SubmitR2Request, submit_r2, SubmitR3Request, submit_r3,
}

module _ (p : String → Bool) (wallet : Wallet) where
  round2_arbiter_fails :
      (req : SubmitR2Request)
      → parse_participant req.actor_role ≡ ok arbiter
      → is_ok (submit_r2 p wallet req) ≡ false
  unfolding submit_r2 new_xmr set_arbiter_round2
  round2_arbiter_fails req h = elim (Result-cases (parse_state req.state)) [
    | inl (s, e) ↦
        ground
          (arith, ensure_state_in-eq-ok s (xmr_msig_r1 ∷ xmr_msig_r2 ∷ []) "set_arbiter_round2")
    | inr (s, e) ↦ rw e refl
  ]

  round3_arbiter_fails :
      (req : SubmitR3Request)
      → parse_participant req.actor_role ≡ ok arbiter
      → is_ok (submit_r3 p wallet req) ≡ false
  unfolding submit_r3 new_xmr set_arbiter_round3
  round3_arbiter_fails req h = elim (Result-cases (parse_state req.state)) [
    | inl (s, e) ↦
        ground
          (arith, ensure_state_in-eq-ok s (xmr_msig_r2 ∷ xmr_msig_r3 ∷ []) "set_arbiter_round3")
    | inr (s, e) ↦ rw e refl
  ]

  -- An arbiter's second-round or third-round request is never answered with success: the contract
  -- that the request is read into lacks the data of the round before, which the arbiter's setters
  -- ask for.
  pub arbiter_rounds_fail :
      (two : SubmitR2Request) (three : SubmitR3Request)
      → parse_participant two.actor_role ≡ ok arbiter
      → parse_participant three.actor_role ≡ ok arbiter
      → (is_ok (submit_r2 p wallet two) ≡ false) × (is_ok (submit_r3 p wallet three) ≡ false)
  arbiter_rounds_fail two three h k = (round2_arbiter_fails two h, round3_arbiter_fails three k)
