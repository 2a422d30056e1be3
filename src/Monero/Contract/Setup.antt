-- ===== src/Monero/Contract/Setup.antt =====
-- The way from a new escrow to one that can be funded.
use nexum_core.Common.{
  ℕ, String, ◌≡◌, refl, sym, subst, Bool, true, false, none, some, List, [], ◌∷◌, ◌++◌, arith,
}
use nexum_core.Common.Outcome.{ok}
use nexum_core.Common.Text.{trim, trim_idem, is_empty}
use nexum_core.Monero.Types.{
  new, is_xmr, xmr_msig_r1, xmr_msig_r2, xmr_msig_r3, ready, buyer, seller,
}
use nexum_core.Monero.Slots.{set_once, ensure_state_in, set_refund_once}
use nexum_core.Monero.Contract.{EscrowContract, new_xmr}
use nexum_core.Monero.Contract.Rounds.{
  round1_complete, round2_complete, round3_complete, set_arbiter_round1, submit_round1,
  set_arbiter_round2, submit_round2, set_arbiter_round3, submit_round3, set_deposit_address,
}
use nexum_core.Monero.Contract.Ops.{
  Op, arbiter1, round1, arbiter2, round2, arbiter3, round3, deposit, perform, step, run,
}

pub record RoundInfo : Type 0 where
  pub from_buyer : String
  pub from_seller : String
  pub from_arbiter : String

-- No participant sends a blank.
pub record IsGiven (r : RoundInfo) : Type 0 where
  pub buyer_given : is_empty (trim r.from_buyer) ≡ false
  pub seller_given : is_empty (trim r.from_seller) ≡ false
  pub arbiter_given : is_empty (trim r.from_arbiter) ≡ false

abbrev pub first_ops : RoundInfo → List Op
first_ops r =
    round1 buyer r.from_buyer none ∷ round1 seller r.from_seller none ∷ arbiter1 r.from_arbiter ∷ []

abbrev pub second_ops : RoundInfo → List Op
second_ops r =
    arbiter2 r.from_arbiter ∷ round2 buyer r.from_buyer ∷ round2 seller r.from_seller ∷ []

abbrev pub third_ops : RoundInfo → List Op
third_ops r = arbiter3 r.from_arbiter ∷ round3 buyer r.from_buyer ∷ round3 seller r.from_seller ∷ []

abbrev pub setup_ops : RoundInfo → RoundInfo → RoundInfo → String → List Op
setup_ops r1 r2 r3 address =
    first_ops r1 ++ (second_ops r2 ++ (third_ops r3 ++ deposit address ∷ []))

store_given :
    (v label : String) → is_empty (trim v) ≡ false → set_once none v true label ≡ ok (some v)
unfolding set_once
store_given v label h = rw h

-- Each step of the setup, at any contract that is ready for it.
module _ (p : String → Bool) (c : EscrowContract) (v : String) (xmr : is_xmr c.asset ≡ true) where
  buyer1_done :
      c.state ≡ new
      → c.xmr_r1_buyer ≡ none
      → is_empty (trim v) ≡ false
      → step p c (round1 buyer v none) ≡ record c { xmr_r1_buyer = some v; state = xmr_msig_r1 }
  unfolding perform submit_round1 ensure_state_in set_refund_once
  buyer1_done at_new empty g = ground (arith, store_given v "xmr_r1_buyer" g)

  seller1_done :
      c.state ≡ xmr_msig_r1
      → c.xmr_r1_seller ≡ none
      → is_empty (trim v) ≡ false
      → step p c (round1 seller v none) ≡ record c { xmr_r1_seller = some v; state = xmr_msig_r1 }
  unfolding perform submit_round1 ensure_state_in set_refund_once
  seller1_done at_r1 empty g = ground (arith, store_given v "xmr_r1_seller" g)

  arbiter1_done :
      c.state ≡ xmr_msig_r1
      → c.xmr_r1_arbiter ≡ none
      → is_empty (trim v) ≡ false
      → step p c (arbiter1 v) ≡ record c { xmr_r1_arbiter = some v; state = xmr_msig_r1 }
  unfolding perform set_arbiter_round1 ensure_state_in
  arbiter1_done at_r1 empty g = ground (arith, store_given v "xmr_r1_arbiter" g)

  arbiter2_done :
      c.state ≡ xmr_msig_r1
      → round1_complete c ≡ true
      → c.xmr_r2_arbiter ≡ none
      → is_empty (trim v) ≡ false
      → step p c (arbiter2 v) ≡ record c { xmr_r2_arbiter = some v; state = xmr_msig_r2 }
  unfolding perform set_arbiter_round2 ensure_state_in
  arbiter2_done at_r complete empty g = ground (arith, store_given v "xmr_r2_arbiter" g)

  buyer2_done :
      c.state ≡ xmr_msig_r2
      → c.xmr_r2_buyer ≡ none
      → is_empty (trim v) ≡ false
      → step p c (round2 buyer v) ≡ record c { xmr_r2_buyer = some v }
  unfolding perform submit_round2 ensure_state_in
  buyer2_done at_r empty g = ground (arith, store_given v "xmr_r2_buyer" g)

  seller2_done :
      c.state ≡ xmr_msig_r2
      → c.xmr_r2_seller ≡ none
      → is_empty (trim v) ≡ false
      → step p c (round2 seller v) ≡ record c { xmr_r2_seller = some v }
  unfolding perform submit_round2 ensure_state_in
  seller2_done at_r empty g = ground (arith, store_given v "xmr_r2_seller" g)

  arbiter3_done :
      c.state ≡ xmr_msig_r2
      → round2_complete c ≡ true
      → c.xmr_r3_arbiter ≡ none
      → is_empty (trim v) ≡ false
      → step p c (arbiter3 v) ≡ record c { xmr_r3_arbiter = some v; state = xmr_msig_r3 }
  unfolding perform set_arbiter_round3 ensure_state_in
  arbiter3_done at_r complete empty g = ground (arith, store_given v "xmr_r3_arbiter" g)

  buyer3_done :
      c.state ≡ xmr_msig_r3
      → c.xmr_r3_buyer ≡ none
      → is_empty (trim v) ≡ false
      → step p c (round3 buyer v) ≡ record c { xmr_r3_buyer = some v }
  unfolding perform submit_round3 ensure_state_in
  buyer3_done at_r empty g = ground (arith, store_given v "xmr_r3_buyer" g)

  seller3_done :
      c.state ≡ xmr_msig_r3
      → c.xmr_r3_seller ≡ none
      → is_empty (trim v) ≡ false
      → step p c (round3 seller v) ≡ record c { xmr_r3_seller = some v }
  unfolding perform submit_round3 ensure_state_in
  seller3_done at_r empty g = ground (arith, store_given v "xmr_r3_seller" g)

  deposit_done :
      c.state ≡ xmr_msig_r3
      → round3_complete c ≡ true
      → c.deposit_address ≡ none
      → is_empty (trim v) ≡ false
      → p (trim v) ≡ true
      → step p c (deposit v) ≡ record c { deposit_address = some (trim v); state = ready }
  unfolding perform set_deposit_address ensure_state_in
  deposit_done at_r complete empty g valid =
      ground (arith, store_given (trim v) "deposit_address" (rw trim_idem g))

module _ (p : String → Bool) (P : EscrowContract → Type 0) where
  -- One step of a run, when its outcome is known.
  and_then :
      (c : EscrowContract) {c' : EscrowContract} (op : Op) (ops : List Op)
      → step p c op ≡ c'
      → P (run p c' ops)
      → P (run p c (op ∷ ops))
  unfolding run
  and_then c op ops e h = subst (λ d. P (run p d ops)) (sym e) h

  no_more : (c : EscrowContract) → P c → P (run p c [])
  unfolding run
  no_more c h = h

-- The contract after the setup.
abbrev ready_contract : EscrowContract → RoundInfo → RoundInfo → RoundInfo → String → EscrowContract
ready_contract c r1 r2 r3 address = record c {
  xmr_r1_buyer = some r1.from_buyer;
  xmr_r1_seller = some r1.from_seller;
  xmr_r1_arbiter = some r1.from_arbiter;
  xmr_r2_buyer = some r2.from_buyer;
  xmr_r2_seller = some r2.from_seller;
  xmr_r2_arbiter = some r2.from_arbiter;
  xmr_r3_buyer = some r3.from_buyer;
  xmr_r3_seller = some r3.from_seller;
  xmr_r3_arbiter = some r3.from_arbiter;
  deposit_address = some address;
  state = ready;
}

module _ (p : String → Bool) (id amount : ℕ) (b s a : String) (r1 r2 r3 : RoundInfo) where
  setup_run :
      (P : EscrowContract → Type 0) (address : String)
      → IsGiven r1
      → IsGiven r2
      → IsGiven r3
      → is_empty (trim address) ≡ false
      → p (trim address) ≡ true
      → P (ready_contract (new_xmr id b s a amount) r1 r2 r3 (trim address))
      → P (run p (new_xmr id b s a amount) (setup_ops r1 r2 r3 address))
  unfolding new_xmr
  setup_run P address g1 g2 g3 given valid h =
      and_then p P _ _ _ (buyer1_done p _ r1.from_buyer refl refl refl g1.buyer_given) (
        and_then p P _ _ _ (seller1_done p _ r1.from_seller refl refl refl g1.seller_given) (
          and_then p P _ _ _ (arbiter1_done p _ r1.from_arbiter refl refl refl g1.arbiter_given) (
            and_then p P _ _ _
              (arbiter2_done p _ r2.from_arbiter refl refl refl refl g2.arbiter_given)
              (and_then p P _ _ _ (buyer2_done p _ r2.from_buyer refl refl refl g2.buyer_given) (
                and_then p P _ _ _ (seller2_done p _ r2.from_seller refl refl refl g2.seller_given)
                  (and_then p P _ _ _
                    (arbiter3_done p _ r3.from_arbiter refl refl refl refl g3.arbiter_given)
                    (and_then p P _ _ _
                      (buyer3_done p _ r3.from_buyer refl refl refl g3.buyer_given)
                      (and_then p P _ _ _
                        (seller3_done p _ r3.from_seller refl refl refl g3.seller_given)
                        (and_then p P _ _ _
                          (deposit_done p _ address refl refl refl refl given valid)
                          (no_more p P _ h))))))))))

  -- Three rounds of non-blank information and a valid deposit address, in the order of the
  -- protocol, bring a new escrow to the ready state with that address, trimmed.
  pub setup_completes :
      (address : String)
      → IsGiven r1
      → IsGiven r2
      → IsGiven r3
      → is_empty (trim address) ≡ false
      → p (trim address) ≡ true
      → let c = run p (new_xmr id b s a amount) (setup_ops r1 r2 r3 address) in
        (c.state ≡ ready) × (c.deposit_address ≡ some (trim address))
  setup_completes address g1 g2 g3 given valid =
      setup_run (λ c. (c.state ≡ ready) × (c.deposit_address ≡ some (trim address))) address g1 g2
        g3 given valid (refl, refl)
