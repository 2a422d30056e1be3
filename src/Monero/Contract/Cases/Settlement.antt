-- ===== src/Monero/Contract/Cases/Settlement.antt =====
-- The cases of funding, dispute, release and refund.
use nexum_core.Common.{ℕ, String, Bool, Option, none, some, [], ◌∷◌, arith}
use nexum_core.Common.Int.{ℤ}
use nexum_core.Common.Outcome.{Result-cases}
use nexum_core.Monero.Types.{ready, funded, released, refunded, dispute, EscrowParticipant}
use nexum_core.Monero.Slots.{
  ensure_state_in-eq-ok, set_once_cases, validate_txid_cases, normalize_dispute_reason,
}
use nexum_core.Monero.Contract.{EscrowContract}
use nexum_core.Monero.Contract.Settlement.{
  mark_funded, open_dispute, confirm_release, confirm_refund,
}
use nexum_core.Monero.Contract.Ops.{fund, disputed, release, refund}
use nexum_core.Monero.Contract.Cases.{Ends}

module _ (p : String → Bool) (c : EscrowContract) where
  pub mark_funded-Ends : (balance : ℕ) → Ends p c (fund balance) (mark_funded balance c).1
  unfolding mark_funded
  mark_funded-Ends balance =
      ground (arith, ensure_state_in-eq-ok c.state (ready ∷ []) "mark_funded")

  pub confirm_release-Ends :
      (who : EscrowParticipant) (txid : Option String)
      → Ends p c (release who txid) (confirm_release who txid c).1
  unfolding confirm_release
  confirm_release-Ends who none =
      ground
        (arith, ensure_state_in-eq-ok c.state (funded ∷ dispute ∷ released ∷ []) "confirm_release")
  confirm_release-Ends who (some v) = ground (
    arith,
    ensure_state_in-eq-ok c.state (funded ∷ dispute ∷ released ∷ []) "confirm_release",
    validate_txid_cases v,
    set_once_cases c.release_txid v "release_txid",
  )

  pub confirm_refund-Ends :
      (who : EscrowParticipant) (txid : Option String)
      → Ends p c (refund who txid) (confirm_refund who txid c).1
  unfolding confirm_refund
  confirm_refund-Ends who none =
      ground
        (arith, ensure_state_in-eq-ok c.state (funded ∷ dispute ∷ refunded ∷ []) "confirm_refund")
  confirm_refund-Ends who (some v) = ground (
    arith,
    ensure_state_in-eq-ok c.state (funded ∷ dispute ∷ refunded ∷ []) "confirm_refund",
    validate_txid_cases v,
    set_once_cases c.refund_txid v "refund_txid",
  )

  pub open_dispute-Ends :
      (now : ℤ) (who : EscrowParticipant) (reason : Option String)
      → Ends p c (disputed now who reason) (open_dispute now who reason c).1
  unfolding open_dispute
  open_dispute-Ends now who reason = ground (
    arith,
    ensure_state_in-eq-ok c.state (ready ∷ funded ∷ dispute ∷ []) "open_dispute",
    Result-cases (normalize_dispute_reason reason),
  )
