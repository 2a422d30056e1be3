-- ===== src/Orchestrator/TxProfile.antt =====
-- crates/nxms-escrow-orchestrator/src/tx_profile.rs: the policy on a transaction that is to be
-- signed. The errors are the source's texts without the interpolated values.
use nexum_core.Common.{
  ℕ, ◌≤◌, ◌<◌, max, String, ◌≡◌, ◌↔◌, Bool, true, false, ◌&&◌, not, List, [], ◌∷◌, ltb, ◌==◌, arith,
  length,
}
use nexum_core.Common.Text.{trim, is_empty}
use nexum_core.Common.Outcome.{Result, ok, ensure, ◌>>◌}

pub record TxDestination : Type 0 where
  pub address : String
  pub amount : ℕ

pub record TxConstructionCandidate : Type 0 where
  pub destinations : List TxDestination
  pub fee_atomic : ℕ
  pub unlock_time : ℕ
  pub tx_size_bytes : ℕ

pub record TxConstructionProfile : Type 0 where
  pub require_single_destination : Bool
  pub fee_cap_atomic : ℕ
  pub require_unlock_time_zero : Bool
  pub max_tx_size_bytes : ℕ

abbrev pub strict_defaults : ℕ → ℕ → TxConstructionProfile
strict_defaults fee_cap_atomic max_tx_size_bytes = record {
  require_single_destination = true;
  fee_cap_atomic = fee_cap_atomic;
  require_unlock_time_zero = true;
  max_tx_size_bytes = max max_tx_size_bytes 1;
}

-- `Result<()>`
abbrev pub Check : Type 0
Check = Result String (Unit {0})

unfoldable pub validate_destinations : List TxDestination → Check
validate_destinations [] = ok tt
validate_destinations (d ∷ ds) = do
  ensure (not (is_empty (trim d.address))) "destination address must not be empty"
  ensure (not (d.amount == 0)) "destination amount must be > 0"
  validate_destinations ds

unfoldable pub validate_tx_candidate : TxConstructionProfile → TxConstructionCandidate → Check
validate_tx_candidate profile candidate = do
  ensure (not (length candidate.destinations == 0)) "tx candidate has no destinations"
  ensure (not (profile.require_single_destination && not (length candidate.destinations == 1)))
      "single destination policy violation"
  validate_destinations candidate.destinations
  ensure (not (ltb profile.fee_cap_atomic candidate.fee_atomic)) "fee cap violation"
  ensure (not (profile.require_unlock_time_zero && not (candidate.unlock_time == 0)))
      "unlock_time policy violation"
  ensure (not (ltb profile.max_tx_size_bytes candidate.tx_size_bytes)) "tx size policy violation"

-- One destination, with an address and an amount.
abbrev pub IsSingle : List TxDestination → Type 0
IsSingle [] = ⊥
IsSingle (d ∷ []) = (is_empty (trim d.address) ≡ false) × (0 < d.amount)
IsSingle (d ∷ e ∷ ds) = ⊥

-- The strict policy accepts a transaction exactly when it has one destination, with an address
-- that is not blank and a positive amount, a fee and a size within the bounds, and no unlock time.
strict_exact :
    (fee_cap max_size : ℕ) (candidate : TxConstructionCandidate)
    → (validate_tx_candidate (strict_defaults fee_cap max_size) candidate ≡ ok tt) ↔ (
        IsSingle candidate.destinations
        × (candidate.fee_atomic ≤ fee_cap)
        × (candidate.unlock_time ≡ 0)
        × (candidate.tx_size_bytes ≤ max max_size 1))
unfolding validate_tx_candidate validate_destinations
strict_exact fee_cap max_size candidate = ground arith
