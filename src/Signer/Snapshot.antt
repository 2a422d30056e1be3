-- ===== src/Signer/Snapshot.antt =====
-- crates/nxms-signer/src/snapshot.rs: the contract's policy, and the check of a transfer against it.
pub mod Conformance
pub mod Copies
use nexum_core.Common.{
  ℕ, ltb, ◌==◌, String, str_eq, Bool, true, false, ◌&&◌, ◌||◌, not, Option, none, some, List, [],
  ◌∷◌,
}
use nexum_core.Transport.Admission.{EscrowAction, release, refund}
use nexum_core.Common.Outcome.{Result, ok, err, ensure, ok_or, ◌>>=◌, ◌>>◌}
use nexum_core.Common.Rows.{any_row, find_row}

pub data AmountRule : Type 0 where
  exact : ℕ → AmountRule
  range : ℕ → ℕ → AmountRule

pub record RecipientRule : Type 0 where
  pub address : String
  pub amount : AmountRule
  pub required : Bool

pub record PayoutPolicy : Type 0 where
  pub allowed_recipients : List RecipientRule
  pub allow_split_tx : Bool
  pub allow_dummy_outputs : Bool

-- `asset` has one value.
pub record ContractSnapshot : Type 0 where
  pub app_proto : String
  pub escrow_id_hex : String
  pub buyer_id : String
  pub seller_id : String
  pub arbiter_id : String
  pub release_policy : PayoutPolicy
  pub refund_policy : PayoutPolicy
  pub fee_cap_atomic : ℕ
  pub require_unlock_time_zero : Bool
  pub created_at_unix_ms : ℕ
  pub updated_at_unix_ms : ℕ

pub record TransferRecipient : Type 0 where
  pub address : String
  pub amount : ℕ

-- What a wallet says of a set of transactions.
pub record TransferCheck : Type 0 where
  pub tx_count : ℕ
  pub recipients : List TransferRecipient
  pub fee : ℕ
  pub unlock_time : ℕ
  pub dummy_outputs : ℕ

abbrev pub policy_of : ContractSnapshot → EscrowAction → PayoutPolicy
policy_of snapshot release = snapshot.release_policy
policy_of snapshot refund = snapshot.refund_policy

abbrev pub is_rule_for : String → RecipientRule → Bool
is_rule_for address rule = str_eq rule.address address

abbrev pub pays_to : String → TransferRecipient → Bool
pays_to address recipient = str_eq recipient.address address

unfoldable pub check_amount : AmountRule → ℕ → Result String (Unit {0})
check_amount (exact amount) paid = ensure (paid == amount) "amount mismatch"
check_amount (range least most) paid =
    ensure (not (ltb paid least || ltb most paid)) "amount out of range"

unfoldable pub check_recipient : PayoutPolicy → TransferRecipient → Result String (Unit {0})
check_recipient policy recipient = do
  rule ←
      ok_or (find_row (is_rule_for recipient.address) policy.allowed_recipients)
        "recipient is not in allowed policy"
  check_amount rule.amount recipient.amount

unfoldable pub check_recipients : PayoutPolicy → List TransferRecipient → Result String (Unit {0})
check_recipients policy [] = ok tt
check_recipients policy (recipient ∷ rest) = do
  check_recipient policy recipient
  check_recipients policy rest

unfoldable pub check_required : List RecipientRule → TransferCheck → Result String (Unit {0})
check_required [] transfer = ok tt
check_required (rule ∷ rules) transfer = do
  ensure (not rule.required || any_row (pays_to rule.address) transfer.recipients)
      "required recipient missing from tx"
  check_required rules transfer

unfoldable pub validate_transfer_against_snapshot :
    ContractSnapshot → EscrowAction → TransferCheck → Result String (Unit {0})
validate_transfer_against_snapshot snapshot action transfer = do
  let policy = policy_of snapshot action
  ensure (policy.allow_split_tx || transfer.tx_count == 1) "split policy violation"
  ensure (not (ltb snapshot.fee_cap_atomic transfer.fee)) "fee cap violation"
  ensure (not snapshot.require_unlock_time_zero || transfer.unlock_time == 0)
      "unlock_time policy violation"
  ensure (policy.allow_dummy_outputs || not (ltb 0 transfer.dummy_outputs))
      "dummy_outputs policy violation"
  check_recipients policy transfer.recipients
  check_required policy.allowed_recipients transfer
