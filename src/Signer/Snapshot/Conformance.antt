-- ===== src/Signer/Snapshot/Conformance.antt =====
-- What a transfer that passes the check does, and what it pays.
use nexum_core.Common.{
  ℕ, ◌+◌, ◌*◌, ◌≤◌, String, ◌≡◌, ◌↔◌, true, false, Option, none, some, List, [], ◌∷◌, inl, inr,
  eq_iff, if◌then◌else◌, arith, Bool-cases, Option-cases,
}
use nexum_core.Common.Outcome.{ok}
use nexum_core.Common.Rows.{any_row, find_row, count_rows}
use nexum_core.Signer.Snapshot.{
  EscrowAction, AmountRule, exact, range, RecipientRule, PayoutPolicy, ContractSnapshot,
  TransferRecipient, TransferCheck, policy_of, is_rule_for, pays_to, check_amount, check_recipient,
  check_recipients, check_required, validate_transfer_against_snapshot,
}

abbrev pub Pays : AmountRule → ℕ → Type 0
Pays (exact amount) paid = paid ≡ amount
Pays (range least most) paid = (least ≤ paid) × (paid ≤ most)

-- The rule for the output's address is the first one.
abbrev pub Permits : Option RecipientRule → ℕ → Type 0
Permits none paid = ⊥
Permits (some rule) paid = Pays rule.amount paid

abbrev pub Permitted : List RecipientRule → List TransferRecipient → Type 0
Permitted rules [] = Unit
Permitted rules (recipient ∷ rest) =
    Permits (find_row (is_rule_for recipient.address) rules) recipient.amount × Permitted rules rest

abbrev pub Served : List TransferRecipient → List RecipientRule → Type 0
Served recipients [] = Unit
Served recipients (rule ∷ rules) =
    (rule.required ≡ true → any_row (pays_to rule.address) recipients ≡ true)
    × Served recipients rules

-- The policy as a statement.
pub record Conforms (snapshot : ContractSnapshot) (policy : PayoutPolicy) (transfer : TransferCheck)
    : Type 0 where
  pub unsplit : policy.allow_split_tx ≡ false → transfer.tx_count ≡ 1
  pub capped : transfer.fee ≤ snapshot.fee_cap_atomic
  pub unlocked : snapshot.require_unlock_time_zero ≡ true → transfer.unlock_time ≡ 0
  pub plain : policy.allow_dummy_outputs ≡ false → transfer.dummy_outputs ≡ 0
  pub permitted : Permitted policy.allowed_recipients transfer.recipients
  pub served : Served transfer.recipients policy.allowed_recipients

check_amount_iff :
    (rule : AmountRule) (paid : ℕ) → (check_amount rule paid ≡ ok tt) ↔ Pays rule paid
unfolding check_amount
check_amount_iff (exact amount) paid = ground arith
check_amount_iff (range least most) paid = ground arith

check_recipient_iff :
    (policy : PayoutPolicy) (r : TransferRecipient)
    → (check_recipient policy r ≡ ok tt)
      ↔ Permits (find_row (is_rule_for r.address) policy.allowed_recipients) r.amount
unfolding check_recipient
check_recipient_iff policy r =
    elim (Option-cases (find_row (is_rule_for r.address) policy.allowed_recipients)) [
      | inl n ↦ rw n (ground arith)
      | inr (rule, f) ↦ rw f (check_amount_iff rule.amount r.amount)
    ]

check_recipients_iff :
    (policy : PayoutPolicy) (rs : List TransferRecipient)
    → (check_recipients policy rs ≡ ok tt) ↔ Permitted policy.allowed_recipients rs
unfolding check_recipients
check_recipients_iff policy [] = ground arith
check_recipients_iff policy (r ∷ rs) =
    ground (arith, check_recipient_iff policy r, check_recipients_iff policy rs)

check_required_iff :
    (rules : List RecipientRule) (transfer : TransferCheck)
    → (check_required rules transfer ≡ ok tt) ↔ Served transfer.recipients rules
unfolding check_required
check_required_iff [] transfer = ground arith
check_required_iff (rule ∷ rules) transfer = ground (arith, check_required_iff rules transfer)

-- A transfer passes the check exactly when it conforms to the policy of the action: one transaction
-- unless it may be split, a fee under the cap, no unlock time and no dummy outputs where they are
-- not allowed, only outputs that the rule for their address permits, and every required recipient.
pub validate_iff :
    (snapshot : ContractSnapshot) (action : EscrowAction) (transfer : TransferCheck)
    → (validate_transfer_against_snapshot snapshot action transfer ≡ ok tt)
      ↔ Conforms snapshot (policy_of snapshot action) transfer
unfolding validate_transfer_against_snapshot
validate_iff snapshot action transfer = ground (
  arith,
  check_recipients_iff (policy_of snapshot action) transfer.recipients,
  check_required_iff (policy_of snapshot action).allowed_recipients transfer,
)

unfoldable pub total_to : String → List TransferRecipient → ℕ
total_to address [] = 0
total_to address (r ∷ rs) =
    let rest = total_to address rs in if pays_to address r then r.amount + rest else rest

-- An output to the address of an exact rule has the amount of the rule.
exact-Permits :
    (address : String) (rule : RecipientRule) (amount : ℕ) (rules : List RecipientRule)
    (r : TransferRecipient)
    → find_row (is_rule_for address) rules ≡ some rule
    → rule.amount ≡ exact amount
    → pays_to address r ≡ true
    → Permits (find_row (is_rule_for r.address) rules) r.amount
    → r.amount ≡ amount
exact-Permits address rule amount rules r f e s p = ground (arith, eq_iff r.address address)

total-Permitted :
    (address : String) (rule : RecipientRule) (amount : ℕ) (rules : List RecipientRule)
    (rs : List TransferRecipient)
    → find_row (is_rule_for address) rules ≡ some rule
    → rule.amount ≡ exact amount
    → Permitted rules rs
    → total_to address rs ≡ count_rows (pays_to address) rs * amount
unfolding total_to count_rows
total-Permitted address rule amount rules [] f e p = omega arith
total-Permitted address rule amount rules (r ∷ rs) f e p =
    let rest = total-Permitted address rule amount rules rs f e p.1 in
    elim (Bool-cases (pays_to address r)) [
      | inl s ↦
          rw s (rw (exact-Permits address rule amount rules r f e s p.0) (rw rest (omega arith)))
      | inr s ↦ rw s rest
    ]

-- A transfer that passes the check pays to an address with an exact rule that amount once for each of
-- its outputs to the address.
validate-total :
    (snapshot : ContractSnapshot) (action : EscrowAction) (transfer : TransferCheck)
    (address : String) (rule : RecipientRule) (amount : ℕ)
    → validate_transfer_against_snapshot snapshot action transfer ≡ ok tt
    → find_row (is_rule_for address) (policy_of snapshot action).allowed_recipients ≡ some rule
    → rule.amount ≡ exact amount
    → total_to address transfer.recipients
      ≡ count_rows (pays_to address) transfer.recipients * amount
validate-total snapshot action transfer address rule amount v f e =
    total-Permitted address rule amount (policy_of snapshot action).allowed_recipients
      transfer.recipients f e ((validate_iff snapshot action transfer).0 v).permitted
