-- ===== src/Signer/Snapshot/Copies.antt =====
-- Outputs that are repeated.
use nexum_core.Common.{ℕ, zero, suc, ◌+◌, ◌*◌, ◌≡◌, subst, true, Bool, List, [], ◌∷◌, eq_iff, arith}
use nexum_core.Common.Outcome.{ok}
use nexum_core.Common.Rows.{any_row, find_row}
use nexum_core.Signer.Snapshot.{
  EscrowAction, RecipientRule, ContractSnapshot, TransferRecipient, TransferCheck, policy_of,
  is_rule_for, pays_to, validate_transfer_against_snapshot,
}
use nexum_core.Signer.Snapshot.Conformance.{Permits, Permitted, Served, total_to, validate_iff}

unfoldable pub copies : ℕ → TransferRecipient → List TransferRecipient → List TransferRecipient
copies zero r rs = rs
copies (suc n) r rs = r ∷ copies n r rs

copies-Permitted :
    (n : ℕ) (rules : List RecipientRule) (r : TransferRecipient) (rs : List TransferRecipient)
    → Permits (find_row (is_rule_for r.address) rules) r.amount
    → Permitted rules rs
    → Permitted rules (copies n r rs)
unfolding copies
copies-Permitted zero rules r rs p q = q
copies-Permitted (suc n) rules r rs p q = (p, copies-Permitted n rules r rs p q)

copies-any_row :
    (n : ℕ) (p : TransferRecipient → Bool) (r : TransferRecipient) (rs : List TransferRecipient)
    → any_row p rs ≡ true
    → any_row p (copies n r rs) ≡ true
unfolding copies any_row
copies-any_row zero p r rs h = h
copies-any_row (suc n) p r rs h = ground (arith, copies-any_row n p r rs h)

copies-Served :
    (n : ℕ) (r : TransferRecipient) (rs : List TransferRecipient) (rules : List RecipientRule)
    → Served rs rules
    → Served (copies n r rs) rules
copies-Served n r rs [] s = tt
copies-Served n r rs (rule ∷ rules) s =
    (λ q. copies-any_row n (pays_to rule.address) r rs (s.0 q), copies-Served n r rs rules s.1)

copies-total :
    (n : ℕ) (r : TransferRecipient) (rs : List TransferRecipient)
    → total_to r.address (copies n r rs) ≡ n * r.amount + total_to r.address rs
unfolding copies total_to
copies-total zero r rs = omega arith
copies-total (suc n) r rs = ground (arith, eq_iff r.address r.address, copies-total n r rs)

-- A transfer that passes the check passes it too however often its first output is repeated, and pays
-- that output's amount once more for each copy: the check does not bound the outputs to an address.
pub validate-copies :
    (snapshot : ContractSnapshot) (action : EscrowAction) (transfer : TransferCheck)
    (r : TransferRecipient) (rest : List TransferRecipient) (n : ℕ)
    → transfer.recipients ≡ r ∷ rest
    → validate_transfer_against_snapshot snapshot action transfer ≡ ok tt
    → let more = copies n r transfer.recipients in
      (validate_transfer_against_snapshot snapshot action (record transfer { recipients = more })
        ≡ ok tt)
      × (total_to r.address more ≡ n * r.amount + total_to r.address transfer.recipients)
validate-copies snapshot action transfer r rest n first v =
    let rules = (policy_of snapshot action).allowed_recipients in
    let c = (validate_iff snapshot action transfer).0 v in
    let head = (subst (Permitted rules) first c.permitted).0 in
    let repeated = record transfer { recipients = copies n r transfer.recipients } in
    (
      (validate_iff snapshot action repeated).1 (record {
        unsplit = c.unsplit;
        capped = c.capped;
        unlocked = c.unlocked;
        plain = c.plain;
        permitted = copies-Permitted n rules r transfer.recipients head c.permitted;
        served = copies-Served n r transfer.recipients rules c.served;
      }),
      copies-total n r transfer.recipients,
    )
