-- ===== src/Orchestrator/Db/Inputs.antt =====
-- crates/nxms-escrow-orchestrator/src/db.rs: the normalization of the inputs of the artifact tables.
use nexum_core.Common.{
  ℕ, ◌%◌, ltb, ◌==◌, String, str_eq, ◌≡◌, Bool, true, false, ◌||◌, not, inl, inr, arith,
  if◌then◌else◌, Bool-cases,
}
use nexum_core.Common.Text.{
  trim, len, is_empty, all_chars, is_ascii_hexdigit, to_ascii_lowercase, trim_idem,
}
use nexum_core.Common.Text.Hex.{
  IsHex, lowercase-AllLowHex, AllLowHex-digits, lowercase_low, trim_low, len-lowercase,
}
use nexum_core.Common.Outcome.{Result, ok, err, ◌>>=◌}
use nexum_core.Orchestrator.Flow.{
  WorkflowState, funded, tx_sign_pending, tx_signed_quorum, submitted,
}
use nexum_core.Orchestrator.Db.{normalize_non_empty, normalize_hex_exact}

unfoldable pub normalize_even_hex : String → String → Result String String
normalize_even_hex value label =
    let trimmed = trim value in
    if is_empty trimmed || not (len trimmed % 2 == 0) || not (all_chars is_ascii_hexdigit trimmed)
    then err label
    else ok (to_ascii_lowercase trimmed)

unfoldable pub normalize_action : String → Result String String
normalize_action value =
    let action = to_ascii_lowercase (trim value) in
    if str_eq action "release" || str_eq action "refund"
    then ok action
    else err "action must be one of: release|refund"

unfoldable pub normalize_outbox_status : String → Result String String
normalize_outbox_status value =
    let status = to_ascii_lowercase (trim value) in
    if str_eq status "pending"
      || str_eq status "sent"
      || str_eq status "acked"
      || str_eq status "dead_letter"
    then ok status
    else err "outbox status must be one of: pending|sent|acked|dead_letter"

unfoldable pub normalize_worker_role : String → Result String String
normalize_worker_role value =
    let role = to_ascii_lowercase (trim value) in
    if str_eq role "buyer" || str_eq role "seller" || str_eq role "arbiter"
    then ok role
    else err "role must be one of: buyer|seller|arbiter"

-- The `match` on the role.
unfoldable pub round_of_role : String → Result String String
round_of_role role =
    if str_eq role "arbiter"
    then ok "arbiter_first"
    else if str_eq role "seller"
    then ok "seller_second"
    else if str_eq role "buyer"
    then ok "buyer_second"
    else err "role must be one of: buyer|seller|arbiter"

unfoldable pub normalize_quorum_sign_round_for_role : String → String → Result String String
normalize_quorum_sign_round_for_role role value =
    let sign_round = to_ascii_lowercase (trim value) in
    if is_empty sign_round then err "sign_round must not be empty" else (do
      expected ← round_of_role role
      if str_eq sign_round expected then ok sign_round else err "sign_round does not match role")

unfoldable pub normalize_jti : String → String → Result String String
normalize_jti value label = do
  v ← normalize_non_empty value label
  if ltb 256 (len v) then err "too long (max 256 chars)" else ok v

abbrev pub workflow_allows_quorum_proof_state : WorkflowState → Bool
workflow_allows_quorum_proof_state funded = true
workflow_allows_quorum_proof_state tx_sign_pending = true
workflow_allows_quorum_proof_state tx_signed_quorum = true
workflow_allows_quorum_proof_state submitted = true
workflow_allows_quorum_proof_state _ = false

abbrev pub workflow_allows_submit_multisig_proof_bundle_state : WorkflowState → Bool
workflow_allows_submit_multisig_proof_bundle_state = workflow_allows_quorum_proof_state

-- A normalized hexadecimal text is one, and is its own normal form.
pub normalize_hex-IsHex :
    (value : String) (n : ℕ) (label h : String)
    → normalize_hex_exact value n label ≡ ok h
    → IsHex n h
unfolding normalize_hex_exact
normalize_hex-IsHex value n label h e =
    elim (Bool-cases (all_chars is_ascii_hexdigit (trim value))) [
      | inr bad ↦ ground arith
      | inl digits ↦
          let lowered = lowercase-AllLowHex (trim value) digits in
          let size = len-lowercase (trim value) digits in
          let same : to_ascii_lowercase (trim value) ≡ h = ground arith in
          rw (← same) (record { low = lowered; size = ground arith })
    ]

pub IsHex-normalize : (n : ℕ) (label h : String) → IsHex n h → normalize_hex_exact h n label ≡ ok h
unfolding normalize_hex_exact
IsHex-normalize n label h hex =
    rw (trim_low h hex.low)
      (rw (AllLowHex-digits h hex.low, lowercase_low h hex.low) (ground (arith, hex.size)))

-- A normalized token identifier is its own normal form.
pub normalize_jti_idem :
    (value label v : String) → normalize_jti value label ≡ ok v → normalize_jti v label ≡ ok v
unfolding normalize_jti normalize_non_empty
normalize_jti_idem value label v h =
    let same : trim value ≡ v = ground arith in rw (← same) (rw (trim_idem value) (ground arith))
