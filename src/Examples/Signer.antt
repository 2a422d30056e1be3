-- ===== src/Examples/Signer.antt =====
-- The theorems on the signer's database, tokens and snapshots at concrete inputs.
use nexum_core.Common.{
  ◌+◌, ◌≤◌, ◌*◌, max, String, ◌≡◌, refl, true, false, List, [], ◌∷◌, length, arith, ◌↔◌,
}
use nexum_core.Common.Outcome.{ok}
use nexum_core.Common.Rows.{find_row, any_row, count_rows}
use nexum_core.Signer.Db.{SignerDb, SnapshotSigRow}
use nexum_core.Signer.Db.Sequence.Refinement.{Message, run, spec_run, view, run_refines}
use nexum_core.Signer.Db.Snapshots.Quorum.{
  Request, propose, sign, activate, IsSound, serve, serve-IsSound,
}
use nexum_core.Transport.Admission.{release}
use nexum_core.Signer.Snapshot.{
  exact, RecipientRule, PayoutPolicy, ContractSnapshot, TransferRecipient, TransferCheck, policy_of,
  check_recipients, check_recipient, check_amount, check_required,
  validate_transfer_against_snapshot,
}
use nexum_core.Signer.Snapshot.Conformance.{Conforms, total_to, validate_iff}
use nexum_core.Signer.Snapshot.Copies.{copies, validate-copies}
use nexum_core.Signer.VerifyLimiter.{new_limits, present_all, keys_bounded}

abbrev empty_db : SignerDb
empty_db = record {
  incoming_seen = [];
  out_seq = [];
  snapshots = [];
  snapshot_sigs = [];
  sign_request_dedup = [];
  sign_request_result = [];
  consumed_action_jti = [];
  sign_events = [];
  escrow_admission_artifacts = [];
}

abbrev messages : List Message
messages =
    record { escrow = "e"; sender = "bob"; seq = 1 }
    ∷ record { escrow = "e"; sender = "bob"; seq = 3 }
    ∷ record { escrow = "e"; sender = "bob"; seq = 3 }
    ∷ record { escrow = "e"; sender = "eve"; seq = 2 }
    ∷ []

run_refines_example :
    ((run 5 empty_db messages).0 ≡ (spec_run (view empty_db) messages).0)
    × (view (run 5 empty_db messages).1 ≡ (spec_run (view empty_db) messages).1)
run_refines_example = run_refines 5 empty_db messages

abbrev signature : String → SnapshotSigRow
signature signer = record {
  signer_id = signer;
  sig_pk_b64 = "pk";
  sig_b64 = "sig";
  hash_hex = "h";
  alg = "Falcon-1024-CT";
  created_at_unix_ms = 2;
}

abbrev snapshot_requests : List Request
snapshot_requests =
    propose 1 "e" "h" "{}"
    ∷ sign (signature "bob")
    ∷ activate "h"
    ∷ sign (signature "eve")
    ∷ activate "h"
    ∷ []

empty-IsSound : IsSound 2 empty_db
unfolding count_rows
empty-IsSound = record {
  keyed = λ _. omega arith;
  single = λ _. omega arith;
  backed = tt;
  distinct = λ _ _. omega arith;
}

serve-IsSound_example : IsSound 2 (serve 2 empty_db snapshot_requests)
serve-IsSound_example = serve-IsSound 2 empty_db snapshot_requests empty-IsSound

abbrev rule : RecipientRule
rule = record { address = "seller_address"; amount = exact 100; required = true }

abbrev policy : PayoutPolicy
policy = record {
  allowed_recipients = rule ∷ [];
  allow_split_tx = false;
  allow_dummy_outputs = false;
}

abbrev snapshot : ContractSnapshot
snapshot = record {
  app_proto = "ESCROW/1";
  escrow_id_hex = "e";
  buyer_id = "buyer";
  seller_id = "seller";
  arbiter_id = "arbiter";
  release_policy = policy;
  refund_policy = policy;
  fee_cap_atomic = 10;
  require_unlock_time_zero = true;
  created_at_unix_ms = 1;
  updated_at_unix_ms = 1;
}

-- Two outputs to the same address.
abbrev transfer : TransferCheck
transfer = record {
  tx_count = 1;
  recipients =
      record { address = "seller_address"; amount = 100 }
      ∷ record { address = "seller_address"; amount = 100 }
      ∷ [];
  fee = 7;
  unlock_time = 0;
  dummy_outputs = 0;
}

validate_iff_example :
    (validate_transfer_against_snapshot snapshot release transfer ≡ ok tt)
    ↔ Conforms snapshot (policy_of snapshot release) transfer
validate_iff_example = validate_iff snapshot release transfer

transfer_accepted : validate_transfer_against_snapshot snapshot release transfer ≡ ok tt
unfolding validate_transfer_against_snapshot check_recipients check_recipient check_amount
    check_required find_row any_row
transfer_accepted = refl

abbrev payment : TransferRecipient
payment = record { address = "seller_address"; amount = 100 }

-- Three more outputs of 100 to the seller.
validate-copies_example :
    let more = copies 3 payment transfer.recipients in
    (validate_transfer_against_snapshot snapshot release (record transfer { recipients = more })
      ≡ ok tt)
    × (total_to "seller_address" more ≡ 3 * 100 + total_to "seller_address" transfer.recipients)
validate-copies_example =
    validate-copies snapshot release transfer payment (payment ∷ []) 3 refl transfer_accepted

keys_bounded_example :
    length (present_all (new_limits 30 60 1) (("a", 1) ∷ ("b", 2) ∷ ("a", 100) ∷ []) []) ≤ max 1 64
keys_bounded_example = keys_bounded 30 60 1 (("a", 1) ∷ ("b", 2) ∷ ("a", 100) ∷ []) [] (omega arith)
