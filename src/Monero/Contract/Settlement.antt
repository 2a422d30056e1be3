-- ===== src/Monero/Contract/Settlement.antt =====
-- Funding, disputes, release and refund of `EscrowContract`
-- (crates/nxms-monero-core/src/multisig/state.rs).
use nexum_core.Common.{
  ℕ, String, Bool, true, not, Option, none, some, [], ◌∷◌, leb, ltb, str_eq, if◌then◌else◌,
}
use nexum_core.Common.Int.{ℤ, is_positive}
use nexum_core.Common.Method.{this, put, pure, lift, require, ◌>>=◌, ◌>>◌}
use nexum_core.Monero.Types.{
  EscrowState, ready, funded, released, refunded, dispute, state_eq, EscrowParticipant,
  participant_eq, invalid_argument, conflict, insufficient_balance,
}
use nexum_core.Monero.Slots.{ensure_state_in, set_once, validate_txid, normalize_dispute_reason}
use nexum_core.Monero.Contract.{
  ParticipantSet, insert, count, EscrowContract, EscrowTransition, ContractMethod,
}

unfoldable pub mark_funded : ℕ → ContractMethod EscrowTransition
mark_funded unlocked_balance = do
  c ← this
  lift (ensure_state_in c.state (ready ∷ []) "mark_funded")
  require (not (ltb unlocked_balance c.amount_atomic))
      (insufficient_balance unlocked_balance c.amount_atomic)
  put (record c { state = funded })
  pure (record { from = c.state; to = funded; action = "funded" })

-- `if let Some(existing) = self.dispute_opened_by … else …`
claim_dispute : EscrowParticipant → Option EscrowParticipant → ContractMethod Unit
claim_dispute who none = do c ← this; put (record c { dispute_opened_by = some who })
claim_dispute who (some existing) =
    require (participant_eq existing who)
      (conflict "dispute already opened by a different participant")

-- `if let Some(incoming_reason) = normalized_reason …`
store_reason : Option String → Option String → ContractMethod Unit
store_reason none current = pure tt
store_reason (some incoming_reason) none = do
  c ← this
  put (record c { dispute_reason = some incoming_reason })
store_reason (some incoming_reason) (some current) =
    require (str_eq current incoming_reason)
      (conflict "dispute reason already set to a different value")

abbrev pub opened_at : Option ℤ → ℤ → Option ℤ
opened_at none now = some now
opened_at (some ts) now = some ts

-- `now` is the system clock's answer, `now_ts()`.
unfoldable pub open_dispute :
    ℤ → EscrowParticipant → Option String → ContractMethod EscrowTransition
unfolding claim_dispute store_reason
open_dispute now who reason = do
  c ← this
  lift (ensure_state_in c.state (ready ∷ funded ∷ dispute ∷ []) "open_dispute")
  normalized_reason ← lift (normalize_dispute_reason reason)
  claim_dispute who c.dispute_opened_by
  store_reason normalized_reason c.dispute_reason
  stored ← this
  put (record stored {
    dispute_opened_at = opened_at stored.dispute_opened_at now;
    state = dispute;
  })
  pure (record { from = c.state; to = dispute; action = "dispute" })

-- `if let Some(v) = txid { validate_txid(&v)?; set_once(&mut self.release_txid, …)?; }`
store_release_txid : Option String → ContractMethod Unit
store_release_txid none = pure tt
store_release_txid (some v) = do
  lift (validate_txid v)
  c ← this
  slot ← lift (set_once c.release_txid v true "release_txid")
  put (record c { release_txid = slot })

store_refund_txid : Option String → ContractMethod Unit
store_refund_txid none = pure tt
store_refund_txid (some v) = do
  lift (validate_txid v)
  c ← this
  slot ← lift (set_once c.refund_txid v true "refund_txid")
  put (record c { refund_txid = slot })

abbrev pub state_after : ParticipantSet → EscrowState → EscrowState → EscrowState
state_after confirmations settled current = if leb 2 (count confirmations) then settled else current

-- The vote is counted, and the second vote settles the contract.
unfoldable pub count_release : EscrowParticipant → EscrowContract → EscrowContract
count_release who c =
    let confirmations = insert who c.release_confirmations in
    record c {
      release_confirmations = confirmations;
      state = state_after confirmations released c.state;
    }

unfoldable pub count_refund : EscrowParticipant → EscrowContract → EscrowContract
count_refund who c =
    let confirmations = insert who c.refund_confirmations in
    record c {
      refund_confirmations = confirmations;
      state = state_after confirmations refunded c.state;
    }

unfoldable pub confirm_release :
    EscrowParticipant → Option String → ContractMethod (EscrowTransition × ℕ)
unfolding store_release_txid
confirm_release who txid = do
  c ← this
  require (not (state_eq c.state refunded)) (invalid_argument "escrow already refunded")
  lift (ensure_state_in c.state (funded ∷ dispute ∷ released ∷ []) "confirm_release")
  store_release_txid txid
  stored ← this
  let counted = count_release who stored
  put counted
  pure (
    record { from = c.state; to = counted.state; action = "release_confirm" },
    count counted.release_confirmations,
  )

unfoldable pub confirm_refund :
    EscrowParticipant → Option String → ContractMethod (EscrowTransition × ℕ)
unfolding store_refund_txid
confirm_refund who txid = do
  c ← this
  require (not (state_eq c.state released)) (invalid_argument "escrow already released")
  lift (ensure_state_in c.state (funded ∷ dispute ∷ refunded ∷ []) "confirm_refund")
  store_refund_txid txid
  stored ← this
  let counted = count_refund who stored
  put counted
  pure (
    record { from = c.state; to = counted.state; action = "refund_confirm" },
    count counted.refund_confirmations,
  )

abbrev timestamp_ok : Option ℤ → Bool
timestamp_ok none = true
timestamp_ok (some ts) = is_positive ts

-- The opener is written before the reason is checked, and the time after it.
unfoldable pub import_dispute_snapshot :
    Option EscrowParticipant → Option String → Option ℤ → ContractMethod Unit
import_dispute_snapshot opened_by reason opened_at' = do
  require (timestamp_ok opened_at') (invalid_argument "dispute_opened_at must be > 0")
  c ← this
  put (record c { dispute_opened_by = opened_by })
  normalized ← lift (normalize_dispute_reason reason)
  put (record c {
    dispute_opened_by = opened_by;
    dispute_reason = normalized;
    dispute_opened_at = opened_at';
  })

abbrev pub participants : Bool → Bool → Bool → ParticipantSet
participants b s a = record { has_buyer = b; has_seller = s; has_arbiter = a }

import_release_txid : Option String → ContractMethod Unit
import_release_txid none = do c ← this; put (record c { release_txid = none })
import_release_txid (some v) = do
  lift (validate_txid v)
  c ← this
  put (record c { release_txid = some v })

unfoldable pub import_release_snapshot : Bool → Bool → Bool → Option String → ContractMethod Unit
unfolding import_release_txid
import_release_snapshot b s a txid = do
  c ← this
  put (record c { release_confirmations = participants b s a })
  import_release_txid txid

import_refund_txid : Option String → ContractMethod Unit
import_refund_txid none = do c ← this; put (record c { refund_txid = none })
import_refund_txid (some v) = do
  lift (validate_txid v)
  c ← this
  put (record c { refund_txid = some v })

unfoldable pub import_refund_snapshot : Bool → Bool → Bool → Option String → ContractMethod Unit
unfolding import_refund_txid
import_refund_snapshot b s a txid = do
  c ← this
  put (record c { refund_confirmations = participants b s a })
  import_refund_txid txid
