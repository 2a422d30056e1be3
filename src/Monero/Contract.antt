-- ===== src/Monero/Contract.antt =====
-- `EscrowContract` of crates/nxms-monero-core/src/multisig/state.rs: its fields, its constructor
-- and its read-only views. The two `HashSet<EscrowParticipant>` are `ParticipantSet`s.
pub mod Rounds
pub mod Settlement
pub mod Ops
mod Cases
mod Steps
pub mod Invariant
pub mod Slots
pub mod Setup
pub mod Progress
use nexum_core.Common.{ℕ, ◌+◌, String, Bool, true, false, Option, none, if◌then◌else◌}
use nexum_core.Common.Int.{ℤ}
use nexum_core.Common.Method.{Method}
use nexum_core.Monero.Types.{
  EscrowState, new, Asset, xmr, EscrowParticipant, buyer, seller, arbiter, MoneroArbitraError,
}

pub record ParticipantSet : Type 0 where
  pub has_buyer : Bool
  pub has_seller : Bool
  pub has_arbiter : Bool

abbrev pub no_participants : ParticipantSet
no_participants = record { has_buyer = false; has_seller = false; has_arbiter = false }

-- `HashSet::insert`
abbrev pub insert : EscrowParticipant → ParticipantSet → ParticipantSet
insert buyer s = record s { has_buyer = true }
insert seller s = record s { has_seller = true }
insert arbiter s = record s { has_arbiter = true }

-- `HashSet::contains`
abbrev pub contains : ParticipantSet → EscrowParticipant → Bool
contains s buyer = s.has_buyer
contains s seller = s.has_seller
contains s arbiter = s.has_arbiter

abbrev one_if : Bool → ℕ
one_if b = if b then 1 else 0

-- `HashSet::len`
abbrev pub count : ParticipantSet → ℕ
count s = one_if s.has_buyer + one_if s.has_seller + one_if s.has_arbiter

pub record EscrowTransition : Type 0 where
  pub from : EscrowState
  pub to : EscrowState
  pub action : String

pub record EscrowContract : Type 0 where
  pub id : ℕ
  pub asset : Asset
  pub state : EscrowState
  pub buyer_nick : String
  pub seller_nick : String
  pub arbiter_nick : String
  pub amount_atomic : ℕ
  pub memo : Option String
  pub refund_address_buyer : Option String
  pub refund_address_seller : Option String
  pub xmr_r1_buyer : Option String
  pub xmr_r1_seller : Option String
  pub xmr_r1_arbiter : Option String
  pub xmr_r2_buyer : Option String
  pub xmr_r2_seller : Option String
  pub xmr_r2_arbiter : Option String
  pub xmr_r3_buyer : Option String
  pub xmr_r3_seller : Option String
  pub xmr_r3_arbiter : Option String
  pub deposit_address : Option String
  pub release_txid : Option String
  pub refund_txid : Option String
  pub dispute_opened_by : Option EscrowParticipant
  pub dispute_reason : Option String
  pub dispute_opened_at : Option ℤ
  pub release_confirmations : ParticipantSet
  pub refund_confirmations : ParticipantSet

abbrev pub ContractMethod : Type 0 → Type 0
ContractMethod A = Method EscrowContract MoneroArbitraError A

unfoldable pub new_xmr : ℕ → String → String → String → ℕ → EscrowContract
new_xmr id buyer_nick seller_nick arbiter_nick amount_atomic = record {
  id = id;
  asset = xmr;
  state = new;
  buyer_nick = buyer_nick;
  seller_nick = seller_nick;
  arbiter_nick = arbiter_nick;
  amount_atomic = amount_atomic;
  memo = none;
  refund_address_buyer = none;
  refund_address_seller = none;
  xmr_r1_buyer = none;
  xmr_r1_seller = none;
  xmr_r1_arbiter = none;
  xmr_r2_buyer = none;
  xmr_r2_seller = none;
  xmr_r2_arbiter = none;
  xmr_r3_buyer = none;
  xmr_r3_seller = none;
  xmr_r3_arbiter = none;
  deposit_address = none;
  release_txid = none;
  refund_txid = none;
  dispute_opened_by = none;
  dispute_reason = none;
  dispute_opened_at = none;
  release_confirmations = no_participants;
  refund_confirmations = no_participants;
}

unfoldable pub dispute_snapshot :
    EscrowContract → Option EscrowParticipant × Option String × Option ℤ
dispute_snapshot c = (c.dispute_opened_by, c.dispute_reason, c.dispute_opened_at)

unfoldable pub release_snapshot : EscrowContract → Bool × Bool × Bool × Option String
release_snapshot c = (
  contains c.release_confirmations buyer,
  contains c.release_confirmations seller,
  contains c.release_confirmations arbiter,
  c.release_txid,
)

unfoldable pub refund_snapshot : EscrowContract → Bool × Bool × Bool × Option String
refund_snapshot c = (
  contains c.refund_confirmations buyer,
  contains c.refund_confirmations seller,
  contains c.refund_confirmations arbiter,
  c.refund_txid,
)

pub record EscrowReport : Type 0 where
  pub id : ℕ
  pub state : EscrowState
  pub release_confirmations : ℕ
  pub refund_confirmations : ℕ
  pub deposit_address : Option String
  pub release_txid : Option String
  pub refund_txid : Option String
  pub dispute_opened_by : Option EscrowParticipant
  pub dispute_reason : Option String
  pub dispute_opened_at : Option ℤ

unfoldable pub report : EscrowContract → EscrowReport
report c = record {
  id = c.id;
  state = c.state;
  release_confirmations = count c.release_confirmations;
  refund_confirmations = count c.refund_confirmations;
  deposit_address = c.deposit_address;
  release_txid = c.release_txid;
  refund_txid = c.refund_txid;
  dispute_opened_by = c.dispute_opened_by;
  dispute_reason = c.dispute_reason;
  dispute_opened_at = c.dispute_opened_at;
}
