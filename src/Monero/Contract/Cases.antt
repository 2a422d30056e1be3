-- ===== src/Monero/Contract/Cases.antt =====
-- The contracts in which each operation of `EscrowContract` may end, and what it has tested by
-- then. The proofs about runs split on these, with the operations shut.
pub mod Rounds
pub mod Settlement
use nexum_core.Common.{String, ◌≡◌, ◌⊎◌, Bool, true, false, Option, none, some, List, [], ◌∷◌, ltb}
use nexum_core.Common.Int.{ℤ}
use nexum_core.Common.Outcome.{ok}
use nexum_core.Common.Text.{trim}
use nexum_core.Monero.Types.{
  EscrowState, new, xmr_msig_r1, xmr_msig_r2, xmr_msig_r3, ready, funded, released, refunded,
  dispute, EscrowParticipant, buyer, seller, arbiter,
}
use nexum_core.Monero.Slots.{contains_state, IsFresh, is_txid, normalize_dispute_reason}
use nexum_core.Monero.Contract.{EscrowContract}
use nexum_core.Monero.Contract.Rounds.{round1_complete, round2_complete, round3_complete}
use nexum_core.Monero.Contract.Settlement.{opened_at, count_release, count_refund}
use nexum_core.Monero.Contract.Ops.{
  Op, arbiter1, round1, arbiter2, round2, arbiter3, round3, deposit, fund, disputed, release,
  refund,
}

abbrev pub InOneOf : EscrowContract → List EscrowState → Type 0
InOneOf c allowed = contains_state allowed c.state ≡ true

-- The slot that a participant fills in a round, and the contract with the slot filled.
abbrev pub put_round1 : EscrowParticipant → String → EscrowContract → EscrowContract
put_round1 buyer v c = record c { xmr_r1_buyer = some v }
put_round1 seller v c = record c { xmr_r1_seller = some v }
put_round1 arbiter v c = c

abbrev pub put_refund : EscrowParticipant → String → EscrowContract → EscrowContract
put_refund buyer addr c = record c { refund_address_buyer = some addr }
put_refund seller addr c = record c { refund_address_seller = some addr }
put_refund arbiter addr c = c

abbrev pub put_round2 : EscrowParticipant → String → EscrowContract → EscrowContract
put_round2 buyer v c = record c { xmr_r2_buyer = some v }
put_round2 seller v c = record c { xmr_r2_seller = some v }
put_round2 arbiter v c = c

abbrev pub put_round3 : EscrowParticipant → String → EscrowContract → EscrowContract
put_round3 buyer v c = record c { xmr_r3_buyer = some v }
put_round3 seller v c = record c { xmr_r3_seller = some v }
put_round3 arbiter v c = c

abbrev pub round1_slot : EscrowParticipant → EscrowContract → Option String
round1_slot buyer c = c.xmr_r1_buyer
round1_slot seller c = c.xmr_r1_seller
round1_slot arbiter c = c.xmr_r1_arbiter

abbrev pub refund_slot : EscrowParticipant → EscrowContract → Option String
refund_slot buyer c = c.refund_address_buyer
refund_slot seller c = c.refund_address_seller
refund_slot arbiter c = none

abbrev pub round2_slot : EscrowParticipant → EscrowContract → Option String
round2_slot buyer c = c.xmr_r2_buyer
round2_slot seller c = c.xmr_r2_seller
round2_slot arbiter c = c.xmr_r2_arbiter

abbrev pub round3_slot : EscrowParticipant → EscrowContract → Option String
round3_slot buyer c = c.xmr_r3_buyer
round3_slot seller c = c.xmr_r3_seller
round3_slot arbiter c = c.xmr_r3_arbiter

-- What is known of the transaction id of a confirmation that went through, and the contract with
-- the id stored.
abbrev pub IsAcceptable : Option String → Option String → Type 0
IsAcceptable slot none = Unit
IsAcceptable slot (some v) = (is_txid v ≡ true) × IsFresh slot v

abbrev pub with_release_txid : Option String → EscrowContract → EscrowContract
with_release_txid none c = c
with_release_txid (some v) c = record c { release_txid = some v }

abbrev pub with_refund_txid : Option String → EscrowContract → EscrowContract
with_refund_txid none c = c
with_refund_txid (some v) c = record c { refund_txid = some v }

abbrev pub IsFree : EscrowParticipant → Option EscrowParticipant → Type 0
IsFree who opener = (opener ≡ none) ⊎ (opener ≡ some who)

-- The reason that stands after a dispute: the first one that was given.
abbrev pub merged : Option String → Option String → Option String
merged incoming none = incoming
merged incoming (some current) = some current

abbrev pub disputed_contract :
    ℤ → EscrowParticipant → Option String → EscrowContract → EscrowContract
disputed_contract now who reason c = record c {
  dispute_opened_by = some who;
  dispute_reason = merged reason c.dispute_reason;
  dispute_opened_at = opened_at c.dispute_opened_at now;
  state = dispute;
}

-- What an operation may leave behind: the contract as it was, or changed as the operation says,
-- under what it has tested by then. Two operations can fail half-way: `round1` with the information
-- stored and the refund address refused, `disputed` with the opener stored and the reason refused.
abbrev pub Ends : (String → Bool) → EscrowContract → Op → EscrowContract → Type 0
Ends p c (arbiter1 info) c' =
    (c' ≡ c)
    ⊎ (InOneOf c (new ∷ xmr_msig_r1 ∷ [])
        × IsFresh c.xmr_r1_arbiter info
        × (c' ≡ record c { xmr_r1_arbiter = some info; state = xmr_msig_r1 }))
Ends p c (round1 who info addr) c' =
    (c' ≡ c)
    ⊎ (InOneOf c (new ∷ xmr_msig_r1 ∷ [])
        × IsFresh (round1_slot who c) info
        × (c' ≡ put_round1 who info c))
    ⊎ (InOneOf c (new ∷ xmr_msig_r1 ∷ [])
        × IsFresh (round1_slot who c) info
        × (c' ≡ record (put_round1 who info c) { state = xmr_msig_r1 }))
    ⊎ ((a : String) × InOneOf c (new ∷ xmr_msig_r1 ∷ [])
        × IsFresh (round1_slot who c) info
        × IsFresh (refund_slot who c) a
        × (p a ≡ true)
        × (c' ≡ record (put_refund who a (put_round1 who info c)) { state = xmr_msig_r1 }))
Ends p c (arbiter2 info) c' =
    (c' ≡ c)
    ⊎ (InOneOf c (xmr_msig_r1 ∷ xmr_msig_r2 ∷ [])
        × (round1_complete c ≡ true)
        × IsFresh c.xmr_r2_arbiter info
        × (c' ≡ record c { xmr_r2_arbiter = some info; state = xmr_msig_r2 }))
Ends p c (round2 who info) c' =
    (c' ≡ c)
    ⊎ (InOneOf c (xmr_msig_r2 ∷ [])
        × IsFresh (round2_slot who c) info
        × (c' ≡ put_round2 who info c))
Ends p c (arbiter3 info) c' =
    (c' ≡ c)
    ⊎ (InOneOf c (xmr_msig_r2 ∷ xmr_msig_r3 ∷ [])
        × (round2_complete c ≡ true)
        × IsFresh c.xmr_r3_arbiter info
        × (c' ≡ record c { xmr_r3_arbiter = some info; state = xmr_msig_r3 }))
Ends p c (round3 who info) c' =
    (c' ≡ c)
    ⊎ (InOneOf c (xmr_msig_r3 ∷ [])
        × IsFresh (round3_slot who c) info
        × (c' ≡ put_round3 who info c))
Ends p c (deposit address) c' =
    (c' ≡ c)
    ⊎ (InOneOf c (xmr_msig_r3 ∷ ready ∷ [])
        × (round3_complete c ≡ true)
        × (p (trim address) ≡ true)
        × IsFresh c.deposit_address (trim address)
        × (c' ≡ record c { deposit_address = some (trim address); state = ready }))
Ends p c (fund balance) c' =
    (c' ≡ c)
    ⊎ (InOneOf c (ready ∷ [])
        × (ltb balance c.amount_atomic ≡ false)
        × (c' ≡ record c { state = funded }))
Ends p c (disputed now who reason) c' =
    (c' ≡ c)
    ⊎ (InOneOf c (ready ∷ funded ∷ dispute ∷ [])
        × IsFree who c.dispute_opened_by
        × (c' ≡ record c { dispute_opened_by = some who }))
    ⊎ ((o : Option String) × InOneOf c (ready ∷ funded ∷ dispute ∷ [])
        × IsFree who c.dispute_opened_by
        × (normalize_dispute_reason reason ≡ ok o)
        × (c' ≡ disputed_contract now who o c))
Ends p c (release who txid) c' =
    (c' ≡ c)
    ⊎ (InOneOf c (funded ∷ dispute ∷ released ∷ [])
        × IsAcceptable c.release_txid txid
        × (c' ≡ count_release who (with_release_txid txid c)))
Ends p c (refund who txid) c' =
    (c' ≡ c)
    ⊎ (InOneOf c (funded ∷ dispute ∷ refunded ∷ [])
        × IsAcceptable c.refund_txid txid
        × (c' ≡ count_refund who (with_refund_txid txid c)))
