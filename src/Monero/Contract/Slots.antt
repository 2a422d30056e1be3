-- ===== src/Monero/Contract/Slots.antt =====
-- What an escrow has been told stays as it was told: the write-once slots of `EscrowContract`.
use nexum_core.Common.{String, ◌≡◌, Bool, Option, none, some, List, [], ◌∷◌, arith}
use nexum_core.Monero.Contract.{EscrowContract}
use nexum_core.Monero.Contract.Settlement.{count_release, count_refund}
use nexum_core.Monero.Contract.Ops.{Op, release, refund, step, run}
use nexum_core.Monero.Contract.Steps.{step-Ends}

-- `o'` has the value of `o`, if that had one.
abbrev Keeps : {A : Type 0} → Option A → Option A → Type 0
Keeps none o' = Unit
Keeps (some v) o' = o' ≡ some v

Keeps-refl : {A : Type 0} (o : Option A) → Keeps o o
Keeps-refl o = ground arith

Keeps-trans : {A : Type 0} (o o' o'' : Option A) → Keeps o o' → Keeps o' o'' → Keeps o o''
Keeps-trans o o' o'' h k = ground arith

pub record KeepsRounds (c c' : EscrowContract) : Type 0 where
  pub r1_buyer : Keeps c.xmr_r1_buyer c'.xmr_r1_buyer
  pub r1_seller : Keeps c.xmr_r1_seller c'.xmr_r1_seller
  pub r1_arbiter : Keeps c.xmr_r1_arbiter c'.xmr_r1_arbiter
  pub r2_buyer : Keeps c.xmr_r2_buyer c'.xmr_r2_buyer
  pub r2_seller : Keeps c.xmr_r2_seller c'.xmr_r2_seller
  pub r2_arbiter : Keeps c.xmr_r2_arbiter c'.xmr_r2_arbiter
  pub r3_buyer : Keeps c.xmr_r3_buyer c'.xmr_r3_buyer
  pub r3_seller : Keeps c.xmr_r3_seller c'.xmr_r3_seller
  pub r3_arbiter : Keeps c.xmr_r3_arbiter c'.xmr_r3_arbiter

pub record KeepsPayout (c c' : EscrowContract) : Type 0 where
  pub refund_buyer : Keeps c.refund_address_buyer c'.refund_address_buyer
  pub refund_seller : Keeps c.refund_address_seller c'.refund_address_seller
  pub deposit : Keeps c.deposit_address c'.deposit_address
  pub release_id : Keeps c.release_txid c'.release_txid
  pub refund_id : Keeps c.refund_txid c'.refund_txid
  pub opener : Keeps c.dispute_opened_by c'.dispute_opened_by
  pub reason : Keeps c.dispute_reason c'.dispute_reason
  pub opened : Keeps c.dispute_opened_at c'.dispute_opened_at

KeepsRounds-trans : {a b c : EscrowContract} → KeepsRounds a b → KeepsRounds b c → KeepsRounds a c
KeepsRounds-trans {a} {b} {c} h k = record {
  r1_buyer = Keeps-trans a.xmr_r1_buyer b.xmr_r1_buyer c.xmr_r1_buyer h.r1_buyer k.r1_buyer;
  r1_seller = Keeps-trans a.xmr_r1_seller b.xmr_r1_seller c.xmr_r1_seller h.r1_seller k.r1_seller;
  r1_arbiter =
      Keeps-trans a.xmr_r1_arbiter b.xmr_r1_arbiter c.xmr_r1_arbiter h.r1_arbiter k.r1_arbiter;
  r2_buyer = Keeps-trans a.xmr_r2_buyer b.xmr_r2_buyer c.xmr_r2_buyer h.r2_buyer k.r2_buyer;
  r2_seller = Keeps-trans a.xmr_r2_seller b.xmr_r2_seller c.xmr_r2_seller h.r2_seller k.r2_seller;
  r2_arbiter =
      Keeps-trans a.xmr_r2_arbiter b.xmr_r2_arbiter c.xmr_r2_arbiter h.r2_arbiter k.r2_arbiter;
  r3_buyer = Keeps-trans a.xmr_r3_buyer b.xmr_r3_buyer c.xmr_r3_buyer h.r3_buyer k.r3_buyer;
  r3_seller = Keeps-trans a.xmr_r3_seller b.xmr_r3_seller c.xmr_r3_seller h.r3_seller k.r3_seller;
  r3_arbiter =
      Keeps-trans a.xmr_r3_arbiter b.xmr_r3_arbiter c.xmr_r3_arbiter h.r3_arbiter k.r3_arbiter;
}

KeepsRounds-refl : (c : EscrowContract) → KeepsRounds c c
KeepsRounds-refl c = record {
  r1_buyer = Keeps-refl c.xmr_r1_buyer;
  r1_seller = Keeps-refl c.xmr_r1_seller;
  r1_arbiter = Keeps-refl c.xmr_r1_arbiter;
  r2_buyer = Keeps-refl c.xmr_r2_buyer;
  r2_seller = Keeps-refl c.xmr_r2_seller;
  r2_arbiter = Keeps-refl c.xmr_r2_arbiter;
  r3_buyer = Keeps-refl c.xmr_r3_buyer;
  r3_seller = Keeps-refl c.xmr_r3_seller;
  r3_arbiter = Keeps-refl c.xmr_r3_arbiter;
}

KeepsPayout-trans : {a b c : EscrowContract} → KeepsPayout a b → KeepsPayout b c → KeepsPayout a c
KeepsPayout-trans {a} {b} {c} h k = record {
  refund_buyer =
      Keeps-trans a.refund_address_buyer b.refund_address_buyer c.refund_address_buyer
        h.refund_buyer k.refund_buyer;
  refund_seller =
      Keeps-trans a.refund_address_seller b.refund_address_seller c.refund_address_seller
        h.refund_seller k.refund_seller;
  deposit = Keeps-trans a.deposit_address b.deposit_address c.deposit_address h.deposit k.deposit;
  release_id = Keeps-trans a.release_txid b.release_txid c.release_txid h.release_id k.release_id;
  refund_id = Keeps-trans a.refund_txid b.refund_txid c.refund_txid h.refund_id k.refund_id;
  opener =
      Keeps-trans a.dispute_opened_by b.dispute_opened_by c.dispute_opened_by h.opener k.opener;
  reason = Keeps-trans a.dispute_reason b.dispute_reason c.dispute_reason h.reason k.reason;
  opened =
      Keeps-trans a.dispute_opened_at b.dispute_opened_at c.dispute_opened_at h.opened k.opened;
}

KeepsPayout-refl : (c : EscrowContract) → KeepsPayout c c
KeepsPayout-refl c = record {
  refund_buyer = Keeps-refl c.refund_address_buyer;
  refund_seller = Keeps-refl c.refund_address_seller;
  deposit = Keeps-refl c.deposit_address;
  release_id = Keeps-refl c.release_txid;
  refund_id = Keeps-refl c.refund_txid;
  opener = Keeps-refl c.dispute_opened_by;
  reason = Keeps-refl c.dispute_reason;
  opened = Keeps-refl c.dispute_opened_at;
}

module _ (p : String → Bool) where
  step-KeepsRounds : (op : Op) (c : EscrowContract) → KeepsRounds c (step p c op)
  unfolding count_release count_refund
  step-KeepsRounds (release who none) c = ground (arith, step-Ends p (release who none) c)
  step-KeepsRounds (refund who none) c = ground (arith, step-Ends p (refund who none) c)
  step-KeepsRounds op c = ground (arith, step-Ends p op c)

  step-KeepsPayout : (op : Op) (c : EscrowContract) → KeepsPayout c (step p c op)
  unfolding count_release count_refund
  step-KeepsPayout (release who none) c = ground (arith, step-Ends p (release who none) c)
  step-KeepsPayout (refund who none) c = ground (arith, step-Ends p (refund who none) c)
  step-KeepsPayout op c = ground (arith, step-Ends p op c)

  -- Whatever operations follow (the snapshot imports are not among them), round data, refund and
  -- deposit addresses, transaction ids and the opener, reason and time of a dispute that are once
  -- stored keep their values.
  pub run_keeps_slots :
      (c : EscrowContract) (ops : List Op)
      → KeepsRounds c (run p c ops) × KeepsPayout c (run p c ops)
  unfolding run
  run_keeps_slots c [] = (KeepsRounds-refl c, KeepsPayout-refl c)
  run_keeps_slots c (op ∷ ops) =
      let rest = run_keeps_slots (step p c op) ops in
      (
        KeepsRounds-trans (step-KeepsRounds op c) rest.0,
        KeepsPayout-trans (step-KeepsPayout op c) rest.1,
      )
