-- ===== src/Monero/Bridge/Confirm.antt =====
-- What the bridge answers to a release vote.
use nexum_core.Common.{
  ℕ, Option-cases, String, ◌≡◌, refl, Option, none, some, ◌∷◌, [], arith, inl, inr, if◌then◌else◌,
  leb,
}
use nexum_core.Common.Outcome.{◌>>=◌, ok, err, Result-cases}
use nexum_core.Monero.Types.{released, funded, dispute, EscrowState, EscrowParticipant}
use nexum_core.Monero.Slots.{
  Result', ensure_state_in-eq-ok, validate_txid, validate_txid_cases, set_once_cases,
}
use nexum_core.Monero.Contract.{
  ParticipantSet, EscrowContract, EscrowTransition, count, insert, new_xmr,
}
use nexum_core.Monero.Contract.Settlement
use nexum_core.Monero.Contract.Settlement.{
  import_release_snapshot, participants, count_release, state_after,
}
use nexum_core.Monero.Bridge.Requests.{call}
use nexum_core.Monero.Bridge.Names.{parse_state, parse_participant, format_state}
use nexum_core.Monero.Bridge.Settlement.{ConfirmRequest, ConfirmResponse, confirm_release}

-- The votes of the request with the new one.
abbrev pub with_vote : EscrowParticipant → ConfirmRequest → ParticipantSet
with_vote who req =
    insert who (participants req.confirm_buyer req.confirm_seller req.confirm_arbiter)

-- What an answer says, if there is one.
abbrev pub IsCounted :
    EscrowState → EscrowParticipant → ConfirmRequest → Result' ConfirmResponse → Type 0
IsCounted s who req (err e) = Unit
IsCounted s who req (ok resp) =
    (participants resp.confirm_buyer resp.confirm_seller resp.confirm_arbiter ≡ with_vote who req)
    × (resp.confirmations ≡ count (with_vote who req))
    × (resp.state
        ≡ (if leb 2 (count (with_vote who req)) then format_state released else format_state s))

-- What the vote has made of the contract.
abbrev Voted :
    EscrowParticipant → EscrowContract → Result' ((EscrowTransition × ℕ) × EscrowContract) → Type 0
Voted who c (err e) = Unit
Voted who c (ok (a, c')) =
    (c'.release_confirmations ≡ insert who c.release_confirmations)
    × (a.1 ≡ count (insert who c.release_confirmations))
    × (c'.state ≡ state_after (insert who c.release_confirmations) released c.state)

-- The vote on a contract that the snapshot was read into.
confirm_release-Voted :
    (s : EscrowState) (who : EscrowParticipant) (txid : Option String) (c : EscrowContract)
    → c.state ≡ s
    → Voted who c (call c (Settlement.confirm_release who txid))
unfolding Settlement.confirm_release count_release
confirm_release-Voted s who none c h =
    ground
      (arith, ensure_state_in-eq-ok c.state (funded ∷ dispute ∷ released ∷ []) "confirm_release")
confirm_release-Voted s who (some v) c h = ground (
  arith,
  ensure_state_in-eq-ok c.state (funded ∷ dispute ∷ released ∷ []) "confirm_release",
  validate_txid_cases v,
  set_once_cases c.release_txid v "release_txid",
)

-- The contract that a request is read into.
abbrev read : EscrowState → ConfirmRequest → Option String → EscrowContract
read s req txid = record (new_xmr 0 "buyer" "seller" "server" 0) {
  state = s;
  release_confirmations = participants req.confirm_buyer req.confirm_seller req.confirm_arbiter;
  release_txid = txid;
}

-- What the bridge makes of the contract after the vote.
abbrev answer : (EscrowTransition × ℕ) × EscrowContract → Result' ConfirmResponse
answer x = ok (record {
  state = format_state x.1.state;
  stored_txid = x.1.release_txid;
  confirm_buyer = x.1.release_confirmations.has_buyer;
  confirm_seller = x.1.release_confirmations.has_seller;
  confirm_arbiter = x.1.release_confirmations.has_arbiter;
  confirmations = x.0.1;
})

answer-IsCounted :
    (s : EscrowState) (who : EscrowParticipant) (req : ConfirmRequest)
    (r : Result' ((EscrowTransition × ℕ) × EscrowContract))
    → Voted who (read s req req.stored_txid) r
    → IsCounted s who req (r >>= answer)
unfolding new_xmr
answer-IsCounted s who req (err e) h = tt
answer-IsCounted s who req (ok x) h = ground arith

-- If a release vote is answered without an error, the answer has the votes of the request with the actor's, their
-- number, and the released state from two votes on, the request's state below.
confirm_release-IsCounted :
    (s : EscrowState) (who : EscrowParticipant) (req : ConfirmRequest)
    → parse_state req.state ≡ ok s
    → parse_participant req.actor_role ≡ ok who
    → IsCounted s who req (confirm_release req)
unfolding confirm_release new_xmr import_release_snapshot
    nexum_core.Monero.Contract.release_snapshot
confirm_release-IsCounted s who req e k = elim (Option-cases req.stored_txid) [
  | inl n ↦ rw e (
      rw n (
        rw k (
          answer-IsCounted s who req
            (call (read s req none) (Settlement.confirm_release who req.txid))
            (confirm_release-Voted s who req.txid (read s req none) refl))))
  | inr (v, n) ↦ elim (Result-cases (validate_txid v)) [
    | inl (u, t) ↦ rw e (
        rw n (
          rw t (
            rw k (
              answer-IsCounted s who req
                (call (read s req (some v)) (Settlement.confirm_release who req.txid))
                (confirm_release-Voted s who req.txid (read s req (some v)) refl)))))
    | inr (u, t) ↦ rw e (rw n (rw t tt))
  ]
]
