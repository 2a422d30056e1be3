-- ===== src/Monero/Slots.antt =====
-- The helpers at the end of crates/nxms-monero-core/src/multisig/state.rs: write-once slots and
-- the checks of states, transaction ids and dispute reasons. A helper that takes a slot by
-- `&mut` returns the slot's new value; on an error it has not written.
use Prim.Native.String.{◌++◌ as str_append}
use nexum_core.Common.{
  ℕ, String, ◌≡◌, ◌⊎◌, Bool, true, false, ◌&&◌, ◌||◌, Option, none, some, List, [], ◌∷◌, arith, ltb,
  ◌==◌, str_eq, eq_iff, if◌then◌else◌,
}
use nexum_core.Common.Outcome.{Result, ok, err, ensure}
use nexum_core.Common.Text.{trim, is_empty, all_chars, is_ascii_hexdigit, len}
use nexum_core.Monero.Types.{
  EscrowState, state_eq, debug_state, MoneroArbitraError, invalid_argument, conflict, invalid_txid,
}

abbrev pub Result' : Type 0 → Type 0
Result' A = Result MoneroArbitraError A

abbrev pub max_dispute_reason_len : ℕ
max_dispute_reason_len = 2_000

abbrev pub contains_state : List EscrowState → EscrowState → Bool
contains_state [] s = false
contains_state (t ∷ ts) s = state_eq t s || contains_state ts s

unfoldable pub ensure_state_in : EscrowState → List EscrowState → String → Result' (Unit {0})
ensure_state_in state allowed op = ensure (contains_state allowed state) (
    invalid_argument
      (str_append "bad state for " (str_append op (str_append ": " (debug_state state)))))

pub ensure_state_in-eq-ok :
    (state : EscrowState) (allowed : List EscrowState) (op : String)
    → ensure_state_in state allowed op ≡ ok tt
    → contains_state allowed state ≡ true
unfolding ensure_state_in
ensure_state_in-eq-ok state allowed op h = ground arith

-- The `match slot` of both setters.
store_once : Option String → String → String → Result' (Option String)
store_once none incoming label = ok (some incoming)
store_once (some current) incoming label =
    if str_eq current incoming
    then ok (some current)
    else err (conflict (str_append "different value already stored for " label))

unfoldable pub set_once : Option String → String → Bool → String → Result' (Option String)
unfolding store_once
set_once slot incoming require_non_empty label =
    if require_non_empty && is_empty (trim incoming)
    then err (invalid_argument (str_append label " cannot be empty"))
    else store_once slot incoming label

-- `set_refund_once`, over the address check `is_xmr_address`.
unfoldable pub set_refund_once :
    (String → Bool) → Option String → Option String → String → Result' (Option String)
unfolding store_once
set_refund_once is_xmr_address slot none label = ok slot
set_refund_once is_xmr_address slot (some refund) label =
    let normalized = trim refund in
    if is_empty normalized
    then ok slot
    else if is_xmr_address normalized
    then store_once slot normalized label
    else err (invalid_argument (str_append "invalid refund address for " label))

abbrev pub is_txid : String → Bool
is_txid txid = len txid == 64 && all_chars is_ascii_hexdigit txid

unfoldable pub validate_txid : String → Result' (Unit {0})
validate_txid txid = ensure (is_txid txid) invalid_txid

unfoldable pub normalize_dispute_reason : Option String → Result' (Option String)
normalize_dispute_reason none = ok none
normalize_dispute_reason (some raw_reason) =
    let trimmed = trim raw_reason in
    if is_empty trimmed
    then ok none
    else if ltb max_dispute_reason_len (len trimmed)
    then err (invalid_argument "reason too long (max 2000)")
    else ok (some trimmed)

-- A write-once slot takes a value if it is empty or has that value already.
abbrev pub IsFresh : Option String → String → Type 0
IsFresh slot v = (slot ≡ none) ⊎ (slot ≡ some v)

pub set_once_cases :
    (slot : Option String) (v label : String)
    → ((set_once slot v true label ≡ ok (some v)) × IsFresh slot v)
      ⊎ ((e : MoneroArbitraError) × (set_once slot v true label ≡ err e))
unfolding set_once
set_once_cases none v label = ground arith
set_once_cases (some w) v label = ground (arith, eq_iff w v)

-- The refund address is left as it was, or is a valid address in a slot that was free for it.
pub set_refund_once_cases :
    (p : String → Bool) (slot addr : Option String) (label : String)
    → (set_refund_once p slot addr label ≡ ok slot)
      ⊎ ((a : String) × (set_refund_once p slot addr label ≡ ok (some a))
          × (p a ≡ true)
          × IsFresh slot a)
      ⊎ ((e : MoneroArbitraError) × (set_refund_once p slot addr label ≡ err e))
unfolding set_refund_once
set_refund_once_cases p slot none label = ground arith
set_refund_once_cases p none (some a) label = ground arith
set_refund_once_cases p (some w) (some a) label = ground (arith, eq_iff w (trim a))

pub validate_txid_cases :
    (v : String)
    → ((validate_txid v ≡ ok tt) × (is_txid v ≡ true))
      ⊎ ((e : MoneroArbitraError) × (validate_txid v ≡ err e))
unfolding validate_txid
validate_txid_cases v = ground arith
