-- ===== src/Monero/Types.antt =====
-- The states, roles and errors of crates/nxms-monero-core/src/types.rs.
use nexum_core.Common.{ℕ, String, ◌≡◌, Bool, true, false, ◌||◌, arith, leb, ◌==◌}
use nexum_core.Common.Int.{ℤ}

pub data EscrowState : Type 0 where
  new xmr_msig_r1 xmr_msig_r2 xmr_msig_r3 ready funded released refunded dispute closed :
      EscrowState

-- `#[derive(PartialEq)]`
abbrev pub discriminant : EscrowState → ℕ
discriminant new = 0
discriminant xmr_msig_r1 = 1
discriminant xmr_msig_r2 = 2
discriminant xmr_msig_r3 = 3
discriminant ready = 4
discriminant funded = 5
discriminant released = 6
discriminant refunded = 7
discriminant dispute = 8
discriminant closed = 9

abbrev pub state_eq : EscrowState → EscrowState → Bool
state_eq a b = discriminant a == discriminant b

pub state_eq_iff : (a b : EscrowState) → state_eq a b ≡ true → a ≡ b
state_eq_iff a b h = ground arith

-- `#[derive(Debug)]`
abbrev pub debug_state : EscrowState → String
debug_state new = "New"
debug_state xmr_msig_r1 = "XmrMsigR1"
debug_state xmr_msig_r2 = "XmrMsigR2"
debug_state xmr_msig_r3 = "XmrMsigR3"
debug_state ready = "Ready"
debug_state funded = "Funded"
debug_state released = "Released"
debug_state refunded = "Refunded"
debug_state dispute = "Dispute"
debug_state closed = "Closed"

pub data Asset : Type 0 where
  xmr btc : Asset

abbrev pub is_xmr : Asset → Bool
is_xmr xmr = true
is_xmr btc = false

pub data EscrowParticipant : Type 0 where
  buyer seller arbiter : EscrowParticipant

abbrev pub participant_eq : EscrowParticipant → EscrowParticipant → Bool
participant_eq buyer buyer = true
participant_eq seller seller = true
participant_eq arbiter arbiter = true
participant_eq _ _ = false

pub data WalletRpcError : Type 0 where
  transport : String → WalletRpcError
  http_status : ℕ → String → WalletRpcError
  rpc : ℤ → String → WalletRpcError
  auth : String → WalletRpcError
  protocol : String → WalletRpcError
  invalid_response : String → WalletRpcError

-- `WalletRpcError::is_transient`
unfoldable pub is_transient : WalletRpcError → Bool
is_transient (transport _) = true
is_transient (http_status status _) = leb 500 status || status == 429 || status == 408
is_transient _ = false

pub data MoneroArbitraError : Type 0 where
  invalid_address : String → MoneroArbitraError
  invalid_argument : String → MoneroArbitraError
  invalid_state_transition : EscrowState → EscrowState → MoneroArbitraError
  conflict : String → MoneroArbitraError
  missing_data : String → MoneroArbitraError
  threshold_not_reached : ℕ → ℕ → MoneroArbitraError
  invalid_txid : MoneroArbitraError
  insufficient_balance : ℕ → ℕ → MoneroArbitraError
  serialization : String → MoneroArbitraError
  wallet_rpc : WalletRpcError → MoneroArbitraError
