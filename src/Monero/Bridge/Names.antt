-- ===== src/Monero/Bridge/Names.antt =====
-- The names of states and roles on the bridge (`parse_state` … `format_participant`).
use Prim.Native.String.{◌++◌ as str_append}
use nexum_core.Common.{String, ◌≡◌, refl, Option, none, some, str_eq, if◌then◌else◌}
use nexum_core.Common.Outcome.{ok, err, ◌>>=◌}
use nexum_core.Monero.Types.{
  EscrowState, new, xmr_msig_r1, xmr_msig_r2, xmr_msig_r3, ready, funded, released, refunded,
  dispute, closed, EscrowParticipant, buyer, seller, arbiter, invalid_argument,
}
use nexum_core.Monero.Slots.{Result'}

unfoldable pub parse_participant : String → Result' EscrowParticipant
parse_participant role =
    if str_eq role "buyer"
    then ok buyer
    else if str_eq role "seller"
    then ok seller
    else if str_eq role "arbiter"
    then ok arbiter
    else err (invalid_argument (str_append "unknown actor role: " role))

unfoldable pub parse_participant_opt : Option String → Result' (Option EscrowParticipant)
parse_participant_opt none = ok none
parse_participant_opt (some role) = do p ← parse_participant role; ok (some p)

abbrev pub format_participant : EscrowParticipant → String
format_participant buyer = "buyer"
format_participant seller = "seller"
format_participant arbiter = "arbiter"

unfoldable pub parse_state : String → Result' EscrowState
parse_state v =
    if str_eq v "NEW"
    then ok new
    else if str_eq v "XMR_MSIG_R1"
    then ok xmr_msig_r1
    else if str_eq v "XMR_MSIG_R2"
    then ok xmr_msig_r2
    else if str_eq v "XMR_MSIG_R3"
    then ok xmr_msig_r3
    else if str_eq v "READY"
    then ok ready
    else if str_eq v "FUNDED"
    then ok funded
    else if str_eq v "RELEASED"
    then ok released
    else if str_eq v "REFUNDED"
    then ok refunded
    else if str_eq v "DISPUTE"
    then ok dispute
    else if str_eq v "CLOSED"
    then ok closed
    else err (invalid_argument (str_append "unknown escrow state: " v))

abbrev pub format_state : EscrowState → String
format_state new = "NEW"
format_state xmr_msig_r1 = "XMR_MSIG_R1"
format_state xmr_msig_r2 = "XMR_MSIG_R2"
format_state xmr_msig_r3 = "XMR_MSIG_R3"
format_state ready = "READY"
format_state funded = "FUNDED"
format_state released = "RELEASED"
format_state refunded = "REFUNDED"
format_state dispute = "DISPUTE"
format_state closed = "CLOSED"

-- The names of states and of roles are read back as what they were written for.
names_read_back :
    ((s : EscrowState) → parse_state (format_state s) ≡ ok s)
    × ((p : EscrowParticipant) → parse_participant (format_participant p) ≡ ok p)
unfolding parse_state parse_participant
names_read_back = (
  elim [
    | new ↦ refl
    | xmr_msig_r1 ↦ refl
    | xmr_msig_r2 ↦ refl
    | xmr_msig_r3 ↦ refl
    | ready ↦ refl
    | funded ↦ refl
    | released ↦ refl
    | refunded ↦ refl
    | dispute ↦ refl
    | closed ↦ refl
  ],
  elim [ buyer ↦ refl | seller ↦ refl | arbiter ↦ refl ],
)
