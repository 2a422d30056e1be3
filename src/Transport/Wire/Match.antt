-- ===== src/Transport/Wire/Match.antt =====
-- What a payload that `validate_matches_envelope` accepts shares with its envelope.
use nexum_core.Common.{
  ℕ, ◌<◌, ◌≤◌, String, ◌≡◌, refl, sym, ap, ◌∙◌, true, false, Option, none, some, arith, str_eq,
  eq_iff, if◌then◌else◌,
}
use nexum_core.Common.Text.{trim, len, is_empty}
use nexum_core.Common.Outcome.{ok, Result-cases}
use nexum_core.Transport.Wire.{
  MsgType, prepare_info, make_info, exchange_round1, exchange_round2, export_info_req,
  export_info_resp, tx_sign_req, tx_sign_resp, error, NxmsEnvelope, NxmsPayload, msg_type_key,
  validate_envelope, validate_payload, validate_matches_envelope, validate_peer_id, validate_hex,
}

-- The message type that a key stands for.
of_key : String → Option MsgType
of_key s =
    if str_eq s "prepare_info"
    then some prepare_info
    else if str_eq s "make_info"
    then some make_info
    else if str_eq s "exchange_round1"
    then some exchange_round1
    else if str_eq s "exchange_round2"
    then some exchange_round2
    else if str_eq s "export_info_req"
    then some export_info_req
    else if str_eq s "export_info_resp"
    then some export_info_resp
    else if str_eq s "tx_sign_req"
    then some tx_sign_req
    else if str_eq s "tx_sign_resp"
    then some tx_sign_resp
    else if str_eq s "error"
    then some error
    else none

of_key-msg_type_key : (t : MsgType) → of_key (msg_type_key t) ≡ some t
unfolding of_key
of_key-msg_type_key = elim [
  | prepare_info ↦ refl
  | make_info ↦ refl
  | exchange_round1 ↦ refl
  | exchange_round2 ↦ refl
  | export_info_req ↦ refl
  | export_info_resp ↦ refl
  | tx_sign_req ↦ refl
  | tx_sign_resp ↦ refl
  | error ↦ refl
]

some_inj : {A : Type 0} {a b : A} → some a ≡ some b → a ≡ b
some_inj h = cc

msg_type_key_inj : (a b : MsgType) → str_eq (msg_type_key a) (msg_type_key b) ≡ true → a ≡ b
msg_type_key_inj a b h = some_inj (
    sym (of_key-msg_type_key a)
    ∙ ap of_key ((eq_iff (msg_type_key a) (msg_type_key b)).0 h)
    ∙ of_key-msg_type_key b)

peer_id_length : (v : String) → validate_peer_id v ≡ ok tt → len (trim v) ≤ 64
unfolding validate_peer_id
peer_id_length v h = ground arith

hex_length : (v : String) (n : ℕ) → validate_hex v n ≡ ok tt → len (trim v) ≡ n
unfolding validate_hex
hex_length v n h = ground arith

payload_basics :
    (p : NxmsPayload) → validate_payload p ≡ ok tt → (0 < p.seq) × (is_empty (trim p.data') ≡ false)
unfolding validate_payload
payload_basics p h = ground (
  arith,
  Result-cases (validate_peer_id p.from),
  Result-cases (validate_peer_id p.to),
  Result-cases (validate_hex p.escrow_id_hex 32),
)

envelope_lengths :
    (env : NxmsEnvelope)
    → validate_envelope env ≡ ok tt
    → (len (trim env.from) ≤ 64) × (len (trim env.to) ≤ 64) × (len (trim env.escrow_id_hex) ≡ 32)
unfolding validate_envelope
envelope_lengths env h = ground (
  arith,
  peer_id_length env.from,
  peer_id_length env.to,
  hex_length env.escrow_id_hex 32,
  Result-cases (validate_peer_id env.from),
  Result-cases (validate_peer_id env.to),
  Result-cases (validate_hex env.escrow_id_hex 32),
)

-- What the two share.
pub record IsMatching (p : NxmsPayload) (env : NxmsEnvelope) : Type 0 where
  pub escrow : p.escrow_id_hex ≡ env.escrow_id_hex
  pub sender : p.from ≡ env.from
  pub receiver : p.to ≡ env.to
  pub number : p.seq ≡ env.seq
  pub kind : p.msg_type ≡ env.msg_type
  pub positive : 0 < p.seq
  pub escrow_length : len (trim env.escrow_id_hex) ≡ 32
  pub sender_length : len (trim env.from) ≤ 64
  pub receiver_length : len (trim env.to) ≤ 64
  pub filled : is_empty (trim p.data') ≡ false

-- An accepted payload names the envelope's escrow, sender, receiver, sequence number and message
-- type; the number is positive, the data is not blank, the escrow id has 32 characters and the
-- peer ids at most 64, without the white space around them.
pub match_IsMatching :
    (p : NxmsPayload) (env : NxmsEnvelope)
    → validate_matches_envelope p env ≡ ok tt
    → IsMatching p env
unfolding validate_matches_envelope
match_IsMatching p env h = ground (
  arith,
  eq_iff p.escrow_id_hex env.escrow_id_hex,
  eq_iff p.from env.from,
  eq_iff p.to env.to,
  msg_type_key_inj p.msg_type env.msg_type,
  payload_basics p,
  envelope_lengths env,
  Result-cases (validate_payload p),
  Result-cases (validate_envelope env),
)
