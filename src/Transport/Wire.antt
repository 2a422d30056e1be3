-- ===== src/Transport/Wire.antt =====
-- crates/nxms-transport/src/wire.rs: the envelope, the payload inside it, and their validation.
-- The errors are the source's texts without the interpolated values.
pub mod Padding
pub mod Match
use nexum_core.Common.{ℕ, ◌+◌, ◌*◌, ◌/◌, String, Bool, ◌||◌, not, ltb, ◌==◌, str_eq}
use nexum_core.Common.Outcome.{Result, ok, err, ◌>>=◌, ◌>>◌, ensure, map_err}
use nexum_core.Common.Text.{
  trim, len, is_empty, all_chars, is_ascii_hexdigit, is_ascii_alphanumeric,
}

abbrev pub nxms_escrow_id_hex_len : ℕ
nxms_escrow_id_hex_len = 32

abbrev pub nxms_max_peer_id_len : ℕ
nxms_max_peer_id_len = 64

pub data MsgType : Type 0 where
  prepare_info : MsgType
  make_info : MsgType
  exchange_round1 : MsgType
  exchange_round2 : MsgType
  export_info_req : MsgType
  export_info_resp : MsgType
  tx_sign_req : MsgType
  tx_sign_resp : MsgType
  error : MsgType

abbrev pub msg_type_key : MsgType → String
msg_type_key prepare_info = "prepare_info"
msg_type_key make_info = "make_info"
msg_type_key exchange_round1 = "exchange_round1"
msg_type_key exchange_round2 = "exchange_round2"
msg_type_key export_info_req = "export_info_req"
msg_type_key export_info_resp = "export_info_resp"
msg_type_key tx_sign_req = "tx_sign_req"
msg_type_key tx_sign_resp = "tx_sign_resp"
msg_type_key error = "error"

pub record NxmsEnvelope : Type 0 where
  pub proto : String
  pub kem_id : String
  pub sig_id : String
  pub msg_type : MsgType
  pub escrow_id_hex : String
  pub from : String
  pub to : String
  pub seq : ℕ
  pub kem_ct_b64 : String
  pub nonce_b64 : String
  pub ciphertext_b64 : String
  pub tag_b64 : String
  pub sig_b64 : String

pub record NxmsPayload : Type 0 where
  pub app_proto : String
  pub msg_type : MsgType
  pub escrow_id_hex : String
  pub from : String
  pub to : String
  pub seq : ℕ
  pub data' : String

-- `Result<(), String>`
abbrev pub Check : Type 0
Check = Result String (Unit {0})

abbrev is_peer_id_byte : ℕ → Bool
is_peer_id_byte b = is_ascii_alphanumeric b || b == b'_' || b == b'-'

unfoldable pub validate_peer_id : String → Check
validate_peer_id value = do
  ensure (not (is_empty (trim value))) "empty"
  ensure (not (ltb nxms_max_peer_id_len (len (trim value)))) "too long"
  ensure (all_chars is_peer_id_byte (trim value)) "invalid characters (allowed: A-Z a-z 0-9 _ -)"

unfoldable pub validate_hex : String → ℕ → Check
validate_hex value expected_len = do
  ensure (len (trim value) == expected_len) "invalid length"
  ensure (all_chars is_ascii_hexdigit (trim value)) "non-hex characters"

-- The limits are at most 16 MiB, so the checked operations of the source do not overflow.
abbrev max_b64_len_for_decoded : ℕ → ℕ
max_b64_len_for_decoded max_decoded_len = (max_decoded_len + 2) / 3 * 4

unfoldable pub validate_b64_field_len : String → String → ℕ → Check
validate_b64_field_len label value max_decoded_len =
    ensure (not (ltb (max_b64_len_for_decoded max_decoded_len) (len value))) label

unfoldable pub validate_envelope : NxmsEnvelope → Check
validate_envelope env = do
  ensure (str_eq env.proto "NXMS/1") "invalid proto"
  ensure (str_eq env.kem_id "FrodoKEM-640-SHAKE") "unsupported kem_id"
  ensure (str_eq env.sig_id "Falcon-1024-CT") "unsupported sig_id"
  map_err (λ _. "invalid from") (validate_peer_id env.from)
  map_err (λ _. "invalid to") (validate_peer_id env.to)
  map_err (λ _. "invalid escrow_id_hex") (validate_hex env.escrow_id_hex nxms_escrow_id_hex_len)
  ensure (not (env.seq == 0)) "seq must be > 0"
  ensure
      (not (
        is_empty (trim env.kem_ct_b64)
        || is_empty (trim env.nonce_b64)
        || is_empty (trim env.ciphertext_b64)
        || is_empty (trim env.tag_b64)
        || is_empty (trim env.sig_b64)))
      "missing crypto fields"
  validate_b64_field_len "kem_ct_b64 too long" env.kem_ct_b64 32768
  validate_b64_field_len "nonce_b64 too long" env.nonce_b64 24
  validate_b64_field_len "ciphertext_b64 too long" env.ciphertext_b64 (16 * 1024 * 1024)
  validate_b64_field_len "tag_b64 too long" env.tag_b64 32
  validate_b64_field_len "sig_b64 too long" env.sig_b64 4096

unfoldable pub validate_payload : NxmsPayload → Check
validate_payload p = do
  ensure (str_eq p.app_proto "ESCROW/1") "unsupported app_proto"
  map_err (λ _. "invalid from") (validate_peer_id p.from)
  map_err (λ _. "invalid to") (validate_peer_id p.to)
  map_err (λ _. "invalid escrow_id_hex") (validate_hex p.escrow_id_hex nxms_escrow_id_hex_len)
  ensure (not (p.seq == 0)) "seq must be > 0"
  ensure (not (is_empty (trim p.data'))) "payload data must not be empty"

unfoldable pub validate_matches_envelope : NxmsPayload → NxmsEnvelope → Check
validate_matches_envelope p env = do
  validate_payload p
  validate_envelope env
  ensure (str_eq p.escrow_id_hex env.escrow_id_hex) "payload/envelope escrow_id mismatch"
  ensure (str_eq p.from env.from) "payload/envelope from mismatch"
  ensure (str_eq p.to env.to) "payload/envelope to mismatch"
  ensure (p.seq == env.seq) "payload/envelope seq mismatch"
  ensure (str_eq (msg_type_key p.msg_type) (msg_type_key env.msg_type))
      "payload/envelope msg_type mismatch"
