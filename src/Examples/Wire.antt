-- ===== src/Examples/Wire.antt =====
-- The theorems on the wire format at concrete inputs.
use nexum_core.Common.{◌≡◌, refl}
use nexum_core.Common.Text.{trim, all_chars}
use nexum_core.Transport.Wire.{
  NxmsEnvelope, NxmsPayload, tx_sign_req, validate_envelope, validate_payload, validate_peer_id,
  validate_hex, validate_b64_field_len, validate_matches_envelope,
}
use nexum_core.Transport.Wire.Match.{IsMatching, match_IsMatching}
use nexum_core.Transport.Wire.Padding.{padding_unseen}

abbrev envelope : NxmsEnvelope
envelope = record {
  proto = "NXMS/1";
  kem_id = "FrodoKEM-640-SHAKE";
  sig_id = "Falcon-1024-CT";
  msg_type = tx_sign_req;
  escrow_id_hex = "00112233445566778899aabbccddeeff";
  from = "alice";
  to = " bob ";
  seq = 3;
  kem_ct_b64 = "AA";
  nonce_b64 = "AA";
  ciphertext_b64 = "AA";
  tag_b64 = "AA";
  sig_b64 = "AA";
}

abbrev payload : NxmsPayload
payload = record {
  app_proto = "ESCROW/1";
  msg_type = tx_sign_req;
  escrow_id_hex = "00112233445566778899aabbccddeeff";
  from = "alice";
  to = " bob ";
  seq = 3;
  data' = "x";
}

match_IsMatching_example : IsMatching payload envelope
unfolding validate_matches_envelope validate_envelope validate_payload validate_peer_id validate_hex
    validate_b64_field_len trim all_chars
match_IsMatching_example = match_IsMatching payload envelope refl

padding_unseen_example :
    validate_envelope envelope
    ≡ validate_envelope (record envelope {
      from = trim envelope.from;
      to = trim envelope.to;
      escrow_id_hex = trim envelope.escrow_id_hex;
    })
padding_unseen_example = padding_unseen envelope
