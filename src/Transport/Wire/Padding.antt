-- ===== src/Transport/Wire/Padding.antt =====
-- White space around the names of an envelope: validation reads the trimmed texts.
use nexum_core.Common.{ℕ, String, ◌≡◌}
use nexum_core.Common.Text.{trim, trim_idem}
use nexum_core.Transport.Wire.{NxmsEnvelope, validate_peer_id, validate_hex, validate_envelope}

peer_id_trim : (v : String) → validate_peer_id (trim v) ≡ validate_peer_id v
unfolding validate_peer_id
peer_id_trim v = rw (trim_idem v)

hex_trim : (v : String) (n : ℕ) → validate_hex (trim v) n ≡ validate_hex v n
unfolding validate_hex
hex_trim v n = rw (trim_idem v)

-- Validation does not see white space around the sender, the receiver and the escrow id: an
-- envelope and its trimmed copy get the same answer, whatever the other fields hold.
pub padding_unseen :
    (env : NxmsEnvelope)
    → validate_envelope env
      ≡ validate_envelope (record env {
        from = trim env.from;
        to = trim env.to;
        escrow_id_hex = trim env.escrow_id_hex;
      })
unfolding validate_envelope
padding_unseen env = simp (peer_id_trim env.from, peer_id_trim env.to, hex_trim env.escrow_id_hex)
