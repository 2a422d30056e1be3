-- ===== src/Orchestrator/Token/Accepted.antt =====
-- crates/nxms-escrow-orchestrator/src/action_token.rs and crates/nxms-signer/src/action_token.rs: a token
-- that the orchestrator issues passes the signer's checks where the two agree on the configuration.
pub mod Trust
pub mod Verify
pub mod Sign
pub mod Submit
use nexum_core.Common.{
  ℕ, ◌+◌, ◌-◌, ◌≤◌, ◌<◌, min, ltb, ◌==◌, String, str_eq, ◌≡◌, refl, ◌∙◌, Bool, true, false, ◌||◌,
  not, Option, none, some, arith, eq_iff, if◌then◌else◌,
}
use nexum_core.Common.Text.{
  trim, len, is_empty, all_chars, is_ascii_hexdigit, to_ascii_lowercase, present,
}
use nexum_core.Common.Text.Hex.{IsHex, AllLowHex-digits, lowercase_low, trim_low}
use nexum_core.Common.Outcome.{Result, ok, err}
use nexum_core.Orchestrator.Db.{normalize_hex_exact}
use nexum_core.Orchestrator.Token.{
  ActionTokenRole, ActionTokenOp, sign_multisig, submit_multisig, IssueActionTokenParams,
  ActionTokenClaims, base_claims, op_claim_value, role_claim_value, u64_max,
}
use nexum_core.Orchestrator.Token as Issuer
use nexum_core.Orchestrator.Token.Params.{IsIssuable, IsText}
use nexum_core.Signer.Token.{
  SignerRole, role_key, ActionClaims, ActionTokenVerifier, VerifiedSignToken, normalize_hex_64,
  check_times, check_identity, check_trust, check_hash, verify_claims, sign_req_id,
  expected_sign_round, expected_submit_round,
}
use nexum_core.Signer.Token as Signer

-- The JSON that the orchestrator writes, as the signer reads it: the fields have the same names, and
-- a field that is left out reads as none.
abbrev pub as_action_claims : ActionTokenClaims → ActionClaims
as_action_claims c = record {
  iss = c.iss;
  aud = c.aud;
  sub = c.sub;
  scope = c.scope;
  op = c.op;
  role = c.role;
  sign_round = c.sign_round;
  escrow_id = c.escrow_id;
  wallet_id = c.wallet_id;
  sandbox_id = c.sandbox_id;
  txset_hash = c.txset_hash;
  snapshot_hash = c.snapshot_hash;
  nettype = c.nettype;
  runtime_trust_epoch = c.runtime_trust_epoch;
  escrow_admission_hash = c.escrow_admission_hash;
  iat = c.iat;
  nbf = c.nbf;
  exp = c.exp;
  jti = c.jti;
  proof_arbiter_jti = c.proof_arbiter_jti;
  proof_seller_jti = c.proof_seller_jti;
  proof_arbiter_req_id = c.proof_arbiter_req_id;
  proof_seller_req_id = c.proof_seller_req_id;
}

abbrev pub signer_role_of : ActionTokenRole → SignerRole
signer_role_of Issuer.arbiter = Signer.arbiter
signer_role_of Issuer.seller = Signer.seller
signer_role_of Issuer.buyer = Signer.buyer

-- The round that the signer expects for an operation.
abbrev pub round_of : ActionTokenOp → SignerRole → String
round_of sign_multisig role = expected_sign_round role
round_of submit_multisig role = expected_submit_round role

-- A signer with runtime trust expects the epoch that the tokens are issued for.
abbrev pub SameEpoch : Option String → Option String → Type 0
SameEpoch none issued = Unit
SameEpoch (some epoch) issued = (issued ≡ some epoch) × (present (some epoch) ≡ some epoch)

-- The signer's configuration is the one that the tokens are issued for. The signer takes a subject of
-- at most 128 bytes.
pub record Agrees (params : IssueActionTokenParams) (verifier : ActionTokenVerifier) : Type 0 where
  pub role : verifier.signer_role ≡ signer_role_of params.role
  pub sandbox : params.sandbox_id ≡ verifier.sandbox_id
  pub wallet : params.wallet_id ≡ verifier.wallet_id
  pub nettype : to_ascii_lowercase params.nettype ≡ verifier.nettype
  pub subject : len params.subject ≤ 128
  pub ttl : params.ttl_secs ≤ verifier.max_ttl_secs
  pub epoch : SameEpoch verifier.runtime_trust_epoch params.runtime_trust_epoch

-- The clocks: the signer's is not too far behind the issuer's, and no time overflows.
pub record InTime (params : IssueActionTokenParams) (verifier : ActionTokenVerifier)
    (now signer_now : ℕ) : Type 0 where
  pub known : now ≤ signer_now + verifier.clock_skew_secs
  pub fits : now + params.ttl_secs ≤ u64_max

-- A token identifier that the signer takes.
pub record IsTokenId (jti : String) : Type 0 where
  pub inked : is_empty (trim jti) ≡ false
  pub bounded : len jti ≤ 256

pub IsHex-normalize_64 : (h e : String) → IsHex 64 h → normalize_hex_64 h e ≡ ok h
unfolding normalize_hex_64
IsHex-normalize_64 h e hex =
    rw (trim_low h hex.low)
      (rw (AllLowHex-digits h hex.low, lowercase_low h hex.low) (ground (arith, hex.size)))

pub normalize_same :
    (value label h e : String)
    → normalize_hex_exact value 64 label ≡ ok h
    → normalize_hex_64 value e ≡ ok h
unfolding normalize_hex_exact normalize_hex_64
normalize_same value label h e n = ground arith

pub check_hash-pass :
    (h expected e f g : String)
    → IsHex 64 h
    → ((label : String) → normalize_hex_64 expected label ≡ ok h)
    → check_hash h expected e f g ≡ ok h
unfolding check_hash
check_hash-pass h expected e f g hex wanted =
    rw (IsHex-normalize_64 h e hex, wanted f) (rw ((eq_iff h h).1 refl))

role_same : (role : ActionTokenRole) → role_key (signer_role_of role) ≡ role_claim_value role
role_same Issuer.arbiter = refl
role_same Issuer.seller = refl
role_same Issuer.buyer = refl

pub round_same :
    (op : ActionTokenOp) (role : ActionTokenRole)
    → round_of op (signer_role_of role) ≡ Issuer.expected_sign_round op role
round_same sign_multisig Issuer.arbiter = refl
round_same sign_multisig Issuer.seller = refl
round_same sign_multisig Issuer.buyer = refl
round_same submit_multisig Issuer.arbiter = refl
round_same submit_multisig Issuer.seller = refl
round_same submit_multisig Issuer.buyer = refl

module _ (params : IssueActionTokenParams) (verifier : ActionTokenVerifier)
    (issuable : IsIssuable params) (agrees : Agrees params verifier) where
  pub check_times-pass :
      (now signer_now : ℕ) (jti snapshot : String) (admission : Option String)
      → InTime params verifier now signer_now
      → check_times verifier signer_now
          (as_action_claims (base_claims now jti params snapshot admission))
        ≡ ok tt
  unfolding check_times base_claims
  check_times-pass now signer_now jti snapshot admission time =
      ground (arith, time.known, time.fits, issuable.lives, agrees.ttl)

  pub check_identity-pass :
      (now : ℕ) (jti snapshot : String) (admission : Option String)
      → check_identity verifier
          (round_of params.op verifier.signer_role)
          params.escrow_id_hex
          (as_action_claims (base_claims now jti params snapshot admission))
        ≡ ok tt
  unfolding check_identity base_claims
  check_identity-pass now jti snapshot admission =
      rw
        (
          issuable.subject.trimmed,
          issuable.nettype.trimmed,
          agrees.role,
          role_same params.role,
          round_same params.op params.role,
        )
        (rw (issuable.subject.inked) (
          ground (
            arith,
            agrees.subject,
            agrees.sandbox,
            agrees.wallet,
            agrees.nettype,
            eq_iff (role_claim_value params.role) (role_claim_value params.role),
            eq_iff (Issuer.expected_sign_round params.op params.role)
                (Issuer.expected_sign_round params.op params.role),
            eq_iff params.escrow_id_hex params.escrow_id_hex,
            eq_iff params.sandbox_id verifier.sandbox_id,
            eq_iff params.wallet_id verifier.wallet_id,
            eq_iff (to_ascii_lowercase params.nettype) verifier.nettype,
          )))
