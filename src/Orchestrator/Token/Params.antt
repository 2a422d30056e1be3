-- ===== src/Orchestrator/Token/Params.antt =====
-- crates/nxms-escrow-orchestrator/src/action_token.rs: `build_issue_params`. The runtime trust bundle,
-- the issuer's vault and the key are the results of reading files, `env` reads the environment.
use Prim.Native.String.{◌++◌ as append}
use nexum_core.Common.{
  ℕ, ◌≤◌, ◌<◌, ltb, ◌==◌, String, str_eq, ◌≡◌, subst, Bool, false, ◌||◌, not, Option, none, some,
  inl, inr, arith, if◌then◌else◌,
}
use nexum_core.Common.Text.{
  trim, trim_idem, trim_end_matches, len, is_empty, to_ascii_uppercase, present,
}
use nexum_core.Common.Text.Hex.{IsHex}
use nexum_core.Common.Outcome.{
  Result, ok, err, ok_or, ensure, ◌>>=◌, ◌>>◌, Result-cases, >>=-eq-ok, ensure-eq-ok, >>-eq-ok,
  ok_inj,
}
use nexum_core.Orchestrator.Db.{normalize_hex_exact}
use nexum_core.Orchestrator.Db.Inputs.{normalize_hex-IsHex}
use nexum_core.Orchestrator.Token.{
  ActionTokenRole, ActionTokenOp, IssueActionTokenParams, env_prefix, normalize_non_empty,
}

pub data Algorithm : Type 0 where
  ed_dsa : Algorithm
  es256 : Algorithm

-- The fields of `RuntimeTrustBundle` that are read here.
pub record RuntimeTrust : Type 0 where
  pub issuer : String
  pub algorithm : String
  pub public_key_pem : String
  pub trust_epoch : String

-- The fields of the issuer vault's bundle that are read here.
pub record IssuerBundle : Type 0 where
  pub issuer : String
  pub algorithm : String
  pub public_key_pem : String

-- The paths of the bundle and of the vault are read before.
pub record ActionTokenCliInput : Type 0 where
  pub escrow_id_hex : String
  pub txset_hash_hex : String
  pub role : ActionTokenRole
  pub op : ActionTokenOp
  pub ttl_secs : Option ℕ
  pub subject : Option String
  pub wallet_id : Option String
  pub sandbox_id : Option String
  pub audience : Option String
  pub nettype : Option String

unfoldable pub parse_algorithm : String → Result String Algorithm
parse_algorithm raw =
    let value = to_ascii_uppercase (trim raw) in
    if str_eq value "EDDSA"
    then ok ed_dsa
    else if str_eq value "ES256"
    then ok es256
    else err "unsupported action token algorithm"

abbrev pub algorithm_name : Algorithm → String
algorithm_name ed_dsa = "EDDSA"
algorithm_name es256 = "ES256"

-- `\r`, `\n`, space or tab
abbrev is_line_space : ℕ → Bool
is_line_space c = c == 13 || c == 10 || c == 32 || c == 9

unfoldable pub normalize_text : String → String
normalize_text value = trim_end_matches is_line_space value

-- The name of the variable that `resolve_role_required` and `resolve_role_optional` read.
unfoldable pub env_name : ActionTokenRole → String → String
env_name role suffix =
    append "NXMS_ORCH_ACTION_TOKEN_" (append (env_prefix role) (append "_" suffix))

abbrev or_env : Option String → Option String → Option String
or_env (some v) read = some v
or_env none read = present read

module _ (env : String → Option String) where
  unfoldable pub resolve_role_optional : Option String → ActionTokenRole → String → Option String
  resolve_role_optional cli_value role suffix = or_env cli_value (env (env_name role suffix))

  unfoldable pub resolve_role_required :
      Option String → ActionTokenRole → String → String → Result String String
  unfolding resolve_role_optional
  resolve_role_required cli_value role suffix label =
      ok_or (resolve_role_optional cli_value role suffix) label

  -- `normalize_non_empty(resolve_role_required(…)?, …)?`
  unfoldable pub required_text :
      Option String → ActionTokenRole → String → String → ℕ → Result String String
  required_text cli_value role suffix label max_len = do
    value ← resolve_role_required cli_value role suffix label
    normalize_non_empty value label max_len

unfoldable pub check_trust_bundle :
    IssuerBundle → Algorithm → Option RuntimeTrust → Result String (Unit {0})
check_trust_bundle bundle algorithm none = ok tt
check_trust_bundle bundle algorithm (some trust) = do
  ensure (str_eq bundle.issuer trust.issuer) "issuer does not match runtime trust bundle issuer"
  ensure (str_eq (algorithm_name algorithm) (to_ascii_uppercase (trim trust.algorithm)))
      "algorithm does not match runtime trust bundle algorithm"
  ensure (str_eq (normalize_text bundle.public_key_pem) (normalize_text trust.public_key_pem))
      "action token issuer public key does not match runtime trust bundle"

abbrev epoch_of : Option RuntimeTrust → Option String
epoch_of none = none
epoch_of (some trust) = some trust.trust_epoch

abbrev ttl_or_default : Option ℕ → ℕ
ttl_or_default none = 60
ttl_or_default (some ttl) = ttl

abbrev audience_or_sandbox : Option String → String → String
audience_or_sandbox none sandbox_id = append "sandbox:" sandbox_id
audience_or_sandbox (some audience) sandbox_id = audience

module _ (env : String → Option String) (load_trust : Result String (Option RuntimeTrust))
    (load_vault : Result String IssuerBundle)
    (read_key : Algorithm → Result String (Unit {0})) where
  unfoldable pub build_issue_params : ActionTokenCliInput → Result String IssueActionTokenParams
  build_issue_params input = do
    trust ← load_trust
    escrow_id_hex ← normalize_hex_exact input.escrow_id_hex 32 "escrow_id_hex"
    txset_hash_hex ← normalize_hex_exact input.txset_hash_hex 64 "txset_hash_hex"
    bundle ← load_vault
    algorithm ← parse_algorithm bundle.algorithm
    check_trust_bundle bundle algorithm trust
    read_key algorithm
    let ttl_secs = ttl_or_default input.ttl_secs
    ensure (not (ttl_secs == 0)) "ttl_secs must be > 0"
    ensure (not (ltb 120 ttl_secs)) "ttl_secs exceeds hard limit (120s)"
    subject ← required_text env input.subject input.role "SUBJECT" "subject" 256
    wallet_id ← required_text env input.wallet_id input.role "WALLET_ID" "wallet_id" 256
    sandbox_id ← required_text env input.sandbox_id input.role "SANDBOX_ID" "sandbox_id" 256
    let audience_value = resolve_role_optional env input.audience input.role "AUDIENCE"
    audience ← normalize_non_empty (audience_or_sandbox audience_value sandbox_id) "audience" 256
    nettype ← required_text env input.nettype input.role "NETTYPE" "nettype" 32
    ok (record {
      escrow_id_hex = escrow_id_hex;
      txset_hash_hex = txset_hash_hex;
      role = input.role;
      op = input.op;
      issuer = bundle.issuer;
      ttl_secs = ttl_secs;
      subject = subject;
      wallet_id = wallet_id;
      sandbox_id = sandbox_id;
      audience = audience;
      nettype = nettype;
      runtime_trust_epoch = epoch_of trust;
    })

-- A text that is trimmed, not blank, and short enough.
pub record IsText (max_len : ℕ) (s : String) : Type 0 where
  pub trimmed : trim s ≡ s
  pub inked : is_empty s ≡ false
  pub bounded : len s ≤ max_len

-- Parameters that tokens are issued for.
pub record IsIssuable (p : IssueActionTokenParams) : Type 0 where
  pub escrow : IsHex 32 p.escrow_id_hex
  pub txset : IsHex 64 p.txset_hash_hex
  pub lives : 0 < p.ttl_secs
  pub short : p.ttl_secs ≤ 120
  pub subject : IsText 256 p.subject
  pub wallet : IsText 256 p.wallet_id
  pub sandbox : IsText 256 p.sandbox_id
  pub audience : IsText 256 p.audience
  pub nettype : IsText 32 p.nettype

normalize_non_empty-IsText :
    (value label : String) (max_len : ℕ) (s : String)
    → normalize_non_empty value label max_len ≡ ok s
    → IsText max_len s
unfolding normalize_non_empty
normalize_non_empty-IsText value label max_len s h =
    let same : trim value ≡ s = ground arith in
    rw (← same) (record { trimmed = trim_idem value; inked = ground arith; bounded = ground arith })

required_text-IsText :
    (env : String → Option String) (cli : Option String) (role : ActionTokenRole)
    (suffix label : String) (max_len : ℕ) (s : String)
    → required_text env cli role suffix label max_len ≡ ok s
    → IsText max_len s
unfolding required_text
required_text-IsText env cli role suffix label max_len s h =
    elim (Result-cases (resolve_role_required env cli role suffix label)) [
      | inr (_, e) ↦ ground arith
      | inl (v, e) ↦ normalize_non_empty-IsText v label max_len s (ground arith)
    ]

module _ (env : String → Option String) (load_trust : Result String (Option RuntimeTrust))
    (load_vault : Result String IssuerBundle)
    (read_key : Algorithm → Result String (Unit {0})) where
  -- Parameters that are built have hexadecimal identifiers in lower case of 32 and 64 digits, a lifetime
  -- of 1 to 120 seconds, and texts that are trimmed, not blank and within their lengths.
  pub build-IsIssuable :
      (input : ActionTokenCliInput) (p : IssueActionTokenParams)
      → build_issue_params env load_trust load_vault read_key input ≡ ok p
      → IsIssuable p
  unfolding build_issue_params
  build-IsIssuable input p h0 =
      let role = input.role in
      let (trust, _, h1) = >>=-eq-ok load_trust _ h0 in
      let (id, escrow, h2) =
        >>=-eq-ok (normalize_hex_exact input.escrow_id_hex 32 "escrow_id_hex") _ h1 in
      let (t, txset, h3) =
        >>=-eq-ok (normalize_hex_exact input.txset_hash_hex 64 "txset_hash_hex") _ h2 in
      let (bundle, _, h4) = >>=-eq-ok load_vault _ h3 in
      let (algorithm, _, h5) = >>=-eq-ok (parse_algorithm bundle.algorithm) _ h4 in
      let (_, h6) = >>-eq-ok (check_trust_bundle bundle algorithm trust) _ h5 in
      let (_, h7) = >>-eq-ok (read_key algorithm) _ h6 in
      let ttl = ttl_or_default input.ttl_secs in
      let (lives, h8) = ensure-eq-ok (not (ttl == 0)) _ _ h7 in
      let (short, h9) = ensure-eq-ok (not (ltb 120 ttl)) _ _ h8 in
      let (sub, s1, h10) =
        >>=-eq-ok (required_text env input.subject role "SUBJECT" "subject" 256) _ h9 in
      let (wallet, s2, h11) =
        >>=-eq-ok (required_text env input.wallet_id role "WALLET_ID" "wallet_id" 256) _ h10 in
      let (sandbox, s3, h12) =
        >>=-eq-ok (required_text env input.sandbox_id role "SANDBOX_ID" "sandbox_id" 256) _ h11 in
      let raw =
        audience_or_sandbox (resolve_role_optional env input.audience role "AUDIENCE") sandbox in
      let (aud, s4, h13) = >>=-eq-ok (normalize_non_empty raw "audience" 256) _ h12 in
      let (net, s5, h14) =
        >>=-eq-ok (required_text env input.nettype role "NETTYPE" "nettype" 32) _ h13 in
      let fields : IsIssuable (record {
        escrow_id_hex = id;
        txset_hash_hex = t;
        role = role;
        op = input.op;
        issuer = bundle.issuer;
        ttl_secs = ttl;
        subject = sub;
        wallet_id = wallet;
        sandbox_id = sandbox;
        audience = aud;
        nettype = net;
        runtime_trust_epoch = epoch_of trust;
      }) =
        record {
          escrow = normalize_hex-IsHex input.escrow_id_hex 32 _ id escrow;
          txset = normalize_hex-IsHex input.txset_hash_hex 64 _ t txset;
          lives = ground arith;
          short = ground arith;
          subject = required_text-IsText env input.subject role _ _ 256 sub s1;
          wallet = required_text-IsText env input.wallet_id role _ _ 256 wallet s2;
          sandbox = required_text-IsText env input.sandbox_id role _ _ 256 sandbox s3;
          audience = normalize_non_empty-IsText raw _ 256 aud s4;
          nettype = required_text-IsText env input.nettype role _ _ 32 net s5;
        } in
      subst (λ q. IsIssuable q) (ok_inj h14) fields
