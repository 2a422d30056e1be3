-- ===== src/Signer/Token/Verify/Claims.antt =====
-- What each check of a token's claims establishes.
use nexum_core.Common.{
  ℕ, ◌+◌, ◌≤◌, ◌<◌, String, ◌≡◌, Option, none, some, Option-cases, inl, inr, eq_iff, arith,
}
use nexum_core.Common.Text.{present}
use nexum_core.Common.Outcome.{ok, Result-cases}
use nexum_core.Signer.Token.{
  ActionClaims, ActionTokenVerifier, role_key, check_times, check_identity, check_trust, check_hash,
  normalize_hex_64,
}

abbrev pub Times : ActionTokenVerifier → ℕ → ActionClaims → Type 0
Times verifier now claims =
    (claims.iat ≤ now + verifier.clock_skew_secs)
    × (claims.iat < claims.exp)
    × (claims.nbf < claims.exp)
    × (claims.exp ≤ claims.iat + verifier.max_ttl_secs)
    × (claims.exp ≤ claims.nbf + verifier.max_ttl_secs)

abbrev pub Identity : ActionTokenVerifier → String → String → ActionClaims → Type 0
Identity verifier round escrow claims =
    (claims.role ≡ role_key verifier.signer_role)
    × (claims.sign_round ≡ round)
    × (claims.escrow_id ≡ escrow)
    × (claims.sandbox_id ≡ verifier.sandbox_id)
    × (claims.wallet_id ≡ verifier.wallet_id)

abbrev pub Trusted : Option String → ActionClaims → Type 0
Trusted none claims = Unit
Trusted (some epoch) claims = present claims.runtime_trust_epoch ≡ some epoch

-- Both are 64 hexadecimal digits, the same but for case, and `hash` is them in lower case.
abbrev pub SameHash : String → String → String → Type 0
SameHash claim expected hash =
    (normalize_hex_64 claim "" ≡ ok hash) × (normalize_hex_64 expected "" ≡ ok hash)

pub normalize-ok :
    (value e : String) (hash : String)
    → normalize_hex_64 value e ≡ ok hash
    → normalize_hex_64 value "" ≡ ok hash
unfolding normalize_hex_64
normalize-ok value e hash h = ground arith

pub check_times_lem :
    (verifier : ActionTokenVerifier) (now : ℕ) (claims : ActionClaims)
    → check_times verifier now claims ≡ ok tt
    → Times verifier now claims
unfolding check_times
check_times_lem verifier now claims h = ground arith

pub check_identity_lem :
    (verifier : ActionTokenVerifier) (round escrow : String) (claims : ActionClaims)
    → check_identity verifier round escrow claims ≡ ok tt
    → Identity verifier round escrow claims
unfolding check_identity
check_identity_lem verifier round escrow claims h = ground (
  arith,
  eq_iff claims.role (role_key verifier.signer_role),
  eq_iff claims.sign_round round,
  eq_iff claims.escrow_id escrow,
  eq_iff claims.sandbox_id verifier.sandbox_id,
  eq_iff claims.wallet_id verifier.wallet_id,
)

pub check_trust_lem :
    (epoch : Option String) (claims : ActionClaims)
    → check_trust epoch claims ≡ ok tt
    → Trusted epoch claims
unfolding check_trust
check_trust_lem none claims h = tt
check_trust_lem (some epoch) claims h = elim (Option-cases (present claims.runtime_trust_epoch)) [
  | inl n ↦ ground arith
  | inr (e, f) ↦ ground (arith, eq_iff e epoch)
]

pub check_hash_lem :
    (claim expected e f g hash : String)
    → check_hash claim expected e f g ≡ ok hash
    → SameHash claim expected hash
unfolding check_hash
check_hash_lem claim expected e f g hash h = elim (Result-cases (normalize_hex_64 claim e)) [
  | inr (_, k) ↦ ground arith
  | inl (a, k) ↦ elim (Result-cases (normalize_hex_64 expected f)) [
    | inr (_, l) ↦ ground arith
    | inl (b, l) ↦
        ground (arith, eq_iff a b, normalize-ok claim e hash, normalize-ok expected f hash)
  ]
]
