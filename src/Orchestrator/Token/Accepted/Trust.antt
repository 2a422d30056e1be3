-- ===== src/Orchestrator/Token/Accepted/Trust.antt =====
-- The admission of an issued token passes the signer's check of the runtime trust.
use nexum_core.Common.{
  ℕ, suc, String, str_eq, ◌≡◌, refl, subst, false, Option, none, some, arith, eq_iff,
}
use nexum_core.Common.Text.{len, is_empty, present}
use nexum_core.Common.Text.Hex.{IsHex, trim_low}
use nexum_core.Common.Outcome.{ok, >>=-eq-ok, ensure-eq-ok, ok_inj}
use nexum_core.Orchestrator.Db.{EscrowAdmissionArtifactRow, normalize_hex_exact}
use nexum_core.Orchestrator.Db.Inputs.{normalize_hex-IsHex}
use nexum_core.Orchestrator.Token.{admission_hash, workflow_action_key}
use nexum_core.Orchestrator.Token.Accepted.{SameEpoch, IsHex-normalize_64}
use nexum_core.Signer.Token.{ActionClaims, check_trust}

-- The hash is there where an epoch is asked for.
abbrev pub Hashed : Option String → Option String → Type 0
Hashed none admission = Unit
Hashed (some epoch) none = ⊥
Hashed (some epoch) (some hash) = IsHex 64 hash

admission_hash-Hashed :
    (epoch : Option String) (snapshot action : String) (stored : Option EscrowAdmissionArtifactRow)
    (admission : Option String)
    → admission_hash epoch snapshot action stored ≡ ok admission
    → Hashed epoch admission
unfolding admission_hash
admission_hash-Hashed none snapshot action stored admission h = tt
admission_hash-Hashed (some e) snapshot action none admission h = cc
admission_hash-Hashed (some e) snapshot action (some row) admission h0 =
    let (_, h1) = ensure-eq-ok (str_eq row.snapshot_hash_hex snapshot) _ _ h0 in
    let (_, h2) = ensure-eq-ok (str_eq row.runtime_trust_epoch e) _ _ h1 in
    let (key, _, h3) = >>=-eq-ok (workflow_action_key action) _ h2 in
    let (_, h4) = ensure-eq-ok (str_eq row.action key) _ _ h3 in
    let (hash, n, h5) =
      >>=-eq-ok (normalize_hex_exact row.artifact_hash_hex 64 "escrow_admission_hash") _ h4 in
    subst (λ a. Hashed (some e) a) (ok_inj h5)
      (normalize_hex-IsHex row.artifact_hash_hex 64 _ hash n)

full_ink : (n : ℕ) (s : String) → len s ≡ suc n → is_empty s ≡ false
full_ink n String.[] h = absurd (omega arith)
full_ink n (String.◌∷◌ c s) h = refl

pub present_hex : (h : String) → IsHex 64 h → present (some h) ≡ some h
unfolding present
present_hex h hex = rw (trim_low h hex.low) (rw (full_ink 63 h hex.size))

check_some :
    (epoch : String) (pe admission : Option String) (claims : ActionClaims)
    → SameEpoch (some epoch) pe
    → Hashed pe admission
    → claims.runtime_trust_epoch ≡ pe
    → claims.escrow_admission_hash ≡ admission
    → check_trust (some epoch) claims ≡ ok tt
unfolding check_trust
check_some epoch none admission claims same hashed e a = absurd (ground (arith, same.0))
check_some epoch (some pe) none claims same hashed e a = absurd hashed
check_some epoch (some pe) (some hash) claims same hashed e a =
    rw (e, a, same.0, same.1)
      (rw ((eq_iff epoch epoch).1 refl, present_hex hash hashed)
        (rw (IsHex-normalize_64 hash "claims.escrow_admission_hash must be 64 hex chars" hashed)))

pub check_trust-pass :
    (verifier_epoch epoch : Option String) (snapshot action : String)
    (stored : Option EscrowAdmissionArtifactRow) (admission : Option String) (claims : ActionClaims)
    → SameEpoch verifier_epoch epoch
    → admission_hash epoch snapshot action stored ≡ ok admission
    → claims.runtime_trust_epoch ≡ epoch
    → claims.escrow_admission_hash ≡ admission
    → check_trust verifier_epoch claims ≡ ok tt
unfolding check_trust
check_trust-pass none epoch snapshot action stored admission claims same h e a = refl
check_trust-pass (some ve) epoch snapshot action stored admission claims same h e a =
    check_some ve epoch admission claims same
      (admission_hash-Hashed epoch snapshot action stored admission h) e a
