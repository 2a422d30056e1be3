-- ===== src/Transport/Admission/Guards.antt =====
-- Who has signed an artifact that is accepted.
use nexum_core.Common.{
  ==_iff, String, str_eq, eq_iff, ◌≡◌, subst, ◌⊎◌, inl, inr, true, false, some, List, [], ◌∷◌,
  length, arith, Option-cases,
}
use nexum_core.Common.Outcome.{Result, ok, Result-cases}
use nexum_core.Common.Rows.{any_row, find_row}
use nexum_core.Transport.Admission.{
  EscrowAdmissionSignature, EscrowAdmissionArtifact, RuntimeTrustPeer, RuntimeTrustBundle, Falcon,
  required_guard_roles, is_peer, normalize_non_empty_up_to, check_signature, check_signatures,
  verify_against_bundle,
}

-- The signature is that of the bundle's peer, who has the role.
abbrev pub SignedAs :
    Falcon → RuntimeTrustBundle → String → String → String → EscrowAdmissionSignature → Type 0
SignedAs falcon_verify bundle hash id role signature =
    (peer : RuntimeTrustPeer) × (find_row (is_peer id) bundle.peers ≡ some peer)
    × (peer.role ≡ role)
    × (peer.sig_pk_b64 ≡ signature.sig_pk_b64)
    × (falcon_verify signature.sig_pk_b64 hash signature.sig_b64 ≡ ok tt)

-- Two different roles of the guards are both.
guard_roles :
    (r q : String)
    → any_row (str_eq r) required_guard_roles ≡ true
    → any_row (str_eq q) required_guard_roles ≡ true
    → any_row (str_eq q) (r ∷ []) ≡ false
    → ((r ≡ "ag-01") × (q ≡ "ag-02")) ⊎ ((r ≡ "ag-02") × (q ≡ "ag-01"))
unfolding any_row
guard_roles r q a b c =
    ground
      (arith, eq_iff r "ag-01", eq_iff r "ag-02", eq_iff q "ag-01", eq_iff q "ag-02", eq_iff q r)

module _ (falcon_verify : Falcon) (bundle : RuntimeTrustBundle) (hash : String) where
  check_signature-SignedAs :
      (ids roles : List String) (signature : EscrowAdmissionSignature) (id role : String)
      → check_signature falcon_verify bundle hash ids roles signature ≡ ok (id, role)
      → (any_row (str_eq role) required_guard_roles ≡ true)
        × (any_row (str_eq id) ids ≡ false)
        × (any_row (str_eq role) roles ≡ false)
        × SignedAs falcon_verify bundle hash id role signature
  unfolding check_signature
  check_signature-SignedAs ids roles signature id role h =
      elim (Result-cases (
        normalize_non_empty_up_to signature.signer_id 128
          "signature.signer_id must be 1..=128 chars")) [
            | inr (e, f) ↦ ground arith
            | inl (i, f) ↦
                elim (Result-cases (
                  normalize_non_empty_up_to signature.signer_role 128
                    "signature.signer_role must be 1..=128 chars")) [
                      | inr (e, g) ↦ ground arith
                      | inl (r, g) ↦ elim (Option-cases (find_row (is_peer i) bundle.peers)) [
                        | inl n ↦ ground arith
                        | inr (peer, k) ↦ (
                          ground arith,
                          ground arith,
                          ground arith,
                          (
                            peer,
                            ground arith,
                            ground (arith, eq_iff peer.role r),
                            ground (arith, eq_iff peer.sig_pk_b64 signature.sig_pk_b64),
                            ground arith,
                          ),
                        )
                      ]
                    ]
          ]

  -- Both guards, in one of the two orders.
  abbrev pub BySignatures : List EscrowAdmissionSignature → Type 0
  BySignatures [] = ⊥
  BySignatures (a ∷ []) = ⊥
  BySignatures (a ∷ b ∷ []) =
      (i : String) × (j : String) × (str_eq i j ≡ false)
      × ((SignedAs falcon_verify bundle hash i "ag-01" a
            × SignedAs falcon_verify bundle hash j "ag-02" b)
          ⊎ (SignedAs falcon_verify bundle hash i "ag-02" a
              × SignedAs falcon_verify bundle hash j "ag-01" b))
  BySignatures (a ∷ b ∷ c ∷ rest) = ⊥

  check_signatures-BySignatures :
      (signatures : List EscrowAdmissionSignature) (roles : List String)
      → length signatures ≡ 2
      → check_signatures falcon_verify bundle hash [] [] signatures ≡ ok roles
      → BySignatures signatures
  unfolding check_signatures any_row
  check_signatures-BySignatures [] roles l h = ground arith
  check_signatures-BySignatures (a ∷ []) roles l h = ground arith
  check_signatures-BySignatures (a ∷ b ∷ c ∷ rest) roles l h = ground arith
  check_signatures-BySignatures (a ∷ b ∷ []) roles l h =
      elim (Result-cases (check_signature falcon_verify bundle hash [] [] a)) [
        | inr (e, f) ↦ ground arith
        | inl ((i, r), f) ↦
            elim (Result-cases (check_signature falcon_verify bundle hash (i ∷ []) (r ∷ []) b)) [
              | inr (e, g) ↦ ground arith
              | inl ((j, q), g) ↦
                  let (ra, _, _, sa) = check_signature-SignedAs [] [] a i r f in
                  let (rb, ib, qb, sb) = check_signature-SignedAs (i ∷ []) (r ∷ []) b j q g in
                  (
                    i,
                    j,
                    ground (arith, eq_iff i j, eq_iff j i, ib),
                    elim (guard_roles r q ra rb qb) [
                      | inl (e, k) ↦ inl (
                        subst (λ x. SignedAs falcon_verify bundle hash i x a) e sa,
                        subst (λ x. SignedAs falcon_verify bundle hash j x b) k sb,
                      )
                      | inr (e, k) ↦ inr (
                        subst (λ x. SignedAs falcon_verify bundle hash i x a) e sa,
                        subst (λ x. SignedAs falcon_verify bundle hash j x b) k sb,
                      )
                    ],
                  )
            ]
      ]

-- An artifact that is accepted was signed, by its hash, by two different peers of the trust bundle with
-- the keys that the bundle has for them, one in the role of each guard.
pub verify-BySignatures :
    (falcon_verify : Falcon) (hash_hex : EscrowAdmissionArtifact → Result String String)
    (artifact : EscrowAdmissionArtifact) (bundle : RuntimeTrustBundle)
    → verify_against_bundle falcon_verify hash_hex artifact bundle ≡ ok tt
    → (hash : String) × (hash_hex artifact ≡ ok hash)
      × BySignatures falcon_verify bundle hash artifact.signatures
unfolding verify_against_bundle
verify-BySignatures falcon_verify hash_hex artifact bundle h =
    elim (Result-cases (hash_hex artifact)) [
      | inr (e, f) ↦ ground arith
      | inl (hash, f) ↦
          elim (Result-cases
            (check_signatures falcon_verify bundle hash [] [] artifact.signatures)) [
              | inr (e, g) ↦ ground arith
              | inl (roles, g) ↦ (
                hash,
                f,
                check_signatures-BySignatures falcon_verify bundle hash artifact.signatures roles
                    (ground (arith, ==_iff (length artifact.signatures) 2)) g,
              )
            ]
    ]
