-- ===== src/Federation/Signed.antt =====
-- A submission that the ledger signs verifies, but for what signing does not look at.
use nexus_u.Prelude.{
  String, true, false, not, ◌&&◌, ◌||◌, ◌==◌, ◌≡◌, refl, ap, ◌∙◌, Option, none, some, List, ◌++◌,
  ok, contains, str_eq, str_eq_refl, Bool-cases, inl, inr,
}
use nexus_u.Federation.{
  FederationActor, EvidenceSubmission, FederationLedger, SubmissionError, invalid_digest,
  missing_group, lacks_authority, text_length, actor_of, value_at, error_if, signing_payload,
  signed_with, sign_as, sign_submission, errors_of, verify_submission,
}

-- The errors of the digest, of the provenance group and of the scope.
abbrev pub content_errors : FederationActor → EvidenceSubmission → List SubmissionError
content_errors a e =
    error_if (str_eq e.evidence_digest "" || not (text_length e.evidence_digest == 64))
      invalid_digest
    ++ error_if (str_eq e.provenance_group "") missing_group
    ++ error_if (not (contains e.scope a.authority_scopes) && not (contains "*" a.authority_scopes))
        lacks_authority

module _ (hmac_sign : EvidenceSubmission → String → String)
    (nonempty : (e : EvidenceSubmission) (secret : String) → str_eq (hmac_sign e secret) "" ≡ false)
    (l : FederationLedger) where
  signed_with-errors_of :
      (a : FederationActor) (e e' : EvidenceSubmission) (o : Option String)
      → a.active ≡ true
      → str_eq a.organization_id e.organization ≡ true
      → value_at a.actor_id l.secrets ≡ o
      → signed_with hmac_sign a o e ≡ ok e'
      → errors_of hmac_sign l (some a) e' ≡ content_errors a e
  signed_with-errors_of a e e' none active member stored h = cc
  signed_with-errors_of a e e' (some secret) active member stored h =
      let keyed : EvidenceSubmission = record e { signing_key = a.key_id } in
      let digest = hmac_sign (signing_payload hmac_sign keyed) secret in
      let same : e' ≡ record keyed { signature = digest } = cc in
      rw
        (
          same,
          active,
          member,
          stored,
          str_eq_refl a.key_id,
          nonempty (signing_payload hmac_sign keyed) secret,
          str_eq_refl digest,
        )
        refl

  sign_as-errors_of :
      (o : Option FederationActor) (a : FederationActor) (e e' : EvidenceSubmission)
      → o ≡ some a
      → sign_as hmac_sign l o e ≡ ok e'
      → errors_of hmac_sign l (some a) e' ≡ content_errors a e
  sign_as-errors_of none a e e' p h = cc
  sign_as-errors_of (some b) a e e' p h =
      let q : b ≡ a = cc in
      elim (Bool-cases b.active) [
        | inr f ↦ absurd (let k = rw f at h in cc)
        | inl t ↦ elim (Bool-cases (str_eq b.organization_id e.organization)) [
          | inr f ↦ absurd (let k = rw (t, f) at h in cc)
          | inl m ↦ rw⁻¹ q (signed_with-errors_of b e e' _ t m refl (rw (t, m) at h))
        ]
      ]

  signed_with_actor :
      (a : FederationActor) (o : Option String) (e e' : EvidenceSubmission)
      → signed_with hmac_sign a o e ≡ ok e'
      → e'.actor ≡ e.actor
  signed_with_actor a none e e' h = cc
  signed_with_actor a (some secret) e e' h = cc

  signed_actor :
      (o : Option FederationActor) (e e' : EvidenceSubmission)
      → sign_as hmac_sign l o e ≡ ok e'
      → e'.actor ≡ e.actor
  signed_actor none e e' h = cc
  signed_actor (some a) e e' h = elim (Bool-cases a.active) [
    | inr f ↦ absurd (let k = rw f at h in cc)
    | inl t ↦ elim (Bool-cases (str_eq a.organization_id e.organization)) [
      | inr f ↦ absurd (let k = rw (t, f) at h in cc)
      | inl m ↦ signed_with_actor a (value_at a.actor_id l.secrets) e e' (rw (t, m) at h)
    ]
  ]

  -- If signing returns, no signature is the empty text and the actor is registered, what the ledger
  -- finds wrong with the signed submission is exactly what is wrong with its digest, its provenance
  -- group and its scope: the actor, the organization, the key and the signature are right.
  pub verify_submission-sign_submission :
      (a : FederationActor) (e e' : EvidenceSubmission)
      → actor_of e.actor l.actors ≡ some a
      → sign_submission hmac_sign l e ≡ ok e'
      → verify_submission hmac_sign l e' ≡ content_errors a e
  unfolding sign_submission verify_submission
  verify_submission-sign_submission a e e' p h =
      ap (λ o. errors_of hmac_sign l o e')
        (ap (λ x. actor_of x l.actors) (signed_actor (actor_of e.actor l.actors) e e' h) ∙ p)
      ∙ sign_as-errors_of (actor_of e.actor l.actors) a e e' p h
