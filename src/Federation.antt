-- ===== src/Federation.antt =====
-- src/nexus_u/federation/ledger.py and models.py: the ledger of signed evidence of several
-- organizations. Trust weights are whole numbers of some unit; times are whole numbers.
pub mod Quorum
pub mod Verified
pub mod Signed
pub mod Merge
pub mod Tests
use mathlib.Core.Bool.{decide}
use nexus_u.Prelude.{
  ℕ, suc, String, Bool, true, false, not, ◌&&◌, ◌||◌, ◌==◌, Option, none, some, List, [], ◌∷◌, ◌++◌,
  ok, err, ◌>>=◌, length, contains, any, all, ltb, leb, str_eq, if◌then◌else◌,
}
use nexus_u.Prelude

pub data ActorRole : Type 0 where
  contributor reviewer verifier security compliance release_manager owner : ActorRole

unfoldable pub ActorRole-discrete : Discrete ActorRole
ActorRole-discrete = hlevel

pub data EvidenceVerdict : Type 0 where
  supports refutes inconclusive : EvidenceVerdict

pub record FederationActor : Type 0 where
  pub actor_id : String
  pub organization_id : String
  pub roles : List ActorRole
  pub key_id : String
  pub trust_weight : ℕ
  pub authority_scopes : List String
  pub active : Bool

-- The fields that the ledger reads. A text that is None is the empty text here.
pub record EvidenceSubmission : Type 0 where
  pub submission_id : String
  pub obligation_id : String
  pub actor : String
  pub organization : String
  pub verdict : EvidenceVerdict
  pub summary : String
  pub evidence_digest : String
  pub provenance_group : String
  pub scope : String
  pub created_at : ℕ
  pub signature : String
  pub signing_key : String

pub record FederationLedger : Type 0 where
  pub actors : List FederationActor
  pub secrets : List (String × String)
  pub submissions : List EvidenceSubmission
  pub dependencies : List (String × Bool)

abbrev pub empty_ledger : FederationLedger
empty_ledger = record { actors = []; secrets = []; submissions = []; dependencies = [] }

-- The errors of a submission, by their messages.
pub data SubmissionError : Type 0 where
  unknown_actor inactive_actor organization_mismatch key_mismatch missing_signature :
      SubmissionError
  signature_mismatch invalid_digest missing_group lacks_authority : SubmissionError

pub data FederationError : Type 0 where
  already_registered : String → FederationError
  weight_not_positive unknown_or_inactive wrong_organization missing_secret : FederationError
  rejected : List SubmissionError → FederationError

abbrev pub FederationResult {ℓ} : Type ℓ → Type ℓ
FederationResult A = Prelude.Result FederationError A

abbrev pub text_length : String → ℕ
text_length String.[] = 0
text_length (String.◌∷◌ c t) = suc (text_length t)

-- `self.actors.get(x)`
unfoldable pub actor_of : String → List FederationActor → Option FederationActor
actor_of x [] = none
actor_of x (a ∷ rest) = if str_eq a.actor_id x then some a else actor_of x rest

unfoldable pub value_at : {A : Type 0} → String → List (String × A) → Option A
value_at x [] = none
value_at x ((y, a) ∷ rest) = if str_eq y x then some a else value_at x rest

-- `d[x] = a`: a new key goes to the end.
unfoldable pub put_value : {A : Type 0} → String → A → List (String × A) → List (String × A)
put_value x a [] = (x, a) ∷ []
put_value x a ((y, b) ∷ rest) =
    let later = put_value x a rest in if str_eq y x then (y, a) ∷ rest else (y, b) ∷ later

unfoldable pub put_submission :
    EvidenceSubmission → List EvidenceSubmission → List EvidenceSubmission
put_submission e [] = e ∷ []
put_submission e (d ∷ ds) =
    let rest = put_submission e ds in
    if str_eq d.submission_id e.submission_id then e ∷ ds else d ∷ rest

abbrev pub is_none {ℓ} : {A : Type ℓ} → Option A → Bool
is_none none = true
is_none (some a) = false

unfoldable pub register_actor :
    FederationActor → String → FederationLedger → FederationResult FederationLedger
unfolding actor_of put_value
register_actor actor secret l =
    if not (is_none (actor_of actor.actor_id l.actors))
    then err (already_registered actor.actor_id)
    else if actor.trust_weight == 0
    then err weight_not_positive
    else ok (record l {
      actors = l.actors ++ actor ∷ [];
      secrets = put_value actor.actor_id secret l.secrets;
    })

unfoldable pub mark_dependency : String → Bool → FederationLedger → FederationLedger
unfolding put_value
mark_dependency x satisfied l = record l { dependencies = put_value x satisfied l.dependencies }

abbrev pub error_if : Bool → SubmissionError → List SubmissionError
error_if b e = if b then e ∷ [] else []

abbrev pub no_errors {ℓ} : {A : Type ℓ} → List A → Bool
no_errors [] = true
no_errors (x ∷ xs) = false

-- `hmac_sign` of a submission without its signature: the keyed digest is a parameter.
module _ (hmac_sign : EvidenceSubmission → String → String) where
  abbrev pub signing_payload : EvidenceSubmission → EvidenceSubmission
  signing_payload e = record e { signature = "" }

  -- A secret that is missing raises KeyError.
  abbrev pub signed_with :
      FederationActor → Option String → EvidenceSubmission → FederationResult EvidenceSubmission
  signed_with a none e = err missing_secret
  signed_with a (some secret) e =
      let keyed = record e { signing_key = a.key_id } in
      ok (record keyed { signature = hmac_sign (signing_payload keyed) secret })

  abbrev pub sign_as :
      FederationLedger
      → Option FederationActor
      → EvidenceSubmission
      → FederationResult EvidenceSubmission
  sign_as l none e = err unknown_or_inactive
  sign_as l (some a) e =
      if not a.active
      then err unknown_or_inactive
      else if not (str_eq a.organization_id e.organization)
      then err wrong_organization
      else signed_with a (value_at a.actor_id l.secrets) e

  unfoldable pub sign_submission :
      FederationLedger → EvidenceSubmission → FederationResult EvidenceSubmission
  unfolding actor_of value_at
  sign_submission l e = sign_as l (actor_of e.actor l.actors) e

  -- `secret is None or not hmac_verify(...)`, where `hmac_verify` compares with the digest.
  abbrev pub signature_fails : Option String → EvidenceSubmission → Bool
  signature_fails none e = true
  signature_fails (some secret) e = not (str_eq (hmac_sign (signing_payload e) secret) e.signature)

  abbrev pub errors_of :
      FederationLedger → Option FederationActor → EvidenceSubmission → List SubmissionError
  errors_of l none e = unknown_actor ∷ []
  errors_of l (some a) e =
      error_if (not a.active) inactive_actor
      ++ error_if (not (str_eq a.organization_id e.organization)) organization_mismatch
      ++ error_if (not (str_eq e.signing_key a.key_id)) key_mismatch
      ++ (if str_eq e.signature ""
          then missing_signature ∷ []
          else error_if (signature_fails (value_at a.actor_id l.secrets) e) signature_mismatch)
      ++ error_if (str_eq e.evidence_digest "" || not (text_length e.evidence_digest == 64))
          invalid_digest
      ++ error_if (str_eq e.provenance_group "") missing_group
      ++ error_if
          (not (contains e.scope a.authority_scopes) && not (contains "*" a.authority_scopes))
          lacks_authority

  -- The errors; the submission is valid if there are none.
  unfoldable pub verify_submission : FederationLedger → EvidenceSubmission → List SubmissionError
  unfolding actor_of value_at
  verify_submission l e = errors_of l (actor_of e.actor l.actors) e

  abbrev pub signed_first :
      FederationLedger → EvidenceSubmission → FederationResult EvidenceSubmission
  signed_first l e = if str_eq e.signature "" then sign_submission l e else ok e

  abbrev pub stored :
      FederationLedger
      → EvidenceSubmission
      → List SubmissionError
      → FederationResult FederationLedger
  stored l e [] = ok (record l { submissions = put_submission e l.submissions })
  stored l e (x ∷ xs) = err (rejected (x ∷ xs))

  -- The ledger after the call; what the source returns is the submission.
  unfoldable pub submit : EvidenceSubmission → FederationLedger → FederationResult FederationLedger
  unfolding sign_submission verify_submission put_submission
  submit e l = do signed ← signed_first l e; stored l signed (verify_submission l signed)
