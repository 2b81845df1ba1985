-- ===== src/LowerBounds/Firewall.antt =====
-- What a promotion that is accepted says of the candidate.
use nexus_u.Prelude.{
  Bool, true, false, ◌&&◌, ◌≡◌, refl, Option, none, some, List, [], ◌∷◌, ◌++◌, inl, inr, Bool-cases,
  str_eq, str_eq→eq, arith,
}
use nexus_u.LowerBounds.{
  ClaimStatus, opened, AuditDecision, accept, accept_restricted, ObstructionKind, MachineModel,
  ProblemDefinition, CandidateClaim, problem_of,
}
use nexus_u.LowerBounds.Audit.{
  is_open, is_proof, is_counting, crosses_models, note_if, obstructions_of, model_of,
  audit_candidate, unobstructed, decided, audit_on, audit_for, only_open_premise,
}

abbrev pub is_accepted : AuditDecision → Bool
is_accepted accept = true
is_accepted accept_restricted = true
is_accepted _ = false

-- The candidate does not name two different machines for its evidence and its conclusion. It may
-- name one or none, and the machine of the target problem is not compared with either.
pub data Unmoved (c : CandidateClaim) : Type 0 where
  no_source : c.source_model_id ≡ "" → Unmoved c
  no_target : c.target_model_id ≡ "" → Unmoved c
  same : c.source_model_id ≡ c.target_model_id → Unmoved c

-- Nothing obstructs the candidate on the machine of its target.
pub record Clear (c : CandidateClaim) (target : MachineModel) : Type 0 where
  pub same_model : Unmoved c
  pub in_scope : c.flag "restricted_scope" && c.flag "universalize" ≡ false
  pub not_counting : is_counting c.evidence_kind ≡ false
  pub transferred :
      c.flag "circuit_result" && str_eq target.access_pattern "sequential_tapes" ≡ false
  pub premises_closed : c.flag "depends_on_open_premise" ≡ false
  pub overhead_checked : c.flag "reduction_overhead_unchecked" ≡ false

-- The status that is allowed, and why.
pub data Allowed (c : CandidateClaim) (status : ClaimStatus) : Type 0 where
  recorded_open : status ≡ opened → c.requested_status ≡ opened → Allowed c status
  by_proof : status ≡ c.requested_status → is_proof c.evidence_kind ≡ true → Allowed c status

pub record Promoted (c : CandidateClaim) (models : List MachineModel)
    (problems : List ProblemDefinition) (status : ClaimStatus) : Type 0 where
  pub target_problem : ProblemDefinition
  pub known : problem_of c.target_problem_id problems ≡ some target_problem
  pub target : MachineModel
  pub modelled : model_of target_problem.machine_model_id models ≡ some target
  pub clear : Clear c target
  pub allowed : Allowed c status

append-nil : (xs ys : List ObstructionKind) → xs ++ ys ≡ [] → (xs ≡ []) × (ys ≡ [])
append-nil [] ys h = (refl, h)
append-nil (x ∷ xs) ys h = absurd cc

not_noted : (b : Bool) (o : ObstructionKind) → note_if b o ≡ [] → b ≡ false
unfolding note_if
not_noted true o h = absurd cc
not_noted false o h = refl

crosses_models-Unmoved : (c : CandidateClaim) → crosses_models c ≡ false → Unmoved c
unfolding crosses_models
crosses_models-Unmoved c h = elim (Bool-cases (str_eq c.source_model_id "")) [
  | inl p ↦ no_source (str_eq→eq _ _ p)
  | inr p ↦ elim (Bool-cases (str_eq c.target_model_id "")) [
    | inl q ↦ no_target (str_eq→eq _ _ q)
    | inr q ↦ same (str_eq→eq _ _ (ground (arith, p, q, h)))
  ]
]

obstructions_of-Clear :
    (c : CandidateClaim) (target : MachineModel) (models : List MachineModel)
    → obstructions_of c target models ≡ []
    → Clear c target
unfolding obstructions_of
obstructions_of-Clear c target models h =
    let (h₁, overhead) = append-nil _ _ h in
    let (h₂, premises) = append-nil _ _ h₁ in
    let (h₃, circuit) = append-nil _ _ h₂ in
    let (h₄, reversible) = append-nil _ _ h₃ in
    let (h₅, counting) = append-nil _ _ h₄ in
    let (h₆, scope) = append-nil _ _ h₅ in
    let (h₇, models_differ) = append-nil _ _ h₆ in
    record {
      same_model = crosses_models-Unmoved c (not_noted _ _ models_differ);
      in_scope = not_noted _ _ scope;
      not_counting = not_noted _ _ counting;
      transferred = not_noted _ _ circuit;
      premises_closed = not_noted _ _ premises;
      overhead_checked = not_noted _ _ overhead;
    }

is_open-opened : (s : ClaimStatus) → is_open s ≡ true → s ≡ opened
is_open-opened opened h = refl
is_open-opened _ h = absurd cc

unobstructed-Allowed :
    (c : CandidateClaim)
    → is_accepted (unobstructed c).decision ≡ true
    → Allowed c (unobstructed c).allowed_status
unobstructed-Allowed c h = elim (Bool-cases (is_proof c.evidence_kind)) [
  | inl p ↦ by_proof (rw p refl) p
  | inr p ↦ elim (Bool-cases (is_open c.requested_status)) [
    | inl q ↦ recorded_open (rw (p, q) refl) (is_open-opened _ q)
    | inr q ↦ absurd (let r = rw (p, q) at h in cc)
  ]
]

obstructed-rejected :
    (c : CandidateClaim) (o : ObstructionKind) (os : List ObstructionKind)
    → is_accepted (decided c (o ∷ os)).decision ≡ false
obstructed-rejected c o os = elim (Bool-cases (only_open_premise (o ∷ os))) [
  | inl p ↦ rw p refl
  | inr p ↦ rw p refl
]

decided-Allowed :
    (c : CandidateClaim) (found : List ObstructionKind)
    → is_accepted (decided c found).decision ≡ true
    → (found ≡ []) × Allowed c (decided c found).allowed_status
decided-Allowed c [] h = (refl, unobstructed-Allowed c h)
decided-Allowed c (o ∷ os) h = absurd (let q = obstructed-rejected c o os in cc)

module _ (c : CandidateClaim) (models : List MachineModel) (problems : List ProblemDefinition) where
  audit_on-Promoted :
      (p : ProblemDefinition)
      → problem_of c.target_problem_id problems ≡ some p
      → (target : Option MachineModel) → model_of p.machine_model_id models ≡ target
      → is_accepted (audit_on c models target).decision ≡ true
      → Promoted c models problems (audit_on c models target).allowed_status
  audit_on-Promoted p e none m h = absurd cc
  audit_on-Promoted p e (some target) m h =
      let (nothing, a) = decided-Allowed c (obstructions_of c target models) h in
      record {
        target_problem = p;
        known = e;
        target = target;
        modelled = m;
        clear = obstructions_of-Clear c target models nothing;
        allowed = a;
      }

  audit_for-Promoted :
      (p : Option ProblemDefinition)
      → problem_of c.target_problem_id problems ≡ p
      → is_accepted (audit_for c models p).decision ≡ true
      → Promoted c models problems (audit_for c models p).allowed_status
  audit_for-Promoted none e h = absurd cc
  audit_for-Promoted (some p) e h = audit_on-Promoted p e _ refl h

  -- The audit accepts a candidate only if its target problem and the machine of that are
  -- registered, it does not name two different machines as the source and the target of its evidence
  -- (it may name one or none, and neither need be the machine of its target problem), it is not
  -- flagged as a restricted result made universal, as depending on an open premise, as having an
  -- unchecked overhead, or, where the target's machine has sequential tapes, as a circuit result, its
  -- evidence is not a count of information, and either the evidence is a proof and the status allowed
  -- is the one requested, or that is OPEN.
  pub audit_candidate-Promoted :
      is_accepted (audit_candidate c models problems).decision ≡ true
      → Promoted c models problems (audit_candidate c models problems).allowed_status
  unfolding audit_candidate
  audit_candidate-Promoted h = audit_for-Promoted _ refl h
