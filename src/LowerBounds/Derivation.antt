-- ===== src/LowerBounds/Derivation.antt =====
-- src/nexus_u/lower_bounds/engine.py, `_derive_reduction_claims`: the claims that the registered
-- reductions give.
use nexus_u.Obligations.Text.{join}
use nexus_u.Prelude
use nexus_u.Prelude.{
  ℕ, String, Bool, true, false, not, ◌&&◌, ◌||◌, Option, none, some, List, [], ◌∷◌, ◌++◌, ok, err,
  ◌>>=◌, any, str_eq, if◌then◌else◌,
}
use nexus_u.LowerBounds.{
  BoundKind, upper, lower, ClaimStatus, published_result, conditional_theorem, proved_reduction,
  ProblemDefinition, BoundClaim, ReductionRecord, is_established, problem_of,
}

-- `problems[x]` raises KeyError.
pub data DerivationError : Type 0 where
  missing_problem : String → DerivationError

abbrev pub Derivation {ℓ} : Type ℓ → Type ℓ
Derivation A = Prelude.Result DerivationError A

abbrev pub is_lower : BoundKind → Bool
is_lower lower = true
is_lower upper = false

-- A lower bound of the premise's complexity for the source problem that is established.
unfoldable pub establishes_premise : ReductionRecord → BoundClaim → Bool
establishes_premise r c =
    is_lower c.kind
    && str_eq c.problem_id r.source_problem_id
    && str_eq c.complexity r.premise_bound
    && is_established c.status

abbrev pub derived_claim : ReductionRecord → ClaimStatus → List String → BoundClaim
derived_claim r status assumptions = record {
  claim_id = join "derived:" r.reduction_id;
  problem_id = r.target_problem_id;
  kind = lower;
  complexity = r.consequence_bound;
  status = status;
  evidence_kind = proved_reduction;
  source_ids = r.source_ids;
  assumptions = assumptions;
}

abbrev pub conditional_claim : ReductionRecord → Option ProblemDefinition → Derivation BoundClaim
conditional_claim r none = err (missing_problem r.source_problem_id)
conditional_claim r (some p) = ok (
    derived_claim r conditional_theorem
      (join "Establish " (join r.premise_bound (join " for " p.name)) ∷ r.assumptions))

unfoldable pub derive_claim :
    List BoundClaim → List ProblemDefinition → ReductionRecord → Derivation BoundClaim
unfolding establishes_premise problem_of
derive_claim claims problems r =
    if is_established r.status && any (establishes_premise r) claims
    then ok (derived_claim r published_result [])
    else conditional_claim r (problem_of r.source_problem_id problems)

unfoldable pub derive_reduction_claims :
    List ReductionRecord → List BoundClaim → List ProblemDefinition → Derivation (List BoundClaim)
unfolding derive_claim
derive_reduction_claims [] claims problems = ok []
derive_reduction_claims (r ∷ rs) claims problems = do
  c ← derive_claim claims problems r
  rest ← derive_reduction_claims rs claims problems
  ok (c ∷ rest)
