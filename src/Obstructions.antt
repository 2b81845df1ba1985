-- ===== src/Obstructions.antt =====
-- src/nexus_u/core/obstructions.py: the codes of obstructions and the strategies that answer them.
use nexus_u.Prelude.{String, List, [], ◌∷◌, ◌≢◌}

pub data ObstructionCode : Type 0 where
  false_claim premise shape representation missing_lemma library : ObstructionCode
  type_mismatch algorithm implementation test environment model : ObstructionCode
  data_defect safety risk resource numeric causal : ObstructionCode
  compliance evidence drift circularity budget unknown : ObstructionCode

pub record Obstruction : Type 0 where
  pub code : ObstructionCode
  pub summary : String
  pub evidence : List String

-- `ROUTES`
unfoldable pub routes : ObstructionCode → List String
routes false_claim = "REJECT_AND_ARCHIVE_COUNTEREXAMPLE" ∷ []
routes premise = "EXPOSE_ASSUMPTION" ∷ "NARROW_SCOPE" ∷ []
routes shape = "SEARCH_ARTIFACT_SHAPE" ∷ []
routes representation = "ADD_TRANSPORT_LAYER" ∷ []
routes missing_lemma = "GENERATE_LOAD_BEARING_SUBARTIFACT" ∷ []
routes library = "SEARCH_REUSABLE_COMPONENTS" ∷ []
routes type_mismatch = "REPAIR_SCHEMA_OR_INTERFACE" ∷ []
routes algorithm = "SWITCH_ALGORITHM" ∷ "DECOMPOSE" ∷ []
routes implementation = "LOCAL_REPAIR" ∷ []
routes test = "REPAIR_BEHAVIOR" ∷ "REVIEW_TEST_ORACLE" ∷ []
routes environment = "REPAIR_ENVIRONMENT" ∷ []
routes model = "REFIT_OR_REPLACE_MODEL" ∷ []
routes data_defect = "CORRECT_EXPAND_OR_REJECT_DATA" ∷ []
routes safety = "SHIELD_CONSTRAIN_OR_HALT" ∷ []
routes risk = "RETYPE_RISK_AND_REESTIMATE" ∷ []
routes resource = "LOWER_COMPRESS_DEGRADE_OR_REJECT" ∷ []
routes numeric = "BOUND_ERROR_AND_RECOMPUTE" ∷ []
routes causal = "REBUILD_CAUSAL_MODEL" ∷ []
routes compliance = "ESCALATE_POLICY_REVIEW" ∷ []
routes evidence = "LOWER_CLAIM_STATUS" ∷ []
routes drift = "REJECT_TRANSFORMATION" ∷ []
routes circularity = "REJECT_CONSTRUCTION" ∷ []
routes budget = "DECOMPOSE_SHELF_OR_ESCALATE" ∷ []
routes unknown = "COLLECT_MORE_EVIDENCE" ∷ []

unfoldable pub route : Obstruction → List String
unfolding routes
route obstruction = routes obstruction.code

-- Every code has a strategy.
routes-ne-nil : (c : ObstructionCode) → routes c ≢ []
unfolding routes
routes-ne-nil false_claim e = cc
routes-ne-nil premise e = cc
routes-ne-nil shape e = cc
routes-ne-nil representation e = cc
routes-ne-nil missing_lemma e = cc
routes-ne-nil library e = cc
routes-ne-nil type_mismatch e = cc
routes-ne-nil algorithm e = cc
routes-ne-nil implementation e = cc
routes-ne-nil test e = cc
routes-ne-nil environment e = cc
routes-ne-nil model e = cc
routes-ne-nil data_defect e = cc
routes-ne-nil safety e = cc
routes-ne-nil risk e = cc
routes-ne-nil resource e = cc
routes-ne-nil numeric e = cc
routes-ne-nil causal e = cc
routes-ne-nil compliance e = cc
routes-ne-nil evidence e = cc
routes-ne-nil drift e = cc
routes-ne-nil circularity e = cc
routes-ne-nil budget e = cc
routes-ne-nil unknown e = cc

-- Every obstruction is answered by at least one strategy.
pub route-ne-nil : (o : Obstruction) → route o ≢ []
unfolding route
route-ne-nil o = routes-ne-nil o.code
