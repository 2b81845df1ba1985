-- ===== src/Policy/Decision.antt =====
-- `PolicyDecision`, its reasons and warnings by their messages.
use nexus_u.Prelude.{ℕ, String, Bool, List}
use nexus_u.Claims.{EpistemicStatus}

pub data Phase : Type 0 where
  preflight release : Phase

pub data Reason : Type 0 where
  not_allowed unavailable denied_pattern : String → Reason
  missing_approvals no_claim_record : Reason
  too_many_unresolved : ℕ → ℕ → Reason
  below_minimum : EpistemicStatus → EpistemicStatus → Reason

pub data Warning : Type 0 where
  no_assumptions no_audit_root : Warning

pub record PolicyDecision : Type 0 where
  pub allowed : Bool
  pub phase : Phase
  pub policy_id : String
  pub reasons : List Reason
  pub warnings : List Warning
  pub required_approvals : List String
