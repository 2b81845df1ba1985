-- ===== src/Record.antt =====
-- src/nexus_u/core/models.py: the record that a run fills in. Times and the metadata of events are
-- left out, and so are the fields that only repeat the obligation graph.
use nexus_u.Prelude.{ℕ, String, Bool, false, Option, none, List, []}
use nexus_u.Obligations.Graph.{Metadata}
use nexus_u.Claims.{Evidence, Claim}
use nexus_u.StateMachine.{RunStatus, intake}
use nexus_u.Policy.Decision.{PolicyDecision}

-- A stage is a status, or the name of a gate.
pub data Stage : Type 0 where
  at_status : RunStatus → Stage
  at_gate : String → Stage

pub record StageEvent : Type 0 where
  pub stage : Stage
  pub status : String
  pub message : String

-- A dictionary among the `obligation_results` of an output; a missing entry is none.
pub record RawResult : Type 0 where
  pub result_statement : String
  pub result_kind : Option String
  pub result_severity : Option String
  pub result_blocking : Option Bool
  pub result_summary : Option String
  pub result_success : Bool
  pub result_metadata : Metadata

-- What is read of an output: `str(output)`, its length in bytes, `json.dumps(output)`, and the
-- dictionaries in its `obligation_results`, which is empty where that is not a list.
pub record Output : Type 0 where
  pub shown : String
  pub shown_bytes : ℕ
  pub dumped : String
  pub obligation_results : List RawResult

abbrev pub no_output : Output
no_output = record { shown = "{}"; shown_bytes = 2; dumped = "{}"; obligation_results = [] }

-- src/nexus_u/adapters/base.py
pub record AdapterResult : Type 0 where
  pub success : Bool
  pub output : Output
  pub evidence : List Evidence
  pub obligations : List String

pub record ArtifactRecord : Type 0 where
  pub artifact_id : String
  pub status : RunStatus
  pub output : Output
  pub claims : List Claim
  pub events : List StageEvent
  pub unresolved_obligations : List String
  pub policy_decisions : List PolicyDecision
  pub audit_root : Option String
  pub reproducible : Bool
  pub released : Bool

abbrev pub new_record : String → ArtifactRecord
new_record x = record {
  artifact_id = x;
  status = intake;
  output = no_output;
  claims = [];
  events = [];
  unresolved_obligations = [];
  policy_decisions = [];
  audit_root = none;
  reproducible = false;
  released = false;
}
