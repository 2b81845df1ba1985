-- ===== src/Task.antt =====
-- src/nexus_u/core/models.py: what a run reads of a task. Of the free-form `inputs` it keeps which
-- flags are set and the roles that have approved.
use nexus_u.Prelude.{String, Bool, Option, List}
use nexus_u.Obligations.Graph.{Metadata}
use nexus_u.Resources.{ResourceBudget}
use nexus_u.Planner.{TaskMode}
use nexus_u.Planner

pub data ArtifactType : Type 0 where
  theorem_ software model simulation policy experiment architecture document : ArtifactType
  creative_work : ArtifactType

unfoldable pub type_name : ArtifactType → String
type_name theorem_ = "theorem"
type_name software = "software"
type_name model = "model"
type_name simulation = "simulation"
type_name policy = "policy"
type_name experiment = "experiment"
type_name architecture = "architecture"
type_name document = "document"
type_name creative_work = "creative_work"

-- A dictionary of `initial_obligations`: a text that is missing is none, and so is a missing flag.
pub record InitialObligation : Type 0 where
  pub raw_statement : String
  pub raw_kind : Option String
  pub raw_status : Option String
  pub raw_severity : Option String
  pub raw_blocking : Option Bool
  pub raw_source : Option String
  pub raw_metadata : Metadata

-- `flag name` is `bool(task.inputs.get(name, False))`, and `approved_roles` the roles of the
-- dictionaries in `inputs["approvals"]`. An entry of `initial_obligations` that is not a dictionary
-- is left out.
pub record TaskSpec : Type 0 where
  pub task_id : String
  pub intent : String
  pub artifact_type : ArtifactType
  pub modes : List TaskMode
  pub success_conditions : List String
  pub prohibited_shortcuts : List String
  pub assumptions : List String
  pub adapter : String
  pub budget : ResourceBudget
  pub initial_obligations : List InitialObligation
  pub flag : String → Bool
  pub approved_roles : List String

-- The fields that the planner reads.
abbrev pub planned : TaskSpec → Planner.TaskSpec
planned task = record { task_id = task.task_id; adapter = task.adapter; modes = task.modes }
