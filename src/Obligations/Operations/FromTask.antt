-- ===== src/Obligations/Operations/FromTask.antt =====
-- `from_task`: the obligations that a task starts with. The texts of the enumerations stand here too.
use nexus_u.Prelude.{
  ℕ, String, Bool, true, false, Option, none, some, List, [], ◌∷◌, str_eq, if◌then◌else◌,
}
use nexus_u.Obligations.Text.{join}
use nexus_u.Obligations.Graph.{
  ObligationKind, intent, specification, requirement, assumption, claim, test, proof, safety,
  policy, resource, risk, provenance, evidence, unknown, ObligationStatus, opened, acknowledged,
  discharged, deferred, refuted, escalated, transferred, Severity, info, low, medium, high,
  critical, Relation, supports, refines, blocks, Metadata, text,
}
use nexus_u.Obligations.Exec.{invalid_value, Exec, raise, return, ◌>>=◌}
use nexus_u.Obligations.Operations.{NewNode, given, add_node, add_edge, checkpoint}
use nexus_u.Task.{TaskSpec, InitialObligation}

unfoldable pub kind_of : String → Option ObligationKind
kind_of s =
    if str_eq s "INTENT"
    then some intent
    else if str_eq s "SPECIFICATION"
    then some specification
    else if str_eq s "REQUIREMENT"
    then some requirement
    else if str_eq s "ASSUMPTION"
    then some assumption
    else if str_eq s "CLAIM"
    then some claim
    else if str_eq s "TEST"
    then some test
    else if str_eq s "PROOF"
    then some proof
    else if str_eq s "SAFETY"
    then some safety
    else if str_eq s "POLICY"
    then some policy
    else if str_eq s "RESOURCE"
    then some resource
    else if str_eq s "RISK"
    then some risk
    else if str_eq s "PROVENANCE"
    then some provenance
    else if str_eq s "EVIDENCE"
    then some evidence
    else if str_eq s "UNKNOWN"
    then some unknown
    else none

unfoldable pub status_of : String → Option ObligationStatus
status_of s =
    if str_eq s "OPEN"
    then some opened
    else if str_eq s "ACKNOWLEDGED"
    then some acknowledged
    else if str_eq s "DISCHARGED"
    then some discharged
    else if str_eq s "DEFERRED"
    then some deferred
    else if str_eq s "REFUTED"
    then some refuted
    else if str_eq s "ESCALATED"
    then some escalated
    else if str_eq s "TRANSFERRED"
    then some transferred
    else none

unfoldable pub severity_of : String → Option Severity
severity_of s =
    if str_eq s "INFO"
    then some info
    else if str_eq s "LOW"
    then some low
    else if str_eq s "MEDIUM"
    then some medium
    else if str_eq s "HIGH"
    then some high
    else if str_eq s "CRITICAL"
    then some critical
    else none

-- The value of an entry: the default if it is missing, and ValueError if its text names nothing.
abbrev pub value_or : {A : Type 0} → (String → Option A) → A → Option String → Exec A
value_or {A} parse default none = return default
value_or {A} parse default (some s) = elim (parse s) as (λ _. Exec A) [
  | none ↦ raise (invalid_value s)
  | some a ↦ return a
]

module _ (uuid : ℕ → String) where
  -- The metadata is empty and the identifier is drawn.
  abbrev pub node :
      String → ObligationKind → ObligationStatus → Severity → Bool → String → Metadata → NewNode
  node statement kind status severity blocking source metadata = record {
    new_statement = statement;
    new_kind = kind;
    new_status = status;
    new_severity = severity;
    new_blocking = blocking;
    new_source = source;
    new_metadata = metadata;
    given_id = none;
  }

  -- A node for each text, with an edge to the intent.
  unfoldable pub add_related : (String → NewNode) → Relation → String → List String → Exec Unit
  add_related make relation intent_id [] = return tt
  add_related make relation intent_id (statement ∷ rest) = do
    x ← add_node uuid (make statement)
    _ ← add_edge uuid x intent_id relation []
    add_related make relation intent_id rest

  abbrev pub assumption_node : String → NewNode
  assumption_node s = node s assumption acknowledged medium false "task.assumptions" []

  abbrev pub condition_node : String → NewNode
  condition_node s =
      node s requirement opened high true "task.success_conditions"
        (("required_for", text "release") ∷ [])

  abbrev pub shortcut_node : String → NewNode
  shortcut_node s =
      node (join "Prohibited shortcut must not appear: " s) policy acknowledged high false
        "task.prohibited_shortcuts" (("shortcut", text s) ∷ [])

  unfoldable pub add_initial : List InitialObligation → Exec Unit
  unfolding kind_of status_of severity_of
  add_initial [] = return tt
  add_initial (raw ∷ rest) =
      let later = add_initial rest in
      if str_eq raw.raw_statement "" then later else (do
        kind ← value_or kind_of unknown raw.raw_kind
        status ← value_or status_of opened raw.raw_status
        severity ← value_or severity_of medium raw.raw_severity
        _ ← add_node uuid (
            node raw.raw_statement kind status severity (given raw.raw_blocking true)
              (given raw.raw_source "task.initial_obligations") raw.raw_metadata)
        later)

  -- On the empty graph.
  unfoldable pub from_task : TaskSpec → Exec Unit
  unfolding add_related add_initial
  from_task task = do
    intent_id ← add_node uuid (
        node task.intent intent opened high true "task.intent"
          (("task_id", text task.task_id) ∷ []))
    _ ← add_related assumption_node supports intent_id task.assumptions
    _ ← add_related condition_node refines intent_id task.success_conditions
    _ ← add_related shortcut_node blocks intent_id task.prohibited_shortcuts
    _ ← add_initial task.initial_obligations
    checkpoint uuid "task_initialized"
