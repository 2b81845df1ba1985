-- ===== src/Pipeline/Reviews.antt =====
-- The stages of a run from the verification to the record of its provenance.
use nexus_u.Prelude.{String, Bool, not, ◌&&◌, List, [], ◌∷◌, ◌++◌, map, any, if◌then◌else◌}
use nexus_u.Claims.{
  EpistemicStatus, unknown, kernel_verified, Evidence, Claim, strongest_evidence_status,
  assign_status, same_status,
}
use nexus_u.Obligations.Text.{join}
use nexus_u.Obligations.Graph.{intent, claim, proof, safety, policy, provenance, high, critical}
use nexus_u.Obligations.Promotion.{find_kind}
use nexus_u.Obligations.Operations.{discharge, refute}
use nexus_u.Policy.{evaluate_release, occurs, is_empty, status_name}
use nexus_u.Policy.Decision.{PolicyDecision}
use nexus_u.StateMachine.{
  verified, policy_reviewed, safety_reviewed, adversarial_reviewed, partial, rejected,
}
use nexus_u.Task.{TaskSpec}
use nexus_u.Record.{AdapterResult, ArtifactRecord}
use nexus_u.Pipeline.Exec.{
  in_policy, in_adapter, Pipe, return, ◌>>=◌, on_graph, artifact, graph, edit, Adapter, Setting,
}
use nexus_u.Pipeline.Parts.{
  advance, policy_event, described, add_item, add_evidence_all, add_obligation,
  add_runtime_obligations, extend, extend_new, call, stop,
}
use nexus_u.Pipeline.Stages.{open_ids, allow_or_deny, discharge_all}

module _ (s : Setting) (task : TaskSpec) where
  abbrev pub claim_on : List Evidence → EpistemicStatus → Claim
  claim_on items requested = record {
    requested_status = requested;
    assigned_status = unknown;
    evidence = items;
    missing_obligations = [];
  }

  -- The claim that the pipeline makes about the artifact, with its status assigned.
  unfoldable pub base_claim : List Evidence → Claim
  unfolding strongest_evidence_status assign_status
  base_claim items =
      assign_status (claim_on items (strongest_evidence_status (claim_on items unknown)))

  abbrev pub or_default : List String → List String
  or_default [] = "Verification produced no acceptable evidence" ∷ []
  or_default (x ∷ xs) = x ∷ xs

  unfoldable pub accept_verification : Claim → String → List String → Pipe Unit
  unfolding find_kind open_ids status_name
  accept_verification c claim_id ids = do
    _ ←
        on_graph (
          discharge s.uuid claim_id ids (join "Evidence supports " (status_name c.assigned_status)))
    g ← graph
    _ ←
        if same_status c.assigned_status kernel_verified
        then discharge_all s task (open_ids (find_kind proof g.nodes)) ids
            "Kernel evidence accepted"
        else return tt
    advance s verified "Verification completed"

  unfoldable pub verify_stage : Adapter → AdapterResult → Pipe Unit
  unfolding base_claim
  verify_stage adapter executed_ = do
    result ← call s in_adapter (adapter.verify task executed_)
    _ ← edit (λ a. record a { output = result.output })
    _ ← extend s result.obligations
    let c = base_claim result.evidence
    _ ← edit (λ a. record a { claims = a.claims ++ c ∷ [] })
    a ← artifact
    claim_id ←
        add_obligation s
          (join "Artifact " (join a.artifact_id " satisfies its declared execution contract")) claim
          high "verification.base_claim"
    ids ← add_evidence_all s result.evidence "adapter.verify"
    if result.success && not (is_empty ids) then accept_verification c claim_id ids else (do
      _ ← extend_new s (or_default result.obligations)
      _ ←
          add_runtime_obligations s (or_default result.obligations) "adapter.verify" high
            "Verification incomplete"
      stop s partial "Verification incomplete")

  unfoldable pub apply_release : PolicyDecision → String → String → Pipe Unit
  apply_release d x e =
      if d.allowed
      then (do
        _ ← on_graph (discharge s.uuid x (e ∷ []) "Release policy allowed artifact")
        advance s policy_reviewed "Policy-as-code release gate passed")
      else (do
        _ ← on_graph (refute s.uuid x (e ∷ []) "Release policy denied artifact")
        _ ← extend s (map s.reason_text d.reasons)
        _ ←
            add_runtime_obligations s (map s.reason_text d.reasons) "policy.release" high
              "Release policy not satisfied"
        stop s rejected "Policy release gate rejected artifact")

  unfoldable pub release_stage : Pipe Unit
  unfolding evaluate_release
  release_stage = do
    x ← add_obligation s "Artifact must satisfy release policy" policy high "policy.release"
    a ← artifact
    d ← call s in_policy (evaluate_release s.lower s.policy task a)
    _ ← policy_event s d
    e ←
        add_item s (described s "policy" (join "Release decision: " (allow_or_deny d.allowed)))
          "policy.release"
    apply_release d x e

  unfoldable pub safety_stage : Pipe Unit
  safety_stage = do
    x ←
        add_obligation s "Artifact must pass scoped safety and feasibility review" safety critical
          "assurance.safety"
    e ← add_item s (described s "safety" "Safety and feasibility gate evaluated") "assurance.safety"
    if task.flag "force_safety_failure"
        then (do
          _ ← on_graph (refute s.uuid x (e ∷ []) "Safety gate forced to fail")
          _ ← extend s ("Safety gate forced to fail" ∷ [])
          _ ←
              add_runtime_obligations s ("Resolve safety gate failure" ∷ []) "assurance.safety"
                critical "Unsafe artifact"
          stop s rejected "Safety gate rejected artifact")
        else (do
          _ ← on_graph (discharge s.uuid x (e ∷ []) "Scoped safety review passed")
          advance s safety_reviewed "Safety and feasibility review passed")

  abbrev pub shortcut_taken : ArtifactRecord → Bool
  shortcut_taken a =
      any (λ shortcut. occurs (s.lower shortcut) (s.lower a.output.shown)) task.prohibited_shortcuts

  unfoldable pub review_stage : Pipe Unit
  unfolding occurs find_kind open_ids
  review_stage = do
    a ← artifact
    if shortcut_taken a
        then (do
          _ ← extend s ("Prohibited shortcut detected" ∷ [])
          _ ←
              add_runtime_obligations s ("Remove prohibited shortcut" ∷ []) "assurance.adversarial"
                high "Theorem or artifact drift detected"
          stop s rejected "Adversarial review rejected artifact")
        else (do
          e ←
              add_item s (described s "review" "Adversarial review found no intent or scope drift")
                "assurance.adversarial"
          g ← graph
          _ ←
              discharge_all s task (open_ids (find_kind intent g.nodes)) (e ∷ [])
                "Intent preserved through released artifact"
          advance s adversarial_reviewed "Adversarial review passed")

  unfoldable pub provenance_stage : Pipe Unit
  provenance_stage = do
    x ←
        add_obligation s "Released artifact must preserve provenance and obligation history"
          provenance high "assurance.provenance"
    e ←
        add_item s
          (described s "provenance" "Audit chain and obligation graph prepared for persistence")
          "assurance.provenance"
    on_graph (discharge s.uuid x (e ∷ []) "Provenance artifacts generated")
