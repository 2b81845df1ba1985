-- ===== src/Obligations/Tests.antt =====
-- Runs on a small graph, and the theorems on graphs at it.
use Prim.Native.String.{◌++◌}
use mathlib.Core.Bool.{decide}
use nexus_u.Prelude.{ℕ, zero, suc, String, true, some, List, [], ◌∷◌, ok, err, ◌≡◌, refl}
use nexus_u.Obligations.Text.{strip}
use nexus_u.Obligations.Graph.{
  ObligationKind, requirement, evidence, claim, proof, ObligationStatus, opened, discharged,
  acknowledged, Severity, medium, info, depends_on, ObligationEdge, ObligationGraph, empty_graph,
  node_ids, active_ids, find_node, put_edge, remove_edge, update_node,
}
use nexus_u.Obligations.Cycles.{cycles, out_of_fuel}
use nexus_u.Obligations.Cycles.Acyclic.{Leads, cycles_complete}
use nexus_u.Obligations.Cycles.Real.{cycles_sound}
use nexus_u.Obligations.Cycles.Fuel.{cycles_ends}
use nexus_u.Obligations.Conservation.{verify_conservation}
use nexus_u.Obligations.Conservation.Accountable.{Accountable, verify_conservation-Accountable}
use nexus_u.Obligations.Promotion.{find_kind, kind_missing, required_kinds, promotion_allowed}
use nexus_u.Obligations.Promotion.Allowed.{Promotable, promotion_allowed-Promotable}
use nexus_u.Obligations.Exec.{World, ◌>>=◌}
use nexus_u.Obligations.Operations.{
  NewNode, node_at, insert_node, record_event, insert_edge, all_evidence, link_all, close_node,
}
use nexus_u.Obligations.Operations.Commands.{Command, create, relate, discharge_by, perform_all}
use nexus_u.Obligations.Operations.Wired.{Wired, empty_graph-Wired, perform_all-Wired}
use nexus_u.Obligations.Operations.Conserved.{Conserved, perform_all-Conserved}

-- Identifiers in unary.
abbrev uuid : ℕ → String
uuid zero = "u"
uuid (suc n) = "u" ++ uuid n

abbrev new : String → ObligationKind → ObligationStatus → Severity → String → NewNode
new statement kind status severity id = record {
  new_statement = statement;
  new_kind = kind;
  new_status = status;
  new_severity = severity;
  new_blocking = true;
  new_source = "test";
  new_metadata = [];
  given_id = some id;
}

abbrev commands : List Command
commands =
    create (new "it builds" requirement opened medium "a")
    ∷ create (new "it runs" requirement opened medium "b")
    ∷ create (new "a log" evidence discharged info "e")
    ∷ relate "b" "a" depends_on []
    ∷ relate "a" "b" depends_on []
    ∷ discharge_by "a" ("e" ∷ []) "seen"
    ∷ []

abbrev nothing_yet : World
nothing_yet = record { graph = empty_graph; drawn = 0 }

abbrev after : World
after = perform_all uuid commands nothing_yet

-- The edge that would close a cycle is refused, and the first requirement is no longer active.
after_active : active_ids after.graph ≡ "b" ∷ []
unfolding perform_all active_ids cycles ◌>>=◌ node_at find_node strip insert_node record_event
    insert_edge put_edge all_evidence link_all remove_edge close_node update_node
after_active = refl

no_cycle_after : cycles after.graph ≡ ok []
unfolding perform_all cycles ◌>>=◌ node_at find_node strip insert_node record_event insert_edge
    put_edge all_evidence link_all remove_edge close_node update_node
no_cycle_after = refl

cycles_complete_example : ¬ Leads (node_ids after.graph.nodes) after.graph.edges "a" "a"
cycles_complete_example = cycles_complete after.graph no_cycle_after "a"

abbrev dependency : String → String → ObligationEdge
dependency x y = record {
  source = x;
  target = y;
  relation = depends_on;
  metadata = [];
  edge_id = x;
}

abbrev circular : ObligationGraph
circular = record after.graph { edges = dependency "a" "b" ∷ dependency "b" "a" ∷ [] }

abbrev circles : List (List String)
circles = ("a" ∷ "b" ∷ "a" ∷ []) ∷ []

cycle_found : cycles circular ≡ ok circles
unfolding perform_all cycles ◌>>=◌ node_at find_node strip insert_node record_event insert_edge
    put_edge all_evidence link_all remove_edge close_node update_node
cycle_found = refl

found-nonempty : ¬ (circles ≡ [])
found-nonempty e = cc

cycles_sound_example : (z : String) × Leads (node_ids circular.nodes) circular.edges z z
cycles_sound_example = cycles_sound circular _ cycle_found found-nonempty

cycles_ends_example : ¬ (cycles after.graph ≡ err out_of_fuel)
cycles_ends_example = cycles_ends after.graph

perform_all-Conserved_example : Conserved nothing_yet (perform_all uuid commands nothing_yet)
perform_all-Conserved_example = perform_all-Conserved uuid commands nothing_yet

audit_passes : verify_conservation after.graph ≡ ok []
unfolding active_ids perform_all verify_conservation cycles ◌>>=◌ node_at find_node strip
    insert_node record_event insert_edge put_edge all_evidence link_all remove_edge close_node
    update_node
audit_passes = refl

nothing-Wired : Wired nothing_yet.graph
nothing-Wired = empty_graph-Wired

perform_all-Wired_example : Wired (perform_all uuid commands nothing_yet).graph
perform_all-Wired_example = perform_all-Wired uuid commands nothing_yet nothing-Wired

verify_conservation-Accountable_example : Accountable after.graph
verify_conservation-Accountable_example = verify_conservation-Accountable after.graph audit_passes

abbrev proved : ObligationGraph
proved =
    (perform_all uuid
      (create (new "it holds" claim acknowledged medium "c")
        ∷ create (new "by a proof" proof acknowledged medium "p")
        ∷ create (new "a log" evidence discharged info "e")
        ∷ [])
      nothing_yet).graph

promotion_passes : promotion_allowed "KERNEL_VERIFIED" proved ≡ ok true
unfolding promotion_allowed active_ids perform_all verify_conservation cycles ◌>>=◌ node_at
    find_node strip insert_node record_event find_kind kind_missing required_kinds decide
promotion_passes = refl

promotion_allowed-Promotable_example : Promotable "KERNEL_VERIFIED" proved
promotion_allowed-Promotable_example =
    promotion_allowed-Promotable "KERNEL_VERIFIED" proved promotion_passes
