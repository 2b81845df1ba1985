-- ===== src/Obligations/Operations/Conserved.antt =====
-- Nothing that was in the graph disappears or is rewritten, except status and metadata.
use mathlib.Core.List.{append_assoc, append-nil}
use nexus_u.Prelude.{
  ℕ, suc, String, Bool, ◌≡◌, refl, sym, ap, ◌∙◌, List, [], ◌∷◌, ◌++◌, str_eq, Bool-cases, inl, inr,
}
use nexus_u.Obligations.Graph.{
  ObligationKind, Severity, ObligationEdge, Metadata, ObligationStatus, ObligationNode, GraphEvent,
  update_node,
}
use nexus_u.Obligations.Exec.{World}
use nexus_u.Obligations.Operations.{closed, created}
use nexus_u.Obligations.Operations.Commands.{Command, perform_all}
use nexus_u.Obligations.Operations.Linked.{linked_by}
use nexus_u.Obligations.Operations.Every.{StepwiseGiven, Steps-perform_all}
use nexus_u.Obligations.Operations.Steps.{Stepwise}

-- What of a node never changes.
pub record Content : Type 0 where
  statement : String
  kind : ObligationKind
  severity : Severity
  blocking : Bool
  source : String
  node_id : String

abbrev content : ObligationNode → Content
content n = record {
  statement = n.statement;
  kind = n.kind;
  severity = n.severity;
  blocking = n.blocking;
  source = n.source;
  node_id = n.node_id;
}

unfoldable pub contents : List ObligationNode → List Content
contents [] = []
contents (n ∷ ns) = content n ∷ contents ns

contents-append : (ns ms : List ObligationNode) → contents (ns ++ ms) ≡ contents ns ++ contents ms
unfolding contents
contents-append [] ms = refl
contents-append (n ∷ ns) ms = ap (λ cs. content n ∷ cs) (contents-append ns ms)

contents-update_node :
    (x : String) (status : ObligationStatus) (entries : Metadata) (ns : List ObligationNode)
    → contents (update_node x (closed status entries) ns) ≡ contents ns
unfolding contents update_node
contents-update_node x status entries [] = refl
contents-update_node x status entries (n ∷ ns) = elim (Bool-cases (str_eq n.node_id x)) [
  | inl h ↦ rw h (ap (λ cs. content n ∷ cs) (contents-update_node x status entries ns))
  | inr h ↦ rw h (ap (λ cs. content n ∷ cs) (contents-update_node x status entries ns))
]

-- Lists that end in new members.
pub record Extends {A : Type 0} (xs ys : List A) : Type 0 where
  rest : List A
  joined : ys ≡ xs ++ rest

Extends-same : {A : Type 0} (xs : List A) → Extends xs xs
Extends-same xs = record { rest = []; joined = sym (append-nil xs) }

Extends-both : {A : Type 0} (xs ys zs : List A) → Extends xs ys → Extends ys zs → Extends xs zs
Extends-both xs ys zs h k = record {
  rest = h.rest ++ k.rest;
  joined = k.joined ∙ ap (λ l. l ++ k.rest) h.joined ∙ append_assoc xs h.rest k.rest;
}

-- The nodes keep their content and their order, and the events are only added to.
pub record Conserved (w w' : World) : Type 0 where
  nodes_kept : Extends (contents w.graph.nodes) (contents w'.graph.nodes)
  events_kept : Extends w.graph.events w'.graph.events

Conserved-same : (w : World) → Conserved w w
Conserved-same w = record { nodes_kept = Extends-same _; events_kept = Extends-same _ }

Conserved-both : (u v w : World) → Conserved u v → Conserved v w → Conserved u w
Conserved-both u v w h k = record {
  nodes_kept = Extends-both _ _ _ h.nodes_kept k.nodes_kept;
  events_kept = Extends-both _ _ _ h.events_kept k.events_kept;
}

module _ (uuid : ℕ → String) where
  Conserved-drew : (w : World) → Conserved w (record w { drawn = suc w.drawn })
  Conserved-drew w = record { nodes_kept = Extends-same _; events_kept = Extends-same _ }

  -- A change of the edges, with an event or none.
  Conserved-edges :
      (w : World) (es : List ObligationEdge)
      → Conserved w (record w { graph = record w.graph { edges = es } })
  Conserved-edges w es = record { nodes_kept = Extends-same _; events_kept = Extends-same _ }

  Conserved-note :
      (w : World) (e : GraphEvent)
      → Conserved w (record w { graph = record w.graph { events = w.graph.events ++ e ∷ [] } })
  Conserved-note w e = record {
    nodes_kept = Extends-same _;
    events_kept = record { rest = e ∷ []; joined = refl };
  }

  pub conserving : Stepwise uuid Conserved
  conserving = record {
    same = Conserved-same;
    both = Conserved-both;
    drew = Conserved-drew;
    noted = Conserved-note;
    linked =
        linked_by uuid Conserved-same Conserved-both Conserved-drew Conserved-note Conserved-edges;
    added = λ w new h. record {
      nodes_kept = record {
        rest = contents (created uuid new (uuid w.drawn) ∷ []);
        joined = contents-append _ _;
      };
      events_kept = Extends-same _;
    };
    changed = λ w x status entries. record {
      nodes_kept = record {
        rest = [];
        joined = contents-update_node x status entries _ ∙ sym (append-nil _);
      };
      events_kept = Extends-same _;
    };
  }

  conserving_given : StepwiseGiven uuid Conserved
  conserving_given = record {
    stepwise = conserving;
    given = λ w new x h. record {
      nodes_kept = record {
        rest = contents (created uuid new x ∷ []);
        joined = contents-append _ _;
      };
      events_kept = Extends-same _;
    };
  }

-- Whatever operations run, and whether they return or raise, every node that was in the graph stays
-- in it, in its place and with its identifier, statement, kind, severity, blocking flag and source,
-- and every recorded event stays in the history.
pub perform_all-Conserved :
    (uuid : ℕ → String) (cs : List Command) (w : World) → Conserved w (perform_all uuid cs w)
perform_all-Conserved uuid cs w = Steps-perform_all (conserving_given uuid) cs w
