-- ===== src/Obligations/Operations/Every.antt =====
-- What holds from before to after any sequence of calls, if it holds of the changes they are made of.
use nexus_u.Prelude.{
  ℕ, String, false, ◌≡◌, Option, none, some, List, [], ◌∷◌, ◌++◌, contains, str_eq, Bool-cases, inl,
  inr,
}
use nexus_u.Obligations.Graph.{node_ids, active_ids}
use nexus_u.Obligations.Text.{strip}
use nexus_u.Obligations.Exec.{World, ◌>>=◌}
use nexus_u.Obligations.Operations.{
  NewNode, created, record_event, chosen_id, insert_node, add_node,
}
use nexus_u.Obligations.Operations.Commands.{
  Command, create, relate, discharge_by, refute_by, defer_for, escalate_to, transfer_to, mark,
  perform, perform_all,
}
use nexus_u.Obligations.Operations.Steps.{
  Stepwise, Steps, steps, steps_of, Steps-bind, Steps-if, Steps-add_edge, Steps-discharge,
  Steps-refute, Steps-defer, Steps-escalate, Steps-transfer, Steps-checkpoint,
}

-- With every identifier that a caller gives, too.
pub record StepwiseGiven (uuid : ℕ → String) (R : World → World → Type 0) : Type 0 where
  pub stepwise : Stepwise uuid R
  pub given :
      (w : World) (new : NewNode) (x : String)
      → contains x (node_ids w.graph.nodes) ≡ false
      → R w
          (record w { graph = record w.graph { nodes = w.graph.nodes ++ created uuid new x ∷ [] } })

module _ {uuid : ℕ → String} {R : World → World → Type 0} (every : StepwiseGiven uuid R) where
  stepwise : Stepwise uuid R
  stepwise = every.stepwise

  Steps-given_node :
      (new : NewNode) (x : String) (before : List String) → Steps R (insert_node uuid new x before)
  unfolding insert_node ◌>>=◌ record_event
  Steps-given_node new x before = steps λ w.
      elim (Bool-cases (contains x (node_ids w.graph.nodes))) [
        | inl h ↦ rw h (stepwise.same w)
        | inr h ↦ rw h (stepwise.both w _ _ (every.given w new x h) (stepwise.noted _ _))
      ]

  Steps-chosen_id : (given : Option String) → Steps R (chosen_id uuid given)
  Steps-chosen_id none = steps stepwise.drew
  Steps-chosen_id (some x) = Steps-if (str_eq x "") (steps stepwise.drew) (steps stepwise.same)

  Steps-create : (new : NewNode) → Steps R (add_node uuid new)
  unfolding add_node
  Steps-create new = Steps-if (str_eq (strip new.new_statement) "") (steps stepwise.same) (
      Steps-bind stepwise.both (steps stepwise.same) (λ g.
        Steps-bind stepwise.both (Steps-chosen_id new.given_id)
          (λ x. Steps-given_node new x (active_ids g))))

  Steps-perform : (c : Command) (w : World) → R w (perform uuid c w)
  unfolding perform
  Steps-perform (create new) w = steps_of (Steps-create new) w
  Steps-perform (relate s t r m) w = steps_of (Steps-add_edge stepwise s t r m) w
  Steps-perform (discharge_by x es reason) w = steps_of (Steps-discharge stepwise x es reason) w
  Steps-perform (refute_by x es reason) w = steps_of (Steps-refute stepwise x es reason) w
  Steps-perform (defer_for x reason rs) w = steps_of (Steps-defer stepwise x reason rs) w
  Steps-perform (escalate_to x reason o) w = steps_of (Steps-escalate stepwise x reason o) w
  Steps-perform (transfer_to x t r reason) w = steps_of (Steps-transfer stepwise x t r reason) w
  Steps-perform (mark operation) w = steps_of (Steps-checkpoint stepwise operation) w

  pub Steps-perform_all : (cs : List Command) (w : World) → R w (perform_all uuid cs w)
  unfolding perform_all
  Steps-perform_all [] w = stepwise.same w
  Steps-perform_all (c ∷ cs) w =
      stepwise.both w _ _ (Steps-perform c w) (Steps-perform_all cs (perform uuid c w))
