-- ===== src/Obligations/Operations/Started.antt =====
-- Building the graph of a task, as one of the changes that are walked through.
use nexus_u.Prelude.{ℕ, String, ◌≡◌, refl, Option, none, some, List, [], ◌∷◌, str_eq}
use nexus_u.Obligations.Graph.{Relation}
use nexus_u.Obligations.Exec.{World, Exec, ◌>>=◌, raise, return, invalid_value}
use nexus_u.Obligations.Operations.{NewNode}
use nexus_u.Obligations.Operations.FromTask.{value_or, add_related, add_initial, from_task}
use nexus_u.Obligations.Operations.Steps.{
  Stepwise, Steps, steps, Steps-bind, Steps-if, Steps-add_node, Steps-add_edge, Steps-checkpoint,
}
use nexus_u.Task.{TaskSpec, InitialObligation}

module _ {uuid : ℕ → String} {R : World → World → Type 0} (stepwise : Stepwise uuid R) where
  step :
      {A B : Type 0} {m : Exec A} {f : A → Exec B}
      → Steps R m
      → ((a : A) → Steps R (f a))
      → Steps R (m >>= f)
  step h k = Steps-bind stepwise.both h k

  Steps-value_or :
      {A : Type 0} (parse : String → Option A) (a : A) (o : Option String)
      → Steps R (value_or parse a o)
  Steps-value_or parse a none = steps stepwise.same
  Steps-value_or {A} parse a (some s) = named (parse s)
    where
      named :
          (o : Option A)
          → Steps R (elim o as (λ _. Exec A) [ none ↦ raise (invalid_value s) | some b ↦ return b ])
      named none = steps stepwise.same
      named (some b) = steps stepwise.same

  Steps-add_related :
      (make : String → NewNode) (r : Relation) (x : String) (texts : List String)
      → ((t : String) → (make t).given_id ≡ none)
      → Steps R (add_related uuid make r x texts)
  unfolding add_related
  Steps-add_related make r x [] h = steps stepwise.same
  Steps-add_related make r x (t ∷ ts) h =
      step (Steps-add_node stepwise (make t) (h t))
        (λ y. step (Steps-add_edge stepwise y x r []) (λ _. Steps-add_related make r x ts h))

  Steps-add_initial : (raws : List InitialObligation) → Steps R (add_initial uuid raws)
  unfolding add_initial
  Steps-add_initial [] = steps stepwise.same
  Steps-add_initial (raw ∷ rest) = Steps-if (str_eq raw.raw_statement "") (Steps-add_initial rest) (
      step (Steps-value_or _ _ raw.raw_kind) (λ kind.
        step (Steps-value_or _ _ raw.raw_status) (λ status.
          step (Steps-value_or _ _ raw.raw_severity)
            (λ severity. step (Steps-add_node stepwise _ refl) (λ _. Steps-add_initial rest)))))

  pub Steps-from_task : (task : TaskSpec) → Steps R (from_task uuid task)
  unfolding from_task
  Steps-from_task task = step (Steps-add_node stepwise _ refl) (λ x.
      step (Steps-add_related _ _ x task.assumptions (λ t. refl)) (λ _.
        step (Steps-add_related _ _ x task.success_conditions (λ t. refl)) (λ _.
          step (Steps-add_related _ _ x task.prohibited_shortcuts (λ t. refl)) (λ _.
            step (Steps-add_initial task.initial_obligations) (λ _. Steps-checkpoint stepwise _)))))
