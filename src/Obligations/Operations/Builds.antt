-- ===== src/Obligations/Operations/Builds.antt =====
-- The graph of a task whose texts are not blank is built without an exception.
use nexus_u.Prelude.{
  ℕ, String, true, ◌≡◌, refl, ap, Option, none, some, List, [], ◌∷◌, ok, str_eq, Bool-cases, inl,
  inr,
}
use nexus_u.Obligations.Text.{strip-nonempty, is_space}
use nexus_u.Obligations.Graph.{Relation}
use nexus_u.Obligations.Exec.{World, Exec, return, raise, invalid_value}
use nexus_u.Obligations.Operations.{NewNode, record_event, checkpoint}
use nexus_u.Obligations.Operations.Fresh.{Fresh}
use nexus_u.Obligations.Operations.FromTask.{
  kind_of, status_of, severity_of, value_or, add_related, assumption_node, condition_node,
  shortcut_node, add_initial, from_task,
}
use nexus_u.Obligations.Operations.Wired.{Wired}
use nexus_u.Task.{TaskSpec, InitialObligation}
use nexus_u.Obligations.Operations.Gives.{
  IsWritten, Gives, gives, Gives-bind, Ready, Ready-add_node, Gives-add_linked, Gives-intent,
}

abbrev pub AllWritten : List String → Type 0
AllWritten [] = Unit
AllWritten (s ∷ ss) = IsWritten s × AllWritten ss

-- The nodes for the texts have a statement.
abbrev AllMade : (String → NewNode) → List String → Type 0
AllMade make [] = Unit
AllMade make (t ∷ ts) = IsWritten (make t).new_statement × AllMade make ts

-- A text that is missing or names a value.
abbrev pub Names : {A : Type 0} → (String → Option A) → Option String → Type 0
Names parse none = Unit
Names parse (some s) = ¬ (parse s ≡ none)

-- An entry that is left out, or that has a text and names its kind, its status and its severity.
pub data IsUsable (raw : InitialObligation) : Type 0 where
  left_out : str_eq raw.raw_statement "" ≡ true → IsUsable raw
  written :
      IsWritten raw.raw_statement
      → Names kind_of raw.raw_kind
      → Names status_of raw.raw_status
      → Names severity_of raw.raw_severity
      → IsUsable raw

abbrev pub AllUsable : List InitialObligation → Type 0
AllUsable [] = Unit
AllUsable (raw ∷ rest) = IsUsable raw × AllUsable rest

pub record Buildable (task : TaskSpec) : Type 0 where
  pub intent : IsWritten task.intent
  pub assumptions : AllWritten task.assumptions
  pub conditions : AllWritten task.success_conditions
  pub initial : AllUsable task.initial_obligations

module _ (uuid : ℕ → String) (injective : (j k : ℕ) → uuid j ≡ uuid k → j ≡ k) where
  abbrev AtRoot : String → {A : Type 0} → A → World → Type 0
  AtRoot root a w = Ready uuid injective root w

  Gives-add_related :
      (make : String → NewNode) (relation : Relation) (root : String) (texts : List String)
      (w : World)
      → ((t : String) → (make t).given_id ≡ none)
      → AllMade make texts
      → Ready uuid injective root w
      → Gives (add_related uuid make relation root texts) w (AtRoot root)
  unfolding add_related
  Gives-add_related make relation root [] w h s r = gives w tt refl r
  Gives-add_related make relation root (t ∷ ts) w h (s, ss) r =
      Gives-add_linked uuid injective root (make t) relation
        (add_related uuid make relation root ts) w (h t) s r
        (λ w' r'. Gives-add_related make relation root ts w' h ss r')

  Gives-value_or :
      {A : Type 0} (parse : String → Option A) (a : A) (o : Option String) (root : String)
      (w : World)
      → Names parse o
      → Ready uuid injective root w
      → Gives (value_or parse a o) w (AtRoot root)
  Gives-value_or parse a none root w n r = gives w a refl r
  Gives-value_or {A} parse a (some s) root w n r = named (parse s) n
    where
      named :
          (o : Option A)
          → ¬ (o ≡ none)
          → Gives
              (elim o as (λ _. Exec A) [ none ↦ raise (invalid_value s) | some b ↦ return b ])
              w
              (AtRoot root)
      named none ne = absurd (ne refl)
      named (some b) ne = gives w b refl r

  Gives-add_initial :
      (root : String) (raws : List InitialObligation) (w : World)
      → AllUsable raws
      → Ready uuid injective root w
      → Gives (add_initial uuid raws) w (AtRoot root)
  unfolding add_initial
  Gives-add_initial root [] w u r = gives w tt refl r
  Gives-add_initial root (raw ∷ rest) w (left_out e, us) r =
      rw e (Gives-add_initial root rest w us r)
  Gives-add_initial root (raw ∷ rest) w (written s k t v, us) r =
      elim (Bool-cases (str_eq raw.raw_statement "")) [
        | inl e ↦ rw e (Gives-add_initial root rest w us r)
        | inr e ↦ rw e (
            Gives-bind (Gives-value_or _ _ raw.raw_kind root w k r) (λ kind w₁ r₁.
              Gives-bind (Gives-value_or _ _ raw.raw_status root w₁ t r₁) (λ status w₂ r₂.
                Gives-bind (Gives-value_or _ _ raw.raw_severity root w₂ v r₂) (λ severity w₃ r₃.
                  Gives-bind (Ready-add_node uuid injective root _ w₃ refl s r₃)
                    (λ x w₄ r₄. Gives-add_initial root rest w₄ us r₄)))))
      ]

  shortcuts_made : (texts : List String) → AllMade (shortcut_node uuid) texts
  unfolding is_space
  shortcuts_made [] = tt
  shortcuts_made (t ∷ ts) = (strip-nonempty _ _ refl, shortcuts_made ts)

  assumptions_made : (texts : List String) → AllWritten texts → AllMade (assumption_node uuid) texts
  assumptions_made [] h = tt
  assumptions_made (t ∷ ts) (s, h) = (s, assumptions_made ts h)

  conditions_made : (texts : List String) → AllWritten texts → AllMade (condition_node uuid) texts
  conditions_made [] h = tt
  conditions_made (t ∷ ts) (s, h) = (s, conditions_made ts h)

  pub from_task-returns :
      (task : TaskSpec) (w : World)
      → Buildable task
      → Fresh uuid w
      → Wired w.graph
      → (from_task uuid task w).1 ≡ ok tt
  unfolding from_task checkpoint record_event
  from_task-returns task w b f v = returned (
      Gives-bind (Gives-intent uuid injective _ w refl b.intent f v) (λ root w₁ r₁.
        Gives-bind
          (Gives-add_related (assumption_node uuid) _ root _ w₁ (λ t. refl)
            (assumptions_made _ b.assumptions) r₁)
          (λ _ w₂ r₂.
            Gives-bind
              (Gives-add_related (condition_node uuid) _ root _ w₂ (λ t. refl)
                (conditions_made _ b.conditions) r₂)
              (λ _ w₃ r₃.
                Gives-bind
                  (Gives-add_related (shortcut_node uuid) _ root _ w₃ (λ t. refl) (shortcuts_made _)
                    r₃)
                  (λ _ w₄ r₄.
                    Gives-bind (Gives-add_initial root task.initial_obligations w₄ b.initial r₄)
                      (λ _ w₅ r₅. gives _ tt refl tt))))))
    where
      returned : {m : Exec Unit} {w : World} → Gives m w (λ a w. Unit) → (m w).1 ≡ ok tt
      returned (gives w' a e p) = ap (λ q. q.1) e
