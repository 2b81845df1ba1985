-- ===== src/Planner/Steps.antt =====
-- The steps of a plan, described without the loop that collects them.
use nexus_u.Prelude.{
  String, true, List, [], ◌∷◌, ◌++◌, ◌≡◌, refl, sym, ap, ◌∙◌, inl, inr, ◌||◌, contains, str_eq,
  str_eq→eq, Bool-cases, arith, if◌then◌else◌,
}
use nexus_u.Planner.{
  TaskMode, mode_steps, TaskSpec, add_step, add_steps, collect_steps, build_workflow_plan,
}

-- The texts of the second list that are not in the first.
abbrev pub without : List String → List String → List String
without old [] = []
without old (x ∷ xs) = let rest = without old xs in if contains x old then rest else x ∷ rest

-- The first occurrence of each text, in order.
abbrev pub first_occurrences : List String → List String
first_occurrences [] = []
first_occurrences (x ∷ xs) = x ∷ without (x ∷ []) (first_occurrences xs)

-- The steps of the modes, one mode after the other.
abbrev pub all_steps : List TaskMode → List String
all_steps [] = []
all_steps (m ∷ ms) = mode_steps m ++ all_steps ms

contains-append :
    (x y : String) (xs : List String) → contains x (xs ++ y ∷ []) ≡ (contains x xs || str_eq y x)
contains-append x y [] = ground arith
contains-append x y (z ∷ xs) = ground (arith, contains-append x y xs)

append_assoc : (xs ys zs : List String) → (xs ++ ys) ++ zs ≡ xs ++ (ys ++ zs)
append_assoc [] ys zs = refl
append_assoc (x ∷ xs) ys zs = ap (λ l. x ∷ l) (append_assoc xs ys zs)

append-nil : (xs : List String) → xs ++ [] ≡ xs
append-nil [] = refl
append-nil (x ∷ xs) = ap (λ l. x ∷ l) (append-nil xs)

-- Leaving out a text that is left out anyway.
without_old :
    (y : String) (old zs : List String)
    → contains y old ≡ true
    → without old (without (y ∷ []) zs) ≡ without old zs
without_old y old [] h = refl
without_old y old (z ∷ zs) h = elim (Bool-cases (str_eq y z)) [
  | inl same ↦
      let p : contains z old ≡ true = rw (str_eq→eq y z same) at h in
      rw (same, p) (without_old y old zs h)
  | inr differ ↦ elim (Bool-cases (contains z old)) [
    | inl p ↦ rw (differ, p) (without_old y old zs h)
    | inr p ↦ rw (differ, p) (ap (λ l. z ∷ l) (without_old y old zs h))
  ]
]

without_both :
    (y : String) (old zs : List String)
    → without old (without (y ∷ []) zs) ≡ without (old ++ y ∷ []) zs
without_both y old [] = refl
without_both y old (z ∷ zs) = elim (Bool-cases (str_eq y z)) [
  | inl same ↦ elim (Bool-cases (contains z old)) [
    | inl p ↦ rw (contains-append z y old, same, p) (without_both y old zs)
    | inr p ↦ rw (contains-append z y old, same, p) (without_both y old zs)
  ]
  | inr differ ↦ elim (Bool-cases (contains z old)) [
    | inl p ↦ rw (contains-append z y old, differ, p) (without_both y old zs)
    | inr p ↦ rw (contains-append z y old, differ, p) (ap (λ l. z ∷ l) (without_both y old zs))
  ]
]

without_none : (zs : List String) → without [] zs ≡ zs
without_none [] = refl
without_none (z ∷ zs) = ap (λ l. z ∷ l) (without_none zs)

add_steps_lem :
    (ys old : List String) → add_steps ys old ≡ old ++ without old (first_occurrences ys)
unfolding add_steps add_step
add_steps_lem [] old = sym (append-nil old)
add_steps_lem (y ∷ ys) old = elim (Bool-cases (contains y old)) [
  | inl p ↦
      rw p (
        add_steps_lem ys old
        ∙ ap (λ l. old ++ l) (sym (without_old y old (first_occurrences ys) p)))
  | inr p ↦ rw p (
      add_steps_lem ys (old ++ y ∷ [])
      ∙ append_assoc old (y ∷ []) _
      ∙ ap (λ l. old ++ y ∷ l) (sym (without_both y old (first_occurrences ys))))
]

add_steps-append :
    (xs ys old : List String) → add_steps (xs ++ ys) old ≡ add_steps ys (add_steps xs old)
unfolding add_steps
add_steps-append [] ys old = refl
add_steps-append (x ∷ xs) ys old = add_steps-append xs ys (add_step x old)

collect_steps-all_steps :
    (ms : List TaskMode) (old : List String) → collect_steps ms old ≡ add_steps (all_steps ms) old
unfolding collect_steps add_steps
collect_steps-all_steps [] old = refl
collect_steps-all_steps (m ∷ ms) old =
    collect_steps-all_steps ms (add_steps (mode_steps m) old)
    ∙ sym (add_steps-append (mode_steps m) (all_steps ms) old)

-- The steps of a plan are the steps of the task's modes, one mode after the other, of which each
-- stands only where it occurs first.
pub build_workflow_plan_lem :
    (task : TaskSpec) → (build_workflow_plan task).steps ≡ first_occurrences (all_steps task.modes)
unfolding build_workflow_plan
build_workflow_plan_lem task =
    collect_steps-all_steps task.modes []
    ∙ add_steps_lem (all_steps task.modes) []
    ∙ without_none (first_occurrences (all_steps task.modes))
