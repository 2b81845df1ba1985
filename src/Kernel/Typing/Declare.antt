-- ===== src/Kernel/Typing/Declare.antt =====
-- The environments that the declaring operations build.
use nexus_u.Prelude.{ℕ, String, Bool, some, [], ok, ◌≡◌, inl, inr, ◌>>=◌, str_eq, Bool-cases}
use nexus_u.Prelude.Ensures.{Ensures, returns, ◌⊳◌, value_ensured, Ensures-self}
use nexus_u.Kernel.Ast.{Term}
use nexus_u.Kernel.Fault.{Result}
use nexus_u.Kernel.Environment.{Declaration, Environment, add_unchecked, get}
use nexus_u.Kernel.Environment.Lookup.{get-add_unchecked, get-add_unchecked_old}
use nexus_u.Kernel.Core.{NexusKernel}
use nexus_u.Kernel.Rules.{Typed}
use nexus_u.Kernel.Rules.Extend.{Typed-extend}
use nexus_u.Kernel.Typing.{declare_axiom, declare_definition}
use nexus_u.Kernel.Typing.Sound.{expect_sort_sound, check_sound}

-- A declaration whose type is a type, and whose value, if it has one, has that type.
pub record IsChecked (E : Environment) (d : Declaration) : Type 0 where
  pub universe : ℕ
  pub type_typed : Typed E [] d.type (Term.sort universe)
  pub value_typed : (v : Term) → d.value ≡ some v → Typed E [] v d.type

-- Whatever `get` returns is checked, in the environment as it is now.
abbrev pub IsCheckedEnvironment : Environment → Type 0
IsCheckedEnvironment E = (x : String) (d : Declaration) → get E x ≡ ok d → IsChecked E d

module _ (d : Declaration) (E : Environment) {E' : Environment}
    (added : add_unchecked d E ≡ ok E') where
  IsChecked-add : (c : Declaration) → IsChecked E c → IsChecked E' c
  IsChecked-add c h =
      let older = λ (x : String) (b : Declaration). get-add_unchecked_old d E x {c = b} added in
      record {
        universe = h.universe;
        type_typed = Typed-extend older h.type_typed;
        value_typed = λ v e. Typed-extend older (h.value_typed v e);
      }

  IsCheckedEnvironment-add : IsChecked E d → IsCheckedEnvironment E → IsCheckedEnvironment E'
  IsCheckedEnvironment-add new h x c e = elim (Bool-cases (str_eq d.name x)) [
    | inl hit ↦
        let p : d ≡ c = cc (e, get-add_unchecked d E x added, hit) in IsChecked-add c (rw p at new)
    | inr miss ↦
        let p : get E x ≡ ok c = cc (e, get-add_unchecked d E x added, miss) in
        IsChecked-add c (h x c p)
  ]

module _ (k : NexusKernel) (f : ℕ) (h : IsCheckedEnvironment k.environment) where
  abbrev Keeps : Result NexusKernel → Type 0
  Keeps = Ensures (λ k'. IsCheckedEnvironment k'.environment)

  add-Keeps :
      (d : Declaration)
      → IsChecked k.environment d
      → Keeps (do env ← add_unchecked d k.environment; ok (record k { environment = env }))
  add-Keeps d new = Ensures-self (add_unchecked d k.environment) ⊳ λ env added.
      returns (IsCheckedEnvironment-add d k.environment added new h)

  declare_axiom-Keeps : (x : String) (t : Term) → Keeps (declare_axiom k f x t)
  unfolding declare_axiom
  declare_axiom-Keeps x t = expect_sort_sound k f t [] 0 ⊳ λ (u, n) typed.
      add-Keeps _ (record { universe = u; type_typed = typed; value_typed = λ v e. cc })

  declare_definition-Keeps :
      (x : String) (t v : Term) (opaque : Bool) → Keeps (declare_definition k f x t v opaque)
  unfolding declare_definition
  declare_definition-Keeps x t v opaque = expect_sort_sound k f t [] 0 ⊳ λ (u, n) typed.
      check_sound k f v t [] ⊳ λ _ checked.
      add-Keeps (record { name = x; type = t; value = some v; opaque = opaque })
        (record {
          universe = u;
          type_typed = typed;
          value_typed = λ w e. let p : v ≡ w = cc in rw p at checked;
        })

  -- If every declaration is checked and `declare_axiom` succeeds, every declaration is checked in
  -- the new environment, the new one included.
  pub declare_axiom-IsCheckedEnvironment :
      (x : String) (t : Term) {k' : NexusKernel}
      → declare_axiom k f x t ≡ ok k'
      → IsCheckedEnvironment k'.environment
  declare_axiom-IsCheckedEnvironment x t e = value_ensured (rw e at (declare_axiom-Keeps x t))

  -- If every declaration is checked and `declare_definition` succeeds, every declaration is checked
  -- in the new environment, the new one and its value included.
  pub declare_definition-IsCheckedEnvironment :
      (x : String) (t v : Term) (opaque : Bool) {k' : NexusKernel}
      → declare_definition k f x t v opaque ≡ ok k'
      → IsCheckedEnvironment k'.environment
  declare_definition-IsCheckedEnvironment x t v opaque e =
      value_ensured (rw e at (declare_definition-Keeps x t v opaque))
