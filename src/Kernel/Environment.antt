-- ===== src/Kernel/Environment.antt =====
-- src/nexus_u/kernel/environment.py: declarations by name, in the order in which they were added.
pub mod Lookup
use nexus_u.Prelude.{
  String, Bool, true, false, Option, none, some, List, [], ◌∷◌, ◌++◌, ok, err, ◌>>=◌, str_eq, any,
  if◌then◌else◌,
}
use nexus_u.Kernel.Ast.{Term}
use nexus_u.Kernel.Fault.{Result, value_error, key_error}

pub record Declaration : Type 0 where
  pub name : String
  pub type : Term
  pub value : Option Term
  pub opaque : Bool

unfoldable pub is_axiom : Declaration → Bool
is_axiom d = elim d.value [ none ↦ true | some v ↦ false ]

pub record Environment : Type 0 where
  pub decls : List Declaration

abbrev pub empty_environment : Environment
empty_environment = record { decls = [] }

-- `name in self._decls`.
abbrev pub declares : String → List Declaration → Bool
declares x ds = any (λ d. str_eq d.name x) ds

unfoldable pub add_unchecked : Declaration → Environment → Result Environment
add_unchecked d env =
    if str_eq d.name ""
    then err value_error
    else if declares d.name env.decls
    then err value_error
    else ok (record { decls = env.decls ++ d ∷ [] })

unfoldable pub add_all : List Declaration → Environment → Result Environment
unfolding add_unchecked
add_all [] env = ok env
add_all (d ∷ ds) env = do env' ← add_unchecked d env; add_all ds env'

unfoldable pub lookup : String → List Declaration → Result Declaration
lookup x [] = err key_error
lookup x (d ∷ ds) = if str_eq d.name x then ok d else lookup x ds

unfoldable pub get : Environment → String → Result Declaration
unfolding lookup
get env x = lookup x env.decls

unfoldable pub names : List Declaration → List String
names [] = []
names (d ∷ ds) = d.name ∷ names ds

unfoldable pub axioms : List Declaration → List String
unfolding is_axiom
axioms [] = []
axioms (d ∷ ds) = let rest = axioms ds in if is_axiom d then d.name ∷ rest else rest
