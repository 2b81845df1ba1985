-- ===== src/Kernel/Tests.antt =====
-- Runs of the kernel on concrete terms, and the theorems of the kernel at concrete inputs.
use mathlib.Core.Bool.{decide}
use Prim.Native.String.{◌++◌}
use package.text.Mathlib.TextLemmas.{append_cancel_left}
use nexus_u.Prelude.{
  arith, ◌≤◌, ℕ, Option, some, none, String, none, some, [], ◌∷◌, map, ok, err, ◌>>=◌, ◌≡◌, refl,
  false, if◌then◌else◌, str_eq,
}
use nexus_u.Kernel.Ast.{Term, sort, var, const, pi, lam, app}
use nexus_u.Kernel.Fault.{type_check_error}
use nexus_u.Kernel.Ops.{substitute_top, node_count, max_depth}
use nexus_u.Kernel.Ops.Instantiate.{substitute_top_lem}
use nexus_u.Kernel.Subst.{instantiate}
use nexus_u.Kernel.Environment.{
  Declaration, Environment, empty_environment, add_unchecked, get, axioms,
}
use nexus_u.Kernel.Environment.Lookup.{get-add_unchecked}
use nexus_u.Kernel.Core.{NexusKernel, default_limits, whnf, normalize, convertible_with_budget}
use nexus_u.Kernel.Reduction.{IsNormal}
use nexus_u.Kernel.Reduction.Normal.{normalize-IsNormal}
use nexus_u.Kernel.Reduction.Terminates.{Ends}
use nexus_u.Kernel.Rules.{Typed}
use nexus_u.Kernel.Typing.{infer, verify, declare_axiom, declare_definition}
use nexus_u.Kernel.Typing.Sound.{IsTheorem, infer_sound, verify_sound}
use nexus_u.Kernel.Typing.Terminates.{infer-Ends, verify-Ends}
use nexus_u.Kernel.Typing.Declare.{
  IsCheckedEnvironment, declare_axiom-IsCheckedEnvironment, declare_definition-IsCheckedEnvironment,
}
use nexus_u.Kernel.Surface.{SurfaceTerm, ssort, slam, svar, elaborate}
use nexus_u.Kernel.Surface.Scope.{IsScoped, elaborate-IsScoped, rename, elaborate-rename}
use nexus_u.Kernel.Codec.{Json, number, text, term_to_dict, term_from_dict}
use nexus_u.Kernel.Codec.RoundTrip.{term_from_dict-term_to_dict}
use nexus_u.Kernel.Theorems.{sensitivity_to_query_core}

abbrev kernel : NexusKernel
kernel = record { environment = empty_environment; limits = default_limits }

-- The bundled proof checks, and rests on no axiom.
bundled_checks :
    (do (theorem, proof) ← sensitivity_to_query_core; verify kernel 20 proof theorem)
    ≡ ok (45, 14, 27, [])
unfolding sensitivity_to_query_core verify whnf convertible_with_budget decide axioms
bundled_checks = refl

-- The polymorphic identity, and a use of it that reduces.
abbrev identity_type : Term
identity_type = pi (sort 0) (pi (var 0) (var 1))

abbrev identity : Term
identity = lam (sort 0) (lam (var 0) (var 0))

abbrev reducible : Term
reducible = app (lam (sort 2) (app (lam (sort 2) (var 0)) (var 0))) (sort 1)

-- The body of a lambda of the wrong type is refused.
wrong_proof : verify kernel 20 (lam (sort 0) (var 0)) identity_type ≡ err type_check_error
unfolding verify whnf convertible_with_budget decide
wrong_proof = refl

identity_verifies : verify kernel 20 identity identity_type ≡ ok (5, 3, 5, [])
unfolding verify whnf convertible_with_budget decide axioms
identity_verifies = refl

verify_sound_example : IsTheorem kernel 20 identity identity_type
verify_sound_example = verify_sound kernel 20 identity identity_type identity_verifies

reducible_infers : infer kernel 20 reducible [] ≡ ok (sort 2)
unfolding infer node_count max_depth whnf convertible_with_budget decide
reducible_infers = refl

infer_sound_example : Typed empty_environment [] reducible (sort 2)
infer_sound_example = infer_sound kernel 20 reducible [] reducible_infers

infer-Ends_example : Ends (λ f. infer kernel f reducible [])
infer-Ends_example = infer-Ends kernel reducible []

verify-Ends_example : Ends (λ f. verify kernel f identity identity_type)
verify-Ends_example = verify-Ends kernel identity identity_type

substitute_top_lem_example :
    substitute_top (sort 0) (lam (var 0) (app (var 2) (var 1)))
    ≡ ok (instantiate (sort 0) (lam (var 0) (app (var 2) (var 1))))
substitute_top_lem_example = substitute_top_lem (sort 0) (lam (var 0) (app (var 2) (var 1)))

reducible_normalizes : normalize kernel 20 reducible 0 ≡ ok (sort 1, 2)
unfolding normalize
reducible_normalizes = refl

normalize-IsNormal_example : IsNormal empty_environment (sort 1)
normalize-IsNormal_example = normalize-IsNormal kernel 20 reducible 0 reducible_normalizes

abbrev atom_type : Declaration
atom_type = record { name = "A"; type = sort 0; value = none; opaque = false }

abbrev one_axiom : Environment
one_axiom = record { decls = atom_type ∷ [] }

abbrev alias : Declaration
alias = record { name = "B"; type = sort 0; value = some (const "A"); opaque = false }

one_axiom_added : add_unchecked alias one_axiom ≡ ok (record { decls = atom_type ∷ alias ∷ [] })
unfolding add_unchecked
one_axiom_added = refl

get-add_unchecked_example :
    get (record { decls = atom_type ∷ alias ∷ [] }) "A"
    ≡ (if str_eq alias.name "A" then ok alias else get one_axiom "A")
get-add_unchecked_example = get-add_unchecked alias one_axiom "A" one_axiom_added

nothing_declared : IsCheckedEnvironment empty_environment
unfolding get
nothing_declared x d e = cc

axiom_declared :
    declare_axiom kernel 20 "A" (sort 0) ≡ ok (record kernel { environment = one_axiom })
unfolding declare_axiom whnf add_unchecked
axiom_declared = refl

declare_axiom-IsCheckedEnvironment_example : IsCheckedEnvironment one_axiom
declare_axiom-IsCheckedEnvironment_example =
    declare_axiom-IsCheckedEnvironment kernel 20 nothing_declared "A" (sort 0) axiom_declared

one_axiom_checked : IsCheckedEnvironment one_axiom
one_axiom_checked =
    declare_axiom-IsCheckedEnvironment kernel 20 nothing_declared "A" (sort 0) axiom_declared

abbrev extended : NexusKernel
extended = record kernel { environment = one_axiom }

alias_declared :
    declare_definition extended 20 "B" (sort 0) (const "A") false
    ≡ ok (record kernel { environment = record { decls = atom_type ∷ alias ∷ [] } })
unfolding declare_definition whnf convertible_with_budget decide add_unchecked node_count max_depth
alias_declared = refl

declare_definition-IsCheckedEnvironment_example :
    IsCheckedEnvironment (record { decls = atom_type ∷ alias ∷ [] })
declare_definition-IsCheckedEnvironment_example =
    declare_definition-IsCheckedEnvironment extended 20 one_axiom_checked "B" (sort 0) (const "A")
      false alias_declared

abbrev named : SurfaceTerm
named = slam "A" (ssort 0) (slam "x" (svar "A") (svar "x"))

named_elaborates : elaborate named [] ≡ ok identity
unfolding elaborate
named_elaborates = refl

elaborate-IsScoped_example : IsScoped 0 identity
elaborate-IsScoped_example = elaborate-IsScoped named [] named_elaborates

-- Every name marked by a prefix.
abbrev marked : String → String
marked x = "v" ++ x

elaborate-rename_example : elaborate (rename marked named) (map marked []) ≡ elaborate named []
elaborate-rename_example = elaborate-rename marked (append_cancel_left "v") named []

-- `int` and `str` on the values that the encoder writes.
abbrev int_of : Json → Option ℕ
int_of (number n) = some n
int_of _ = none

abbrev str_of : Json → String
str_of (text x) = x
str_of _ = "?"

identity_fits : max_depth identity ≤ 10001
unfolding max_depth
identity_fits = omega arith

term_from_dict-term_to_dict_example :
    term_from_dict int_of str_of 10001 (term_to_dict identity) ≡ ok identity
term_from_dict-term_to_dict_example =
    term_from_dict-term_to_dict int_of str_of (λ n. refl) (λ x. refl) identity 10001 identity_fits
      (tt, (tt, tt))
