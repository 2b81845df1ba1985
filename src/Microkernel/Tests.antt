-- ===== src/Microkernel/Tests.antt =====
-- The schema of the microkernel, its mutations, and the theorems on inference at the schema.
use mathlib.Core.Bool.{decide}
use nexus_u.Prelude.{true, String, [], ◌∷◌, map, ok, err, ◌≡◌, ◌≢◌, refl}
use nexus_u.Microkernel.{
  Term, hyp, imp, atom, bottom, lookup, declared, infer, unknown_hypothesis, shadowed_hypothesis,
  not_declared_decidable, lam, app,
}
use nexus_u.Microkernel.Meaning.{Holds, AllHold, AllDecided, infer-Holds, infer_consistent}
use nexus_u.Microkernel.Schema.{
  schema_theorem, schema_proof, schema_decidable, mutations, mutation_results,
}

schema_infers : infer schema_decidable schema_proof [] ≡ ok schema_theorem
unfolding infer decide
schema_infers = refl

-- How each mutation is refused.
mutations_refused :
    map (λ m. infer m.1 m.0 []) mutations
    ≡ err unknown_hypothesis
      ∷ err shadowed_hypothesis
      ∷ err unknown_hypothesis
      ∷ err not_declared_decidable
      ∷ err unknown_hypothesis
      ∷ []
unfolding infer decide
mutations_refused = refl

suite_passes : mutation_results ≡ true ∷ true ∷ true ∷ true ∷ true ∷ []
unfolding mutation_results decide
suite_passes = refl

-- Every atom holds.
abbrev Everywhere : String → Type 0
Everywhere x = Unit

nothing_decided : AllDecided Everywhere []
unfolding declared
nothing_decided a e = cc

nothing_assumed : AllHold Everywhere []
unfolding lookup
nothing_assumed x a e = cc

abbrev weakening : Term
weakening = lam "p" (atom "p") (lam "f" (imp (atom "p") (atom "q")) (app (hyp "f") (hyp "p")))

weakening_infers :
    infer [] weakening [] ≡ ok (imp (atom "p") (imp (imp (atom "p") (atom "q")) (atom "q")))
unfolding infer decide
weakening_infers = refl

infer-Holds_example : Holds Everywhere (imp (atom "p") (imp (imp (atom "p") (atom "q")) (atom "q")))
infer-Holds_example =
    infer-Holds Everywhere [] nothing_decided weakening [] weakening_infers nothing_assumed

infer_consistent_example : infer schema_decidable schema_proof [] ≢ ok bottom
infer_consistent_example = infer_consistent schema_decidable schema_proof
