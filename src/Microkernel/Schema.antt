-- ===== src/Microkernel/Schema.antt =====
-- The decision-tree schema of the microkernel and its mutations.
use nexus_u.Prelude.{List, Bool, true, false, [], ◌∷◌, map, ok, err, if◌then◌else◌}
use nexus_u.Microkernel.{
  Formula, atom, imp, and, not, Term, hyp, lam, app, snd, dne, infer, Result, same_formula,
}

abbrev pub queried : Formula
queried = atom "queried"

abbrev pub same_transcript : Formula
same_transcript = atom "same_transcript"

abbrev pub equal_output : Formula
equal_output = atom "equal_output"

abbrev pub sensitivity : Formula
sensitivity = and same_transcript (not equal_output)

abbrev pub preserve : Formula
preserve = imp (not queried) same_transcript

abbrev pub path_exact : Formula
path_exact = imp same_transcript equal_output

-- `decision_tree_schema`: the statement, the proof and the formulas that count as decidable.
abbrev pub schema_theorem : Formula
schema_theorem = imp sensitivity (imp preserve (imp path_exact queried))

abbrev contradiction : Term
contradiction =
    app (snd (hyp "sensitivity"))
      (app (hyp "path_exact") (app (hyp "preserve") (hyp "not_queried")))

abbrev pub schema_proof : Term
schema_proof = lam "sensitivity" sensitivity (
    lam "preserve" preserve
      (lam "path_exact" path_exact (dne queried (lam "not_queried" (not queried) contradiction))))

abbrev pub schema_decidable : List Formula
schema_decidable = queried ∷ []

-- The candidates of `mutation_suite`, with the formulas that they may take as decidable.
abbrev pub mutations : List (Term × List Formula)
mutations =
    (
      lam "sensitivity" (and same_transcript equal_output)
          (lam "preserve" preserve (lam "path_exact" path_exact (hyp "queried"))),
      schema_decidable,
    )
    ∷ (
      lam "sensitivity" sensitivity (
          lam "preserve" preserve
            (lam "path_exact" (imp equal_output same_transcript) schema_proof)),
      schema_decidable,
    )
    ∷ (hyp "fabricated", schema_decidable)
    ∷ (schema_proof, [])
    ∷ (app (hyp "f") (hyp "x"), schema_decidable)
    ∷ []

-- `inferred != theorem`, or ProofError.
abbrev pub rejected : Result Formula → Bool
rejected (ok a) = if same_formula a schema_theorem then false else true
rejected (err e) = true

-- The results of `mutation_suite`, in its order.
unfoldable pub mutation_results : List Bool
unfolding infer same_formula
mutation_results = map (λ m. rejected (infer m.1 m.0 [])) mutations
