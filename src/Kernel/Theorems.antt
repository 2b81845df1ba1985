-- ===== src/Kernel/Theorems.antt =====
-- src/nexus_u/kernel/theorems.py: the surface theorem and proof of the sensitivity lemma, and their
-- core terms.
use nexus_u.Prelude.{ok, ◌>>=◌, []}
use nexus_u.Kernel.Ast.{Term}
use nexus_u.Kernel.Fault.{Result}
use nexus_u.Kernel.Surface.{
  SurfaceTerm, svar, ssort, spi, slam, sapp, ssum, scase, sempty, sempty_elim, elaborate,
}

unfoldable pub arrow : SurfaceTerm → SurfaceTerm → SurfaceTerm
arrow a b = spi "_" a b

abbrev q : SurfaceTerm
q = svar "queried"

abbrev same : SurfaceTerm
same = svar "same"

abbrev equal : SurfaceTerm
equal = svar "equal"

abbrev not_q : SurfaceTerm
unfolding arrow
not_q = arrow q sempty

abbrev not_equal : SurfaceTerm
unfolding arrow
not_equal = arrow equal sempty

abbrev preserve : SurfaceTerm
unfolding arrow
preserve = arrow not_q same

abbrev exact : SurfaceTerm
unfolding arrow
exact = arrow same equal

abbrev decidable : SurfaceTerm
unfolding arrow
decidable = ssum q not_q

abbrev contradiction : SurfaceTerm
contradiction =
    sapp (svar "not_equal") (sapp (svar "path_exact") (sapp (svar "preserve") (svar "not_queried")))

unfoldable pub sensitivity_to_query_surface : SurfaceTerm × SurfaceTerm
unfolding arrow
sensitivity_to_query_surface = (
  spi "queried" (ssort 0) (
      spi "same" (ssort 0) (
        spi "equal" (ssort 0) (
          spi "not_equal" not_equal
            (spi "preserve" preserve (spi "path_exact" exact (spi "decide" decidable q)))))),
  slam "queried" (ssort 0) (
      slam "same" (ssort 0) (
        slam "equal" (ssort 0) (
          slam "not_equal" not_equal (
            slam "preserve" preserve (
              slam "path_exact" exact (
                slam "decide" decidable (
                  scase (svar "decide") (slam "queried_proof" q (svar "queried_proof"))
                    (slam "not_queried" not_q (sempty_elim contradiction q)) q))))))),
)

unfoldable pub sensitivity_to_query_core : Result (Term × Term)
unfolding sensitivity_to_query_surface elaborate
sensitivity_to_query_core = do
  theorem ← elaborate sensitivity_to_query_surface.0 []
  proof ← elaborate sensitivity_to_query_surface.1 []
  ok (theorem, proof)
