-- ===== src/Kernel/Surface.antt =====
-- src/nexus_u/kernel/surface.py: terms with names, and their elaboration to nameless terms.
pub mod Scope
use nexus_u.Prelude.{
  ℕ, String, Option, none, some, List, [], ◌∷◌, ok, err, ◌>>=◌, ◌>>◌, contains, if◌then◌else◌,
}
use nexus_u.Prelude.Lists.{index_of}
use nexus_u.Kernel.Ast.{
  Term, sort, var, pi, lam, app, let_in, sum_type, inl, inr, case, empty_elim, empty,
}
use nexus_u.Kernel.Fault.{Result, value_error}

pub data SurfaceTerm : Type 0 where
  svar : String → SurfaceTerm
  ssort : ℕ → SurfaceTerm
  spi : String → SurfaceTerm → SurfaceTerm → SurfaceTerm
  slam : String → SurfaceTerm → SurfaceTerm → SurfaceTerm
  sapp : SurfaceTerm → SurfaceTerm → SurfaceTerm
  slet : String → SurfaceTerm → SurfaceTerm → SurfaceTerm → SurfaceTerm
  ssum : SurfaceTerm → SurfaceTerm → SurfaceTerm
  sinl : SurfaceTerm → SurfaceTerm → SurfaceTerm
  sinr : SurfaceTerm → SurfaceTerm → SurfaceTerm
  scase : SurfaceTerm → SurfaceTerm → SurfaceTerm → SurfaceTerm → SurfaceTerm
  sempty : SurfaceTerm
  sempty_elim : SurfaceTerm → SurfaceTerm → SurfaceTerm

-- `Var(context.index(name))`, or ValueError.
abbrev pub found : Option ℕ → Result Term
found none = err value_error
found (some i) = ok (var i)

-- The refusal of a binder whose name is in the context.
abbrev pub fresh : String → List String → Result (Unit {0})
fresh x Γ = if contains x Γ then err value_error else ok tt

unfoldable pub elaborate : SurfaceTerm → List String → Result Term
unfolding index_of
elaborate (svar x) Γ = found (index_of x Γ)
elaborate (ssort u) Γ = ok (sort u)
elaborate (spi x a b) Γ = do fresh x Γ; a' ← elaborate a Γ; b' ← elaborate b (x ∷ Γ); ok (pi a' b')
elaborate (slam x a b) Γ = do
  fresh x Γ
  a' ← elaborate a Γ
  b' ← elaborate b (x ∷ Γ)
  ok (lam a' b')
elaborate (sapp g a) Γ = do g' ← elaborate g Γ; a' ← elaborate a Γ; ok (app g' a')
elaborate (slet x t v b) Γ = do
  fresh x Γ
  t' ← elaborate t Γ
  v' ← elaborate v Γ
  b' ← elaborate b (x ∷ Γ)
  ok (let_in t' v' b')
elaborate (ssum a b) Γ = do a' ← elaborate a Γ; b' ← elaborate b Γ; ok (sum_type a' b')
elaborate (sinl v t) Γ = do v' ← elaborate v Γ; t' ← elaborate t Γ; ok (inl v' t')
elaborate (sinr t v) Γ = do t' ← elaborate t Γ; v' ← elaborate v Γ; ok (inr t' v')
elaborate (scase s l r t) Γ = do
  s' ← elaborate s Γ
  l' ← elaborate l Γ
  r' ← elaborate r Γ
  t' ← elaborate t Γ
  ok (case s' l' r' t')
elaborate sempty Γ = ok empty
elaborate (sempty_elim p t) Γ = do p' ← elaborate p Γ; t' ← elaborate t Γ; ok (empty_elim p' t')
