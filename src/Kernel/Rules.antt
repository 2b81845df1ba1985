-- ===== src/Kernel/Rules.antt =====
-- The typing rules of the kernel, in declarative form: types are taken up to conversion by one
-- rule, and nothing is said of budgets and limits.
pub mod Extend
use nexus_u.Prelude.{ℕ, suc, max, String, some, List, ◌∷◌, ok, ◌≡◌, get_elem?}
use nexus_u.Kernel.Ast.{Term}
use nexus_u.Kernel.Subst.{lift, instantiate}
use nexus_u.Kernel.Environment.{Declaration, Environment, get}
use nexus_u.Kernel.Reduction.{Convertible}

pub data Typed (E : Environment) : List Term → Term → Term → Type 0 where
  sort : {Γ : List Term} (u : ℕ) → Typed E Γ (Term.sort u) (Term.sort (suc u))
  var :
      {Γ : List Term} {i : ℕ} {t : Term}
      → get_elem? Γ i ≡ some t
      → Typed E Γ (Term.var i) (lift (suc i) 0 t)
  const :
      {Γ : List Term} {x : String} {d : Declaration}
      → get E x ≡ ok d
      → Typed E Γ (Term.const x) d.type
  pi :
      {Γ : List Term} {a b : Term} {u v : ℕ}
      → Typed E Γ a (Term.sort u)
      → Typed E (a ∷ Γ) b (Term.sort v)
      → Typed E Γ (Term.pi a b) (Term.sort (max u v))
  lam :
      {Γ : List Term} {a b t : Term} {u : ℕ}
      → Typed E Γ a (Term.sort u)
      → Typed E (a ∷ Γ) b t
      → Typed E Γ (Term.lam a b) (Term.pi a t)
  app :
      {Γ : List Term} {g a d c : Term}
      → Typed E Γ g (Term.pi d c)
      → Typed E Γ a d
      → Typed E Γ (Term.app g a) (instantiate a c)
  let_in :
      {Γ : List Term} {t v b c : Term} {u : ℕ}
      → Typed E Γ t (Term.sort u)
      → Typed E Γ v t
      → Typed E (t ∷ Γ) b c
      → Typed E Γ (Term.let_in t v b) (instantiate v c)
  sum_type :
      {Γ : List Term} {a b : Term} {u v : ℕ}
      → Typed E Γ a (Term.sort u)
      → Typed E Γ b (Term.sort v)
      → Typed E Γ (Term.sum_type a b) (Term.sort (max u v))
  inl :
      {Γ : List Term} {v a b : Term} {u : ℕ}
      → Typed E Γ v a
      → Typed E Γ b (Term.sort u)
      → Typed E Γ (Term.inl v b) (Term.sum_type a b)
  inr :
      {Γ : List Term} {v a b : Term} {u : ℕ}
      → Typed E Γ a (Term.sort u)
      → Typed E Γ v b
      → Typed E Γ (Term.inr a v) (Term.sum_type a b)
  case :
      {Γ : List Term} {s l r t a b : Term} {u : ℕ}
      → Typed E Γ s (Term.sum_type a b)
      → Typed E Γ t (Term.sort u)
      → Typed E Γ l (Term.pi a (lift 1 0 t))
      → Typed E Γ r (Term.pi b (lift 1 0 t))
      → Typed E Γ (Term.case s l r t) t
  empty_type : {Γ : List Term} → Typed E Γ Term.empty_type (Term.sort 0)
  empty_elim :
      {Γ : List Term} {p t : Term} {u : ℕ}
      → Typed E Γ p Term.empty_type
      → Typed E Γ t (Term.sort u)
      → Typed E Γ (Term.empty_elim p t) t
  convert : {Γ : List Term} {t a b : Term} → Typed E Γ t a → Convertible E a b → Typed E Γ t b
