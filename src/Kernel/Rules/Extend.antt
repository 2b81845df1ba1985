-- ===== src/Kernel/Rules/Extend.antt =====
-- Reductions and derivations stay when the environment grows.
use nexus_u.Prelude.{String, List, ok, ◌≡◌}
use nexus_u.Kernel.Ast.{Term}
use nexus_u.Kernel.Environment.{Declaration, Environment, get}
use nexus_u.Kernel.Reduction.{Reduces, Convertible}
use nexus_u.Kernel.Rules.{Typed}

module _ {E E' : Environment}
    (older : (x : String) (d : Declaration) → get E x ≡ ok d → get E' x ≡ ok d) where
  Reduces-extend : {t u : Term} → Reduces E t u → Reduces E' t u
  Reduces-extend Reduces.stay = Reduces.stay
  Reduces-extend (Reduces.trans p q) = Reduces.trans (Reduces-extend p) (Reduces-extend q)
  Reduces-extend Reduces.beta = Reduces.beta
  Reduces-extend (Reduces.delta e p) = Reduces.delta (older _ _ e) p
  Reduces-extend Reduces.zeta = Reduces.zeta
  Reduces-extend Reduces.case_left = Reduces.case_left
  Reduces-extend Reduces.case_right = Reduces.case_right
  Reduces-extend (Reduces.pi p q) = Reduces.pi (Reduces-extend p) (Reduces-extend q)
  Reduces-extend (Reduces.lam p q) = Reduces.lam (Reduces-extend p) (Reduces-extend q)
  Reduces-extend (Reduces.app p q) = Reduces.app (Reduces-extend p) (Reduces-extend q)
  Reduces-extend (Reduces.sum_type p q) = Reduces.sum_type (Reduces-extend p) (Reduces-extend q)
  Reduces-extend (Reduces.inl p q) = Reduces.inl (Reduces-extend p) (Reduces-extend q)
  Reduces-extend (Reduces.inr p q) = Reduces.inr (Reduces-extend p) (Reduces-extend q)
  Reduces-extend (Reduces.case p q r s) =
      Reduces.case (Reduces-extend p) (Reduces-extend q) (Reduces-extend r) (Reduces-extend s)
  Reduces-extend (Reduces.empty_elim p q) = Reduces.empty_elim (Reduces-extend p) (Reduces-extend q)

  Convertible-extend : {t u : Term} → Convertible E t u → Convertible E' t u
  Convertible-extend c = record {
    common = c.common;
    from_left = Reduces-extend c.from_left;
    from_right = Reduces-extend c.from_right;
  }

  pub Typed-extend : {Γ : List Term} {t a : Term} → Typed E Γ t a → Typed E' Γ t a
  Typed-extend (Typed.sort u) = Typed.sort u
  Typed-extend (Typed.var e) = Typed.var e
  Typed-extend (Typed.const e) = Typed.const (older _ _ e)
  Typed-extend (Typed.pi p q) = Typed.pi (Typed-extend p) (Typed-extend q)
  Typed-extend (Typed.lam p q) = Typed.lam (Typed-extend p) (Typed-extend q)
  Typed-extend (Typed.app p q) = Typed.app (Typed-extend p) (Typed-extend q)
  Typed-extend (Typed.let_in p q r) =
      Typed.let_in (Typed-extend p) (Typed-extend q) (Typed-extend r)
  Typed-extend (Typed.sum_type p q) = Typed.sum_type (Typed-extend p) (Typed-extend q)
  Typed-extend (Typed.inl p q) = Typed.inl (Typed-extend p) (Typed-extend q)
  Typed-extend (Typed.inr p q) = Typed.inr (Typed-extend p) (Typed-extend q)
  Typed-extend (Typed.case p q r s) =
      Typed.case (Typed-extend p) (Typed-extend q) (Typed-extend r) (Typed-extend s)
  Typed-extend Typed.empty_type = Typed.empty_type
  Typed-extend (Typed.empty_elim p q) = Typed.empty_elim (Typed-extend p) (Typed-extend q)
  Typed-extend (Typed.convert p c) = Typed.convert (Typed-extend p) (Convertible-extend c)
