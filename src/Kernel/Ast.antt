-- ===== src/Kernel/Ast.antt =====
-- src/nexus_u/kernel/ast.py: the nameless terms of the kernel. Levels and de Bruijn indices are
-- natural numbers, which is what the `__post_init__` checks of `Sort` and `Var` ensure.
use nexus_u.Prelude.{ℕ, String}

pub data Term : Type 0 where
  sort : ℕ → Term
  var : ℕ → Term
  const : String → Term
  pi : Term → Term → Term
  lam : Term → Term → Term
  app : Term → Term → Term
  let_in : Term → Term → Term → Term
  sum_type : Term → Term → Term
  inl : Term → Term → Term
  inr : Term → Term → Term
  case : Term → Term → Term → Term → Term
  empty_type : Term
  empty_elim : Term → Term → Term

-- `PROP` and `EMPTY`.
abbrev pub prop : Term
prop = sort 0

abbrev pub empty : Term
empty = empty_type
