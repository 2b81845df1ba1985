-- ===== src/Kernel/Reduction/Sound.antt =====
-- What `whnf`, `normalize` and the conversion test return is reached by reduction.
use mathlib.Core.Bool.{decide}
use nexus_u.Prelude.{String, ℕ, zero, suc, true, Option, none, some, ok, ◌≡◌, refl}
use nexus_u.Prelude.Ensures.{Ensures, returns, raises, ◌⊳◌, Ensures-self}
use nexus_u.Kernel.Ast.{Term, const, pi, lam, app, let_in, sum_type, inl, inr, case, empty_elim}
use nexus_u.Kernel.Subst.{instantiate}
use nexus_u.Kernel.Ops.{substitute_top}
use nexus_u.Kernel.Ops.Instantiate.{substitute_top_lem}
use nexus_u.Kernel.Environment.{Declaration, get}
use nexus_u.Kernel.Core.{
  NexusKernel, Budgeted, Term-discrete, transparent, step, delta_turn, beta_turn, case_turn, whnf,
  descend, normalize, convertible_with_budget,
}
use nexus_u.Kernel.Reduction.{
  Reduces, Convertible, stay, trans, beta, delta, zeta, case_left, case_right,
}

of_decide {ℓ} : {P : Type ℓ} (d : Dec P) → decide d ≡ true → P
unfolding decide
of_decide (yes h) e = h
of_decide (no h) e = cc

module _ (k : NexusKernel) where
  -- The outcome, if there is one, is a reduct of the term.
  abbrev pub ReducesTo : Term → Budgeted → Type 0
  ReducesTo t = Ensures (λ (t', n). Reduces k.environment t t')

  abbrev Loops : (Term → ℕ → Budgeted) → Type 0
  Loops wh = (t : Term) (n : ℕ) → ReducesTo t (wh t n)

  substitute_top-Ensures : (r b : Term) → Ensures (λ t. t ≡ instantiate r b) (substitute_top r b)
  substitute_top-Ensures r b = rw substitute_top_lem (returns refl)

  -- A reduction before a call is one before its outcome.
  after : {t u : Term} {r : Budgeted} → Reduces k.environment t u → ReducesTo u r → ReducesTo t r
  after p (returns q) = returns (trans p q)
  after p raises = raises

  delta_turn-sound :
      (wh : Term → ℕ → Budgeted) (x : String) (d : Declaration) (o : Option Term) (n : ℕ)
      → Loops wh
      → get k.environment x ≡ ok d
      → transparent d ≡ o
      → ReducesTo (const x) (delta_turn k wh x o n)
  unfolding delta_turn
  delta_turn-sound wh x d none n h e p = returns stay
  delta_turn-sound wh x d (some v) n h e p =
      Ensures-self (step k n) ⊳ λ n' _. after (delta e p) (h v n')

  beta_turn-sound :
      (wh : Term → ℕ → Budgeted) (g a g' : Term) (n : ℕ)
      → Loops wh
      → Reduces k.environment g g'
      → ReducesTo (app g a) (beta_turn k wh a g' n)
  unfolding beta_turn
  beta_turn-sound wh g a (lam d b) n h p = Ensures-self (step k n) ⊳ λ n' _.
      substitute_top-Ensures a b ⊳ λ t e.
      after (trans (Reduces.app p stay) beta) (rw (← e) (h t n'))
  beta_turn-sound wh g a _ n h p = returns (Reduces.app p stay)

  case_turn-sound :
      (wh : Term → ℕ → Budgeted) (s l r t s' : Term) (n : ℕ)
      → Loops wh
      → Reduces k.environment s s'
      → ReducesTo (case s l r t) (case_turn k wh l r t s' n)
  unfolding case_turn
  case_turn-sound wh s l r t (inl v u) n h p = Ensures-self (step k n) ⊳ λ n' _.
      after (trans (Reduces.case p stay stay stay) case_left) (h (app l v) n')
  case_turn-sound wh s l r t (inr u v) n h p = Ensures-self (step k n) ⊳ λ n' _.
      after (trans (Reduces.case p stay stay stay) case_right) (h (app r v) n')
  case_turn-sound wh s l r t _ n h p = returns (Reduces.case p stay stay stay)

  pub whnf_sound : (f : ℕ) → Loops (whnf k f)
  unfolding whnf
  whnf_sound zero t n = raises
  whnf_sound (suc f) (const x) n = Ensures-self (get k.environment x) ⊳ λ d e.
      delta_turn-sound (whnf k f) x d (transparent d) n (whnf_sound f) e refl
  whnf_sound (suc f) (app g a) n =
      whnf_sound f g n ⊳ λ (g', n') p. beta_turn-sound (whnf k f) g a g' n' (whnf_sound f) p
  whnf_sound (suc f) (let_in t v b) n = Ensures-self (step k n) ⊳ λ n' _.
      substitute_top-Ensures v b ⊳ λ c e. after zeta (rw (← e) (whnf_sound f c n'))
  whnf_sound (suc f) (case s l r t) n =
      whnf_sound f s n ⊳ λ (s', n') p. case_turn-sound (whnf k f) s l r t s' n' (whnf_sound f) p
  whnf_sound (suc f) _ n = returns stay

  descend_sound : (nf wh : Term → ℕ → Budgeted) → Loops nf → Loops wh → Loops (descend nf wh)
  unfolding descend
  descend_sound nf wh h g (pi a b) n =
      h a n ⊳ λ (a', n₁) p. h b n₁ ⊳ λ (b', n₂) q. returns (Reduces.pi p q)
  descend_sound nf wh h g (lam a b) n =
      h a n ⊳ λ (a', n₁) p. h b n₁ ⊳ λ (b', n₂) q. returns (Reduces.lam p q)
  descend_sound nf wh h g (app a b) n =
      h a n ⊳ λ (a', n₁) p. h b n₁ ⊳ λ (b', n₂) q. returns (Reduces.app p q)
  descend_sound nf wh h g (let_in t v b) n = g (let_in t v b) n ⊳ λ (c, n₁) p. after p (h c n₁)
  descend_sound nf wh h g (sum_type a b) n =
      h a n ⊳ λ (a', n₁) p. h b n₁ ⊳ λ (b', n₂) q. returns (Reduces.sum_type p q)
  descend_sound nf wh h g (inl a b) n =
      h a n ⊳ λ (a', n₁) p. h b n₁ ⊳ λ (b', n₂) q. returns (Reduces.inl p q)
  descend_sound nf wh h g (inr a b) n =
      h a n ⊳ λ (a', n₁) p. h b n₁ ⊳ λ (b', n₂) q. returns (Reduces.inr p q)
  descend_sound nf wh h g (case a b c d) n = h a n ⊳ λ (a', n₁) p. h b n₁ ⊳ λ (b', n₂) q.
      h c n₂ ⊳ λ (c', n₃) p'. h d n₃ ⊳ λ (d', n₄) q'. returns (Reduces.case p q p' q')
  descend_sound nf wh h g (empty_elim a b) n =
      h a n ⊳ λ (a', n₁) p. h b n₁ ⊳ λ (b', n₂) q. returns (Reduces.empty_elim p q)
  descend_sound nf wh h g _ n = returns stay

  pub normalize_sound : (f : ℕ) → Loops (normalize k f)
  unfolding normalize
  normalize_sound zero t n = raises
  normalize_sound (suc f) t n = whnf_sound f t n ⊳ λ (head, n₁) p.
      after p (descend_sound (normalize k f) (whnf k f) (normalize_sound f) (whnf_sound f) head n₁)

  -- Terms that the test calls convertible have a common reduct.
  pub convertible_with_budget_sound :
      (f : ℕ) (a b : Term) (n : ℕ)
      → Ensures
          (λ (same, n'). same ≡ true → Convertible k.environment a b)
          (convertible_with_budget k f a b n)
  unfolding convertible_with_budget
  convertible_with_budget_sound f a b n = normalize_sound f a n ⊳ λ (a', n₁) p.
      normalize_sound f b n₁ ⊳ λ (b', n₂) q. returns (λ h. record {
        common = a';
        from_left = p;
        from_right = rw (of_decide (Term-discrete a' b') h) q;
      })
