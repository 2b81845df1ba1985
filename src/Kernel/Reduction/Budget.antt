-- ===== src/Kernel/Reduction/Budget.antt =====
-- What `whnf` and `normalize` do to the count of reductions: it never falls, it passes no limit
-- that it had not passed before, and where it stays the same `whnf` has changed nothing.
use nexus_u.Prelude.{
  ℕ, zero, suc, ◌≤◌, ◌<◌, max, String, Option, none, some, ◌≡◌, refl, ap, arith, ltb,
}
use nexus_u.Prelude.Ensures.{
  Ensures, returns, raises, ◌⊳◌, Ensures-self, Ensures-if, Ensures-weaken,
}
use nexus_u.Kernel.Ast.{Term, const, pi, lam, app, let_in, sum_type, inl, inr, case, empty_elim}
use nexus_u.Kernel.Environment.{get}
use nexus_u.Kernel.Ops.{substitute_top}
use nexus_u.Kernel.Core.{
  NexusKernel, Budgeted, transparent, step, delta_turn, beta_turn, case_turn, whnf, descend,
  normalize,
}

module _ (k : NexusKernel) where
  abbrev pub limit : ℕ
  limit = k.limits.max_reductions

  -- From `n` reductions to `m`.
  pub record Spends (n m : ℕ) : Type 0 where
    pub grows : n ≤ m
    pub bounded : m ≤ max n limit

  -- And the term is the same if none was made.
  pub record Turns (t : Term) (n : ℕ) (r : Term × ℕ) : Type 0 where
    pub spends : Spends n r.1
    pub idle : r.1 ≡ n → r.0 ≡ t

  pub step-Ensures : (n : ℕ) → Ensures (λ m. (m ≡ suc n) × (m ≤ limit)) (step k n)
  unfolding step
  step-Ensures n = Ensures-if (ltb limit (suc n)) (λ _. raises) (λ h. returns (refl, ground arith))

  stays : (t : Term) (n : ℕ) → Turns t n (t, n)
  stays t n = record { spends = omega arith; idle = λ _. refl }

  -- After a reduction nothing is idle.
  stepped :
      (t u : Term) (n n₁ n' : ℕ) {r : Budgeted}
      → n ≤ n₁
      → (n' ≡ suc n₁) × (n' ≤ limit)
      → Ensures (Turns u n') r
      → Ensures (Turns t n) r
  stepped t u n n₁ n' le h = Ensures-weaken λ r turns. record {
    spends = omega (arith, turns.spends.grows, turns.spends.bounded);
    idle = λ e. absurd (omega (arith, turns.spends.grows));
  }

  abbrev Loops : (Term → ℕ → Budgeted) → Type 0
  Loops wh = (t : Term) (n : ℕ) → Ensures (Turns t n) (wh t n)

  delta_turn-Turns :
      (wh : Term → ℕ → Budgeted) (x : String) (o : Option Term) (n : ℕ)
      → Loops wh
      → Ensures (Turns (const x) n) (delta_turn k wh x o n)
  unfolding delta_turn
  delta_turn-Turns wh x none n h = returns (stays (const x) n)
  delta_turn-Turns wh x (some v) n h =
      step-Ensures n ⊳ λ n' s. stepped (const x) v n n n' (omega arith) s (h v n')

  beta_turn-Turns :
      (wh : Term → ℕ → Budgeted) (g a g' : Term) (n n₁ : ℕ)
      → Loops wh
      → Turns g n (g', n₁)
      → Ensures (Turns (app g a) n) (beta_turn k wh a g' n₁)
  unfolding beta_turn
  beta_turn-Turns wh g a (lam d b) n n₁ h p = step-Ensures n₁ ⊳ λ n' s.
      Ensures-self (substitute_top a b) ⊳ λ t _.
      stepped (app g a) t n n₁ n' p.spends.grows s (h t n')
  beta_turn-Turns wh g a g' n n₁ h p =
      returns (record { spends = p.spends; idle = λ e. ap (λ u. app u a) (p.idle e) })

  case_turn-Turns :
      (wh : Term → ℕ → Budgeted) (s l r t s' : Term) (n n₁ : ℕ)
      → Loops wh
      → Turns s n (s', n₁)
      → Ensures (Turns (case s l r t) n) (case_turn k wh l r t s' n₁)
  unfolding case_turn
  case_turn-Turns wh s l r t (inl v u) n n₁ h p = step-Ensures n₁ ⊳ λ n' q.
      stepped (case s l r t) (app l v) n n₁ n' p.spends.grows q (h (app l v) n')
  case_turn-Turns wh s l r t (inr u v) n n₁ h p = step-Ensures n₁ ⊳ λ n' q.
      stepped (case s l r t) (app r v) n n₁ n' p.spends.grows q (h (app r v) n')
  case_turn-Turns wh s l r t s' n n₁ h p =
      returns (record { spends = p.spends; idle = λ e. ap (λ u. case u l r t) (p.idle e) })

  pub whnf-Turns : (f : ℕ) → Loops (whnf k f)
  unfolding whnf
  whnf-Turns zero t n = raises
  whnf-Turns (suc f) (const x) n = Ensures-self (get k.environment x) ⊳ λ d _.
      delta_turn-Turns (whnf k f) x (transparent d) n (whnf-Turns f)
  whnf-Turns (suc f) (app g a) n =
      whnf-Turns f g n ⊳ λ (g', n₁) p. beta_turn-Turns (whnf k f) g a g' n n₁ (whnf-Turns f) p
  whnf-Turns (suc f) (let_in t v b) n = step-Ensures n ⊳ λ n' s.
      Ensures-self (substitute_top v b) ⊳ λ c _.
      stepped (let_in t v b) c n n n' (omega arith) s (whnf-Turns f c n')
  whnf-Turns (suc f) (case s l r t) n =
      whnf-Turns f s n ⊳ λ (s', n₁) p. case_turn-Turns (whnf k f) s l r t s' n n₁ (whnf-Turns f) p
  whnf-Turns (suc f) t n = returns (stays t n)

  -- A `let` is never idle.
  pub whnf-let_in :
      (f : ℕ) (t v b : Term) (n : ℕ) → Ensures (λ (c, n'). n < n') (whnf k f (let_in t v b) n)
  unfolding whnf
  whnf-let_in zero t v b n = raises
  whnf-let_in (suc f) t v b n = step-Ensures n ⊳ λ n' s. Ensures-self (substitute_top v b) ⊳ λ c _.
      Ensures-weaken (λ r turns. omega (arith, turns.spends.grows)) (whnf-Turns f c n')

  abbrev Spending : (Term → ℕ → Budgeted) → Type 0
  Spending run = (t : Term) (n : ℕ) → Ensures (λ (t', n'). Spends n n') (run t n)

  then : (n m p : ℕ) → Spends n m → Spends m p → Spends n p
  then n m p h g = omega (arith, h.grows, h.bounded, g.grows, g.bounded)

  descend-Spends :
      (nf wh : Term → ℕ → Budgeted) → Spending nf → Spending wh → Spending (descend nf wh)
  unfolding descend
  descend-Spends nf wh h g (pi a b) n =
      h a n ⊳ λ (a', n₁) p. h b n₁ ⊳ λ (b', n₂) q. returns (then n n₁ n₂ p q)
  descend-Spends nf wh h g (lam a b) n =
      h a n ⊳ λ (a', n₁) p. h b n₁ ⊳ λ (b', n₂) q. returns (then n n₁ n₂ p q)
  descend-Spends nf wh h g (app a b) n =
      h a n ⊳ λ (a', n₁) p. h b n₁ ⊳ λ (b', n₂) q. returns (then n n₁ n₂ p q)
  descend-Spends nf wh h g (let_in t v b) n =
      g (let_in t v b) n ⊳ λ (c, n₁) p. Ensures-weaken (λ r q. then n n₁ r.1 p q) (h c n₁)
  descend-Spends nf wh h g (sum_type a b) n =
      h a n ⊳ λ (a', n₁) p. h b n₁ ⊳ λ (b', n₂) q. returns (then n n₁ n₂ p q)
  descend-Spends nf wh h g (inl a b) n =
      h a n ⊳ λ (a', n₁) p. h b n₁ ⊳ λ (b', n₂) q. returns (then n n₁ n₂ p q)
  descend-Spends nf wh h g (inr a b) n =
      h a n ⊳ λ (a', n₁) p. h b n₁ ⊳ λ (b', n₂) q. returns (then n n₁ n₂ p q)
  descend-Spends nf wh h g (case a b c d) n = h a n ⊳ λ (a', n₁) p. h b n₁ ⊳ λ (b', n₂) q.
      h c n₂ ⊳ λ (c', n₃) r.
      h d n₃ ⊳ λ (d', n₄) s. returns (then n n₂ n₄ (then n n₁ n₂ p q) (then n₂ n₃ n₄ r s))
  descend-Spends nf wh h g (empty_elim a b) n =
      h a n ⊳ λ (a', n₁) p. h b n₁ ⊳ λ (b', n₂) q. returns (then n n₁ n₂ p q)
  descend-Spends nf wh h g t n = returns (omega arith)

  pub normalize-Spends : (f : ℕ) → Spending (normalize k f)
  unfolding normalize
  normalize-Spends zero t n = raises
  normalize-Spends (suc f) t n = whnf-Turns f t n ⊳ λ (head, n₁) p.
      Ensures-weaken (λ r q. then n n₁ r.1 p.spends q)
        (descend-Spends (normalize k f) (whnf k f) (normalize-Spends f)
          (λ u m. Ensures-weaken (λ r q. q.spends) (whnf-Turns f u m)) head n₁)
