-- ===== src/Kernel/Reduction/Normal.antt =====
-- What `normalize` returns holds no redex.
use nexus_u.Prelude.{ℕ, zero, suc, String, false, Option, none, some, ok, err, ◌≡◌, refl, ◌∙◌}
use nexus_u.Prelude.Ensures.{
  Ensures, returns, raises, ◌⊳◌, value_ensured, Ensures-self, Ensures-weaken,
}
use nexus_u.Kernel.Ast.{
  Term, sort, var, const, pi, lam, app, let_in, sum_type, inl, inr, case, empty_type, empty_elim,
}
use nexus_u.Kernel.Ops.{substitute_top}
use nexus_u.Kernel.Environment.{Declaration, Environment, get}
use nexus_u.Kernel.Core.{
  NexusKernel, Budgeted, transparent, step, delta_turn, beta_turn, case_turn, whnf, descend,
  normalize,
}
use nexus_u.Kernel.Reduction.{is_lam, is_injection, IsNormal}

-- No redex at the head.
abbrev IsWhnf : Environment → Term → Type 0
IsWhnf E (const x) = (d : Declaration) → get E x ≡ ok d → transparent d ≡ none
IsWhnf E (app g a) = (is_lam g ≡ false) × IsWhnf E g
IsWhnf E (let_in t v b) = ⊥
IsWhnf E (case s l r t) = (is_injection s ≡ false) × IsWhnf E s
IsWhnf E _ = Unit

module _ (k : NexusKernel) where
  abbrev Env : Environment
  Env = k.environment

  abbrev Reaches : (Term → ℕ → Budgeted) → Type 0
  Reaches run = (t : Term) (n : ℕ) → Ensures (λ r. IsWhnf Env r.0) (run t n)

  delta_turn-IsWhnf :
      (wh : Term → ℕ → Budgeted) (x : String) (d : Declaration) (o : Option Term) (n : ℕ)
      → Reaches wh
      → get Env x ≡ ok d
      → transparent d ≡ o
      → Ensures (λ r. IsWhnf Env r.0) (delta_turn k wh x o n)
  unfolding delta_turn
  delta_turn-IsWhnf wh x d none n h e p = returns λ d' e'. cc (e, e', p)
  delta_turn-IsWhnf wh x d (some v) n h e p = Ensures-self (step k n) ⊳ λ n' _. h v n'

  beta_turn-IsWhnf :
      (wh : Term → ℕ → Budgeted) (a g : Term) (n : ℕ)
      → Reaches wh
      → IsWhnf Env g
      → Ensures (λ r. IsWhnf Env r.0) (beta_turn k wh a g n)
  unfolding beta_turn
  beta_turn-IsWhnf wh a (lam d b) n h p =
      Ensures-self (step k n) ⊳ λ n' _. Ensures-self (substitute_top a b) ⊳ λ t _. h t n'
  beta_turn-IsWhnf wh a g n h p = returns (refl, p)

  case_turn-IsWhnf :
      (wh : Term → ℕ → Budgeted) (l r t s : Term) (n : ℕ)
      → Reaches wh
      → IsWhnf Env s
      → Ensures (λ r. IsWhnf Env r.0) (case_turn k wh l r t s n)
  unfolding case_turn
  case_turn-IsWhnf wh l r t (inl v u) n h p = Ensures-self (step k n) ⊳ λ n' _. h (app l v) n'
  case_turn-IsWhnf wh l r t (inr u v) n h p = Ensures-self (step k n) ⊳ λ n' _. h (app r v) n'
  case_turn-IsWhnf wh l r t s n h p = returns (refl, p)

  whnf-IsWhnf : (f : ℕ) → Reaches (whnf k f)
  unfolding whnf
  whnf-IsWhnf zero t n = raises
  whnf-IsWhnf (suc f) (const x) n = Ensures-self (get Env x) ⊳ λ d e.
      delta_turn-IsWhnf (whnf k f) x d (transparent d) n (whnf-IsWhnf f) e refl
  whnf-IsWhnf (suc f) (app g a) n =
      whnf-IsWhnf f g n ⊳ λ (g', n₁) p. beta_turn-IsWhnf (whnf k f) a g' n₁ (whnf-IsWhnf f) p
  whnf-IsWhnf (suc f) (let_in t v b) n = Ensures-self (step k n) ⊳ λ n' _.
      Ensures-self (substitute_top v b) ⊳ λ c _. whnf-IsWhnf f c n'
  whnf-IsWhnf (suc f) (case s l r t) n =
      whnf-IsWhnf f s n ⊳ λ (s', n₁) p. case_turn-IsWhnf (whnf k f) l r t s' n₁ (whnf-IsWhnf f) p
  whnf-IsWhnf (suc f) t n = returns tt

  beta_turn-fixed :
      (wh : Term → ℕ → Budgeted) (a g : Term) (n : ℕ)
      → is_lam g ≡ false
      → beta_turn k wh a g n ≡ ok (app g a, n)
  unfolding beta_turn
  beta_turn-fixed wh a (lam d b) n h = cc
  beta_turn-fixed wh a g n h = refl

  case_turn-fixed :
      (wh : Term → ℕ → Budgeted) (l r t s : Term) (n : ℕ)
      → is_injection s ≡ false
      → case_turn k wh l r t s n ≡ ok (case s l r t, n)
  unfolding case_turn
  case_turn-fixed wh l r t (inl v u) n h = cc
  case_turn-fixed wh l r t (inr u v) n h = cc
  case_turn-fixed wh l r t s n h = refl

  -- A weak-head normal form is left as it is.
  whnf-fixed : (f : ℕ) (t : Term) (n : ℕ) → IsWhnf Env t → Ensures (λ r. r.0 ≡ t) (whnf k f t n)
  unfolding whnf
  whnf-fixed zero t n h = raises
  whnf-fixed (suc f) (const x) n h =
      Ensures-self (get Env x) ⊳ λ d e. rw (h d e) (unfold delta_turn in returns refl)
  whnf-fixed (suc f) (app g a) n (q, h) = whnf-fixed f g n h ⊳ λ (g', n₁) p.
      let still : is_lam g' ≡ false = cc (p, q) in
      rw (beta_turn-fixed (whnf k f) a g' n₁ still) (returns (rw p))
  whnf-fixed (suc f) (let_in t v b) n h = absurd h
  whnf-fixed (suc f) (case s l r t) n (q, h) = whnf-fixed f s n h ⊳ λ (s', n₁) p.
      let still : is_injection s' ≡ false = cc (p, q) in
      rw (case_turn-fixed (whnf k f) l r t s' n₁ still) (returns (rw p))
  whnf-fixed (suc f) t n h = returns refl

  -- The tests on heads give the same answers.
  abbrev SameHead : Term → Term → Type 0
  SameHead t t' = (is_lam t' ≡ is_lam t) × (is_injection t' ≡ is_injection t)

  -- A normal form, with the head of the term if that had no redex there.
  abbrev Normalizes : Term → Budgeted → Type 0
  Normalizes t = Ensures (λ r. IsNormal Env r.0 × (IsWhnf Env t → SameHead t r.0))

  descend-Normalizes :
      (nf wh : Term → ℕ → Budgeted)
      → ((t : Term) (n : ℕ) → Normalizes t (nf t n))
      → (t : Term) (n : ℕ) → IsWhnf Env t
      → Ensures (λ r. IsNormal Env r.0 × SameHead t r.0) (descend nf wh t n)
  unfolding descend
  descend-Normalizes nf wh h (sort u) n w = returns (tt, (refl, refl))
  descend-Normalizes nf wh h (var i) n w = returns (tt, (refl, refl))
  descend-Normalizes nf wh h (const x) n w = returns (w, (refl, refl))
  descend-Normalizes nf wh h empty_type n w = returns (tt, (refl, refl))
  descend-Normalizes nf wh h (pi a b) n w =
      h a n ⊳ λ (a', n₁) p. h b n₁ ⊳ λ (b', n₂) q. returns ((p.0, q.0), (refl, refl))
  descend-Normalizes nf wh h (lam a b) n w =
      h a n ⊳ λ (a', n₁) p. h b n₁ ⊳ λ (b', n₂) q. returns ((p.0, q.0), (refl, refl))
  descend-Normalizes nf wh h (app g a) n (no_lam, w) = h g n ⊳ λ (g', n₁) p.
      h a n₁ ⊳ λ (a', n₂) q. returns (((p.1 w).0 ∙ no_lam, p.0, q.0), (refl, refl))
  descend-Normalizes nf wh h (let_in t v b) n w = absurd w
  descend-Normalizes nf wh h (sum_type a b) n w =
      h a n ⊳ λ (a', n₁) p. h b n₁ ⊳ λ (b', n₂) q. returns ((p.0, q.0), (refl, refl))
  descend-Normalizes nf wh h (inl a b) n w =
      h a n ⊳ λ (a', n₁) p. h b n₁ ⊳ λ (b', n₂) q. returns ((p.0, q.0), (refl, refl))
  descend-Normalizes nf wh h (inr a b) n w =
      h a n ⊳ λ (a', n₁) p. h b n₁ ⊳ λ (b', n₂) q. returns ((p.0, q.0), (refl, refl))
  descend-Normalizes nf wh h (case s l r t) n (no_injection, w) = h s n ⊳ λ (s', n₁) p.
      h l n₁ ⊳ λ (l', n₂) q. h r n₂ ⊳ λ (r', n₃) p'. h t n₃ ⊳ λ (t', n₄) q'.
      returns (((p.1 w).1 ∙ no_injection, p.0, q.0, p'.0, q'.0), (refl, refl))
  descend-Normalizes nf wh h (empty_elim a b) n w =
      h a n ⊳ λ (a', n₁) p. h b n₁ ⊳ λ (b', n₂) q. returns ((p.0, q.0), (refl, refl))

  -- Two statements about one outcome.
  both :
      {P Q : Term × ℕ → Type 0} (r : Budgeted)
      → Ensures P r
      → Ensures Q r
      → Ensures (λ a. P a × Q a) r
  both (ok a) p q = returns (value_ensured p, value_ensured q)
  both (err e) p q = raises

  whnf_kept :
      (f : ℕ) (t : Term) (n : ℕ)
      → Ensures (λ r. IsWhnf Env r.0 × (IsWhnf Env t → r.0 ≡ t)) (whnf k f t n)
  whnf_kept f t n = both (whnf k f t n) (whnf-IsWhnf f t n) (kept (whnf k f t n) (whnf-fixed f t n))
    where
      kept :
          (r : Budgeted)
          → (IsWhnf Env t → Ensures (λ r. r.0 ≡ t) r)
          → Ensures (λ r. IsWhnf Env t → r.0 ≡ t) r
      kept (ok a) h = returns (λ w. value_ensured (h w))
      kept (err e) h = raises

  normalize-Normalizes : (f : ℕ) (t : Term) (n : ℕ) → Normalizes t (normalize k f t n)
  unfolding normalize
  normalize-Normalizes zero t n = raises
  normalize-Normalizes (suc f) t n = whnf_kept f t n ⊳ λ (head, n₁) (w, same).
      Ensures-weaken (λ r p. (p.0, λ w'. rw (same w') at p.1))
        (descend-Normalizes (normalize k f) (whnf k f) (normalize-Normalizes f) head n₁ w)

  -- If `normalize` returns a term, no redex stands anywhere in it.
  pub normalize-IsNormal :
      (f : ℕ) (t : Term) (n : ℕ) {t' : Term} {n' : ℕ}
      → normalize k f t n ≡ ok (t', n')
      → IsNormal Env t'
  normalize-IsNormal f t n e = (value_ensured (rw e at (normalize-Normalizes f t n))).0
