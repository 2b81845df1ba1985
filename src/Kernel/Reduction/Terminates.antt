-- ===== src/Kernel/Reduction/Terminates.antt =====
-- `whnf`, `normalize` and the conversion test end: the reductions left, then the size of the term,
-- bound their recursion, so that some amount of fuel gives their one outcome.
use nexus_u.Prelude.{
  ℕ, zero, suc, ◌+◌, ◌≤◌, ◌<◌, String, List, [], ◌∷◌, Option, none, some, ok, err, ◌≡◌, ◌≢◌, refl,
  ◌>>=◌, arith, inl, inr, ltb, ltb→lt, Bool-cases,
}
use nexus_u.Prelude.Ensures.{value_ensured}
use nexus_u.Prelude.Settles.{Settles, Settles-const, Settles-suc, Settles-bind}
use nexus_u.Kernel.Ast.{Term, const, pi, lam, app, let_in, sum_type, case, empty_elim}
use nexus_u.Kernel.Fault.{Result, out_of_fuel}
use nexus_u.Kernel.Ops.{substitute_top, node_count}
use nexus_u.Kernel.Ops.Instantiate.{substitute_top_lem}
use nexus_u.Kernel.Environment.{Declaration, Environment, lookup, get}
use nexus_u.Kernel.Core.{
  NexusKernel, Budgeted, transparent, step, delta_turn, beta_turn, case_turn, whnf, descend,
  normalize, convertible_with_budget,
}
use nexus_u.Kernel.Reduction.Budget.{
  limit, Spends, Turns, step-Ensures, whnf-Turns, whnf-let_in, normalize-Spends,
}

-- Runs on fuel of the kernel's code.
abbrev pub Ends {ℓ} : {A : Type ℓ} → (ℕ → Result A) → Type ℓ
Ends run = Settles out_of_fuel run

lookup-ne-out_of_fuel : (x : String) (ds : List Declaration) → lookup x ds ≢ err out_of_fuel
unfolding lookup
lookup-ne-out_of_fuel x [] e = cc
lookup-ne-out_of_fuel x (d ∷ ds) e = ground (arith, lookup-ne-out_of_fuel x ds)

pub get-ne-out_of_fuel : (E : Environment) (x : String) → get E x ≢ err out_of_fuel
unfolding get
get-ne-out_of_fuel E x = lookup-ne-out_of_fuel x E.decls

module _ (k : NexusKernel) where
  step-ne-out_of_fuel : (n : ℕ) → step k n ≢ err out_of_fuel
  unfolding step
  step-ne-out_of_fuel n e = ground arith

  substitute_top-ne-out_of_fuel : (r b : Term) → substitute_top r b ≢ err out_of_fuel
  substitute_top-ne-out_of_fuel r b = rw substitute_top_lem (λ e. cc)

  -- What a loop needs to know of the turns that come after a reduction.
  abbrev Later : (ℕ → Term → ℕ → Budgeted) → ℕ → Type 0
  Later run n = (t : Term) (m : ℕ) → n < m → m ≤ limit k → Ends (λ f. run f t m)

  -- A reduction from `n₁` on leads to such a turn.
  step-Ends :
      (run : ℕ → Term → ℕ → Budgeted) (t : Term) (n n₁ : ℕ)
      → n ≤ n₁
      → Later run n
      → Ends (λ f. step k n₁ >>= run f t)
  step-Ends run t n n₁ le later =
      Settles-bind (Settles-const (step k n₁) (step-ne-out_of_fuel n₁)) λ n' f e.
        let (p, q) = value_ensured (rw e at (step-Ensures k n₁)) in later t n' (omega (arith, p)) q

  beta_turn-Ends :
      (a g : Term) (n n₁ : ℕ)
      → n ≤ n₁
      → Later (whnf k) n
      → Ends (λ f. beta_turn k (whnf k f) a g n₁)
  unfolding beta_turn
  beta_turn-Ends a (lam d b) n n₁ le later =
      rw substitute_top_lem (step-Ends (whnf k) _ n n₁ le later)
  beta_turn-Ends a g n n₁ le later = Settles-const _ (λ e. cc)

  case_turn-Ends :
      (l r t s : Term) (n n₁ : ℕ)
      → n ≤ n₁
      → Later (whnf k) n
      → Ends (λ f. case_turn k (whnf k f) l r t s n₁)
  unfolding case_turn
  case_turn-Ends l r t (Term.inl v u) n n₁ le later = step-Ends (whnf k) _ n n₁ le later
  case_turn-Ends l r t (Term.inr u v) n n₁ le later = step-Ends (whnf k) _ n n₁ le later
  case_turn-Ends l r t s n n₁ le later = Settles-const _ (λ e. cc)

  delta_turn-Ends :
      (x : String) (o : Option Term) (n : ℕ)
      → Later (whnf k) n
      → Ends (λ f. delta_turn k (whnf k f) x o n)
  unfolding delta_turn
  delta_turn-Ends x none n later = Settles-const _ (λ e. cc)
  delta_turn-Ends x (some v) n later = step-Ends (whnf k) v n n (omega arith) later

  -- Structural, but for the turns after a reduction.
  whnf-Ends_at : (t : Term) (n : ℕ) → Later (whnf k) n → Ends (λ f. whnf k f t n)
  unfolding whnf
  whnf-Ends_at (const x) n later =
      Settles-suc _ (λ f. refl)
        (Settles-bind (Settles-const (get k.environment x) (get-ne-out_of_fuel k.environment x))
          λ d f e. delta_turn-Ends x (transparent d) n later)
  whnf-Ends_at (app g a) n later =
      Settles-suc _ (λ f. refl)
        (Settles-bind (whnf-Ends_at g n later) λ (g', n₁) f e.
          let turns = value_ensured (rw e at (whnf-Turns k f g n)) in
          beta_turn-Ends a g' n n₁ turns.spends.grows later)
  whnf-Ends_at (let_in t v b) n later =
      Settles-suc _ (λ f. refl)
        (rw substitute_top_lem (step-Ends (whnf k) _ n n (omega arith) later))
  whnf-Ends_at (case s l r t) n later =
      Settles-suc _ (λ f. refl)
        (Settles-bind (whnf-Ends_at s n later) λ (s', n₁) f e.
          let turns = value_ensured (rw e at (whnf-Turns k f s n)) in
          case_turn-Ends l r t s' n n₁ turns.spends.grows later)
  whnf-Ends_at t n later =
      Settles-suc (λ f. ok (t, n)) (λ f. refl) (Settles-const (ok (t, n)) (λ e. cc))

  -- By induction on the reductions left.
  whnf-Ends_by : (m : ℕ) (t : Term) (n : ℕ) → limit k ≤ n + m → Ends (λ f. whnf k f t n)
  whnf-Ends_by zero t n h = whnf-Ends_at t n (λ u n' lt le. absurd (omega arith))
  whnf-Ends_by (suc m) t n h = whnf-Ends_at t n (λ u n' lt le. whnf-Ends_by m u n' (omega arith))

  pub whnf-Ends : (t : Term) (n : ℕ) → Ends (λ f. whnf k f t n)
  whnf-Ends t n = whnf-Ends_by (limit k) t n (omega arith)

  -- Two parts in turn.
  two-Ends :
      (c : Term → Term → Term) (a b : Term) (n : ℕ)
      → Ends (λ f. normalize k f a n)
      → ((m : ℕ) → Spends k n m → Ends (λ f. normalize k f b m))
      → Ends {A = Term × ℕ}
          (λ f. do (a', n₁) ← normalize k f a n; (b', n₂) ← normalize k f b n₁; ok (c a' b', n₂))
  two-Ends c a b n h g = Settles-bind h λ (a', n₁) f e.
      Settles-bind (g n₁ (value_ensured (rw e at (normalize-Spends k f a n))))
        λ (b', n₂) f' e'. Settles-const _ (λ e. cc)

  -- Any smaller term, from the given count on.
  abbrev Parts : Term → ℕ → Type 0
  Parts t n =
      (u : Term) (m : ℕ)
      → node_count u < node_count t
      → Spends k n m
      → Ends (λ f. normalize k f u m)

  descend-Ends :
      (t : Term) (n : ℕ)
      → Parts t n
      → Later (normalize k) n
      → Ends (λ f. descend (normalize k f) (whnf k f) t n)
  unfolding descend node_count
  descend-Ends (pi a b) n h later =
      two-Ends pi a b n (h a n (omega arith) (omega arith)) (λ m s. h b m (omega arith) s)
  descend-Ends (lam a b) n h later =
      two-Ends lam a b n (h a n (omega arith) (omega arith)) (λ m s. h b m (omega arith) s)
  descend-Ends (app a b) n h later =
      two-Ends app a b n (h a n (omega arith) (omega arith)) (λ m s. h b m (omega arith) s)
  descend-Ends (let_in t v b) n h later = Settles-bind (whnf-Ends (let_in t v b) n) λ (c, n₁) f e.
      let turns = value_ensured (rw e at (whnf-Turns k f (let_in t v b) n)) in
      let lt = value_ensured (rw e at (whnf-let_in k f t v b n)) in
      later c n₁ lt (omega (arith, turns.spends.bounded, lt))
  descend-Ends (sum_type a b) n h later =
      two-Ends sum_type a b n (h a n (omega arith) (omega arith)) (λ m s. h b m (omega arith) s)
  descend-Ends (Term.inl a b) n h later =
      two-Ends Term.inl a b n (h a n (omega arith) (omega arith)) (λ m s. h b m (omega arith) s)
  descend-Ends (Term.inr a b) n h later =
      two-Ends Term.inr a b n (h a n (omega arith) (omega arith)) (λ m s. h b m (omega arith) s)
  descend-Ends (case a b c d) n h later =
      Settles-bind (h a n (omega arith) (omega arith)) λ (a', n₁) f e.
        let s = value_ensured (rw e at (normalize-Spends k f a n)) in
        Settles-bind (h b n₁ (omega arith) s) λ (b', n₂) f' e'.
          let s' = value_ensured (rw e' at (normalize-Spends k f' b n₁)) in
          two-Ends (λ c' d'. case a' b' c' d') c d n₂
            (h c n₂ (omega arith) (omega (arith, s.grows, s.bounded, s'.grows, s'.bounded)))
            (λ m s''. h d m (omega arith) (omega (arith, s.grows, s.bounded, s'.grows, s'.bounded)))
  descend-Ends (empty_elim a b) n h later =
      two-Ends empty_elim a b n (h a n (omega arith) (omega arith)) (λ m s. h b m (omega arith) s)
  descend-Ends t n h later = Settles-const _ (λ e. cc)

  -- One call, given those on smaller terms and those after a reduction.
  normalize-Ends_of :
      (t : Term) (n : ℕ)
      → ((u : Term) → node_count u < node_count t → Ends (λ f. normalize k f u n))
      → Later (normalize k) n
      → Ends (λ f. normalize k f t n)
  unfolding normalize
  normalize-Ends_of t n smaller later =
      Settles-suc _ (λ f. refl)
        (Settles-bind (whnf-Ends t n) λ (head, n₁) f e.
          let turns = value_ensured (rw e at (whnf-Turns k f t n)) in
          descend-Ends head n₁ (parts head n₁ turns)
            (λ u m lt le. later u m (omega (arith, turns.spends.grows)) le))
    where
      parts : (head : Term) (n₁ : ℕ) → Turns k t n (head, n₁) → Parts head n₁
      parts head n₁ turns u m lt sp = elim (Bool-cases (ltb n m)) [
        | inl h ↦ later u m (ltb→lt n m h) (
            omega
              (arith, ltb→lt n m h, turns.spends.grows, turns.spends.bounded, sp.grows, sp.bounded))
        | inr h ↦
            let same : m ≡ n = ground (arith, turns.spends.grows, sp.grows) in
            let unchanged : head ≡ t = turns.idle (omega (arith, turns.spends.grows, sp.grows)) in
            rw same (smaller u (rw unchanged at lt))
      ]

  -- By induction on a bound of the size, but for what comes after a reduction.
  normalize-Ends_at :
      (s : ℕ) (t : Term) (n : ℕ)
      → node_count t ≤ s
      → Later (normalize k) n
      → Ends (λ f. normalize k f t n)
  normalize-Ends_at zero t n h later = normalize-Ends_of t n (λ u lt. absurd (omega arith)) later
  normalize-Ends_at (suc s) t n h later =
      normalize-Ends_of t n (λ u lt. normalize-Ends_at s u n (omega arith) later) later

  -- By induction on the reductions left.
  normalize-Ends_by : (m : ℕ) (t : Term) (n : ℕ) → limit k ≤ n + m → Ends (λ f. normalize k f t n)
  normalize-Ends_by zero t n h =
      normalize-Ends_at (node_count t) t n (omega arith) (λ u n' lt le. absurd (omega arith))
  normalize-Ends_by (suc m) t n h =
      normalize-Ends_at (node_count t) t n (omega arith)
        (λ u n' lt le. normalize-Ends_by m u n' (omega arith))

  pub normalize-Ends : (t : Term) (n : ℕ) → Ends (λ f. normalize k f t n)
  normalize-Ends t n = normalize-Ends_by (limit k) t n (omega arith)

  pub convertible_with_budget-Ends :
      (a b : Term) (n : ℕ) → Ends (λ f. convertible_with_budget k f a b n)
  unfolding convertible_with_budget
  convertible_with_budget-Ends a b n =
      Settles-bind (normalize-Ends a n) λ (a', n₁) f e.
        Settles-bind (normalize-Ends b n₁) λ (b', n₂) f' e'. Settles-const _ (λ e. cc)
