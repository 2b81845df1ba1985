-- ===== src/Pipeline/Stop.antt =====
-- An early return of a run leaves it in the status it was sent to.
use nexus_u.Prelude.{ℕ, String, true, ◌≡◌, refl, ◌∙◌, ok, err}
use nexus_u.Obligations.Operations.Steps.{Stepwise, steps}
use nexus_u.StateMachine.{RunStatus, transition}
use nexus_u.StateMachine
use nexus_u.StateMachine.Paths.{stage-transition}
use nexus_u.Pipeline.Exec.{finished, Run, Outcome, continue, leave, ◌>>=◌, Setting}
use nexus_u.Pipeline.Parts.{enter, log, entered, terminal, persist, stop}
use nexus_u.Pipeline.Main.{is_terminal}
use nexus_u.Pipeline.Walk.{Quiet, Stopped, walk_of, stops_of, Walks-persist}

-- Every change of the graph is in the relation that holds always.
pub anything : (uuid : ℕ → String) → Stepwise uuid (λ w w'. Unit)
anything uuid = record {
  same = λ w. tt;
  both = λ u v w h k. tt;
  drew = λ w. tt;
  noted = λ w e. tt;
  linked = λ x y r m w. tt;
  added = λ w new h. tt;
  changed = λ w x status entries. tt;
}

abbrev SameStatus : Run → Run → Type 0
SameStatus r r' = r'.artifact.status ≡ r.artifact.status

same_status : Quiet SameStatus (λ w w'. Unit)
same_status = record {
  same = λ r. refl;
  both = λ r r' r'' h k. k ∙ h;
  worked = λ r w g. refl;
  edited = λ r f minor. minor.status_kept r.artifact;
}

-- Where it returns, the run has the status.
abbrev Reached : {A : Type 0} → RunStatus → Run × Outcome A → Type 0
Reached t (r, ok a) = r.artifact.status ≡ t
Reached t (r, err e) = Unit

module _ (s : Setting) where
  Reached-entered :
      (o : StateMachine.Outcome) (current t : RunStatus) (tag message : String)
      → ((n : RunStatus) → o ≡ ok n → n ≡ t)
      → (r : Run) → Reached t (entered s o current t tag message r)
  unfolding enter ◌>>=◌ log
  Reached-entered (err e) current t tag message h r = tt
  Reached-entered (ok n) current t tag message h r = h n refl

  Stopped-entered :
      (o : StateMachine.Outcome) (current t : RunStatus) (tag message : String) (r : Run)
      → Stopped (entered s o current t tag message r)
  unfolding enter ◌>>=◌ log
  Stopped-entered (err e) current t tag message r = tt
  Stopped-entered (ok n) current t tag message r = tt

  after_persist :
      (t : RunStatus) (p : Run × Outcome Unit)
      → is_terminal t ≡ true
      → Stopped p
      → p.0.artifact.status ≡ t
      → Stopped (continue (λ _. leave {A = Unit} finished) p)
  after_persist t (r, ok a) h st e = rw e h
  after_persist t (r, err e) h st e' = st

  after_terminal :
      (t : RunStatus) (p : Run × Outcome Unit)
      → is_terminal t ≡ true
      → Stopped p
      → Reached t p
      → Stopped (continue (λ _. persist s >>= λ _. leave {A = Unit} finished) p)
  unfolding ◌>>=◌
  after_terminal t (r, ok a) h st e =
      let w = Walks-persist s same_status (λ op. steps (λ w. tt)) in
      after_persist t (persist s r) h (stops_of w r) (walk_of w r ∙ e)
  after_terminal t (r, err e) h st e' = st

  pub Stopped-stop :
      (t : RunStatus) (message : String)
      → is_terminal t ≡ true
      → (r : Run) → Stopped (stop s t message r)
  unfolding stop terminal ◌>>=◌
  Stopped-stop t message h r =
      after_terminal t _ h (Stopped-entered _ _ _ _ _ r)
        (Reached-entered _ _ t _ _ (λ n e. (stage-transition _ t e).0) r)
