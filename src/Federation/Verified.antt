-- ===== src/Federation/Verified.antt =====
-- What the ledger holds has been verified, and stays valid as actors join.
use nexus_u.Prelude.{
  String, Bool, true, ◌≡◌, refl, sym, ap, ◌∙◌, Option, none, some, List, [], ◌∷◌, ◌++◌, ok, err,
  ◌>>=◌, str_eq, str_eq→eq, ◌==◌, if◌then◌else◌, Bool-cases, inl, inr,
}
use nexus_u.Federation.{
  FederationActor, EvidenceSubmission, FederationLedger, SubmissionError, actor_of, value_at,
  put_value, put_submission, is_none, register_actor, mark_dependency, FederationResult, errors_of,
  verify_submission, signed_first, stored, submit,
}
use nexus_u.Federation.Quorum.Approval.{AllVerified}

-- A call of one operation of the ledger.
pub data Command : Type 0 where
  register : FederationActor → String → Command
  mark : String → Bool → Command
  offer : EvidenceSubmission → Command

-- The ledger that a call leaves, whether it returns or raises.
abbrev pub left : FederationLedger → FederationResult FederationLedger → FederationLedger
left l (ok l') = l'
left l (err e) = l

module _ (hmac_sign : EvidenceSubmission → String → String) where
  unfoldable pub perform : Command → FederationLedger → FederationLedger
  unfolding register_actor mark_dependency submit
  perform (register actor secret) l = left l (register_actor actor secret l)
  perform (mark x satisfied) l = mark_dependency x satisfied l
  perform (offer e) l = left l (submit hmac_sign e l)

  unfoldable pub perform_all : List Command → FederationLedger → FederationLedger
  unfolding perform
  perform_all [] l = l
  perform_all (c ∷ cs) l = perform_all cs (perform c l)

  -- Every submission in the ledger verifies.
  abbrev pub IsVerified : FederationLedger → Type 0
  IsVerified l = AllVerified hmac_sign l l.submissions

  -- Verification reads the actors and their secrets only.
  AllVerified-kept :
      (l l' : FederationLedger) (es : List EvidenceSubmission)
      → ((e : EvidenceSubmission)
          → verify_submission hmac_sign l e ≡ []
          → verify_submission hmac_sign l' e ≡ [])
      → AllVerified hmac_sign l es
      → AllVerified hmac_sign l' es
  AllVerified-kept l l' [] k h = tt
  AllVerified-kept l l' (e ∷ es) k (p, h) = (k e p, AllVerified-kept l l' es k h)

  put_submission-AllVerified :
      (l : FederationLedger) (e : EvidenceSubmission) (es : List EvidenceSubmission)
      → verify_submission hmac_sign l e ≡ []
      → AllVerified hmac_sign l es
      → AllVerified hmac_sign l (put_submission e es)
  unfolding put_submission
  put_submission-AllVerified l e [] v h = (v, tt)
  put_submission-AllVerified l e (d ∷ ds) v (p, h) =
      elim (Bool-cases (str_eq d.submission_id e.submission_id)) [
        | inl q ↦ rw q (v, h)
        | inr q ↦ rw q (p, put_submission-AllVerified l e ds v h)
      ]

  stored-IsVerified :
      (l : FederationLedger) (e : EvidenceSubmission) (errors : List SubmissionError)
      → verify_submission hmac_sign l e ≡ errors
      → IsVerified l
      → IsVerified (left l (stored hmac_sign l e errors))
  unfolding verify_submission
  stored-IsVerified l e [] v h =
      AllVerified-kept l (record l { submissions = put_submission e l.submissions }) _ (λ d p. p)
        (put_submission-AllVerified l e l.submissions v h)
  stored-IsVerified l e (x ∷ xs) v h = h

  submit-IsVerified :
      (e : EvidenceSubmission) (l : FederationLedger)
      → IsVerified l
      → IsVerified (left l (submit hmac_sign e l))
  unfolding submit
  submit-IsVerified e l h = after (signed_first hmac_sign l e)
    where
      after :
          (r : FederationResult EvidenceSubmission)
          → IsVerified (left l (r >>= λ d. stored hmac_sign l d (verify_submission hmac_sign l d)))
      after (ok d) = stored-IsVerified l d _ refl h
      after (err x) = h

  actor_of-actor_id :
      (x : String) (cs : List FederationActor) (a : FederationActor)
      → actor_of x cs ≡ some a
      → a.actor_id ≡ x
  unfolding actor_of
  actor_of-actor_id x [] a e = cc
  actor_of-actor_id x (b ∷ bs) a e = elim (Bool-cases (str_eq b.actor_id x)) [
    | inl h ↦
        let p : some b ≡ some a = rw h at e in
        let q : b ≡ a = cc in ap (λ c. c.actor_id) (sym q) ∙ str_eq→eq _ _ h
    | inr h ↦ actor_of-actor_id x bs a (rw h at e)
  ]

  -- An actor who is there stays the one found.
  actor_of-append :
      (x : String) (cs : List FederationActor) (a b : FederationActor)
      → actor_of x cs ≡ some a
      → actor_of x (cs ++ b ∷ []) ≡ some a
  unfolding actor_of
  actor_of-append x [] a b e = cc
  actor_of-append x (c ∷ cs) a b e = elim (Bool-cases (str_eq c.actor_id x)) [
    | inl h ↦ rw h (rw h at e)
    | inr h ↦ rw h (actor_of-append x cs a b (rw h at e))
  ]

  value_at-put_value :
      (x y s : String) (m : List (String × String))
      → ¬ (x ≡ y)
      → value_at y (put_value x s m) ≡ value_at y m
  unfolding value_at put_value
  value_at-put_value x y s [] n = elim (Bool-cases (str_eq x y)) [
    | inl h ↦ absurd (n (str_eq→eq x y h))
    | inr h ↦ rw h
  ]
  value_at-put_value x y s ((z, t) ∷ m) n = elim (Bool-cases (str_eq z x)) [
    | inl h ↦ elim (Bool-cases (str_eq z y)) [
      | inl k ↦ absurd (n (sym (str_eq→eq z x h) ∙ str_eq→eq z y k))
      | inr k ↦ rw (h, k)
    ]
    | inr h ↦ rw h (ap (λ r. if str_eq z y then some t else r) (value_at-put_value x y s m n))
  ]

  -- Another actor changes nothing for a submission that verifies.
  errors_of-joined :
      (l : FederationLedger) (actor : FederationActor) (secret : String) (e : EvidenceSubmission)
      → is_none (actor_of actor.actor_id l.actors) ≡ true
      → (o : Option FederationActor) → actor_of e.actor l.actors ≡ o
      → errors_of hmac_sign l o e ≡ []
      → errors_of hmac_sign
          (record l {
            actors = l.actors ++ actor ∷ [];
            secrets = put_value actor.actor_id secret l.secrets;
          })
          (actor_of e.actor (l.actors ++ actor ∷ []))
          e
        ≡ []
  errors_of-joined l actor secret e new none f h = cc
  errors_of-joined l actor secret e new (some a) f h =
      let id = actor_of-actor_id e.actor l.actors a f in
      let differ : ¬ (actor.actor_id ≡ a.actor_id) = λ p. let q = rw (p, id, f) at new in cc in
      rw
        (
          actor_of-append e.actor l.actors a actor f,
          value_at-put_value actor.actor_id a.actor_id secret l.secrets differ,
        )
        h

  register_actor-IsVerified :
      (actor : FederationActor) (secret : String) (l : FederationLedger)
      → IsVerified l
      → IsVerified (left l (register_actor actor secret l))
  unfolding register_actor verify_submission
  register_actor-IsVerified actor secret l h =
      elim (Bool-cases (is_none (actor_of actor.actor_id l.actors))) [
        | inr p ↦ rw p h
        | inl p ↦ elim (Bool-cases (actor.trust_weight == 0)) [
          | inl q ↦ rw (p, q) h
          | inr q ↦
              rw (p, q)
                (AllVerified-kept l
                  (record l {
                    actors = l.actors ++ actor ∷ [];
                    secrets = put_value actor.actor_id secret l.secrets;
                  })
                  l.submissions (λ e v. errors_of-joined l actor secret e p _ refl v) h)
        ]
      ]

  perform-IsVerified :
      (c : Command) (l : FederationLedger) → IsVerified l → IsVerified (perform c l)
  unfolding perform mark_dependency verify_submission
  perform-IsVerified (register actor secret) l h = register_actor-IsVerified actor secret l h
  perform-IsVerified (mark x satisfied) l h =
      AllVerified-kept l (perform (mark x satisfied) l) l.submissions (λ e v. v) h
  perform-IsVerified (offer e) l h = submit-IsVerified e l h

  -- Whatever actors register, whatever evidence is offered and whatever dependencies are marked,
  -- every submission that the ledger holds verifies against its actors and secrets.
  pub perform_all-IsVerified :
      (cs : List Command) (l : FederationLedger) → IsVerified l → IsVerified (perform_all cs l)
  unfolding perform_all
  perform_all-IsVerified [] l h = h
  perform_all-IsVerified (c ∷ cs) l h =
      perform_all-IsVerified cs (perform c l) (perform-IsVerified c l h)
