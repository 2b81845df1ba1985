-- ===== src/Audit/Chain.antt =====
-- Appending keeps a chain valid, and a valid chain is determined by its head.
use mathlib.Core.Path.{ap₂}
use mathlib.Core.List.{reverse, reverse-append, reverse-reverse, append_assoc, append-nil}
use nexus_u.Prelude.{
  String, Bool, true, false, List, [], ◌∷◌, ◌++◌, map, ◌≡◌, ◌≢◌, refl, sym, ap, ◌∙◌, ◌||◌, not,
  str_eq, str_eq→eq, str_eq_refl, if◌then◌else◌, arith,
}
use nexus_u.Audit.{Hashing, Entry, AuditChain, append, verify_from, verify}

-- The two tests of the loop body and its rest.
loop_passed :
    (a b c : Bool)
    → (if not a || not b then false else c) ≡ true
    → (a ≡ true) × (b ≡ true) × (c ≡ true)
loop_passed a b c e = ground arith

module _ {Event : Type 0} (h : Hashing Event) where
  -- The entries that appending a list of events to a chain with the given head writes.
  record_all : String → List Event → List (Entry Event)
  record_all head [] = []
  record_all head (e ∷ es) =
      record { previous = head; digest = h.digest head e; event = e }
      ∷ record_all (h.digest head e) es

  last_head : String → List Event → String
  last_head head [] = head
  last_head head (e ∷ es) = last_head (h.digest head e) es

  abbrev events : List (Entry Event) → List Event
  events = map (λ entry. entry.event)

  -- The loop accepts exactly the entries that appending their events would have written.
  verify_from-eq :
      (head : String) (es : List (Entry Event)) (stored : String)
      → verify_from h head es stored ≡ true
      → (es ≡ record_all head (events es)) × (stored ≡ last_head head (events es))
  unfolding verify_from record_all last_head
  verify_from-eq head [] stored e = (refl, sym (str_eq→eq head stored e))
  verify_from-eq head (x ∷ es) stored e =
      let (p, d, rest) = loop_passed _ _ _ e in
      let (written, final) = verify_from-eq (h.digest head x.event) es stored rest in
      let same_previous = str_eq→eq x.previous head p in
      let same_digest = str_eq→eq x.digest (h.digest head x.event) d in
      (
        λ i.
            record { previous = same_previous i; digest = same_digest i; event = x.event }
            ∷ written i,
        final,
      )

  verify_from-append :
      (start : String) (es : List (Entry Event)) (head : String) (event : Event)
      → verify_from h start es head ≡ true
      → verify_from h start
          (es ++ record { previous = head; digest = h.digest head event; event = event } ∷ [])
          (h.digest head event)
        ≡ true
  unfolding verify_from
  verify_from-append start [] head event e =
      let same : start ≡ head = str_eq→eq start head e in
      rw (same, str_eq_refl head, str_eq_refl (h.digest head event))
  verify_from-append start (x ∷ es) head event e =
      let (p, d, rest) =
        loop_passed (str_eq x.previous start) (str_eq x.digest (h.digest start x.event))
          (verify_from h (h.digest start x.event) es head) e in
      rw (p, d) (verify_from-append (h.digest start x.event) es head event rest)

  -- Appending an event to a chain that verifies gives a chain that verifies.
  pub verify-append :
      (event : Event) (chain : AuditChain Event)
      → verify h chain ≡ true
      → verify h (append h event chain) ≡ true
  unfolding verify append
  verify-append event chain e = verify_from-append h.genesis chain.entries chain.head event e

  -- The head of a chain whose events are listed last first.
  head_of : List Event → String
  head_of [] = h.genesis
  head_of (e ∷ es) = h.digest (head_of es) e

  last_head-eq :
      (es before : List Event) → last_head (head_of before) es ≡ head_of (reverse es ++ before)
  unfolding last_head head_of
  last_head-eq [] before = refl
  last_head-eq (e ∷ es) before =
      last_head-eq es (e ∷ before)
      ∙ ap head_of (
          sym (append_assoc (reverse es) (e ∷ []) before)
          ∙ ap (λ l. l ++ before) (sym (reverse-append (e ∷ []) es)))

  module _
      (injective : (x y : String) (e f : Event) → h.digest x e ≡ h.digest y f → (x ≡ y) × (e ≡ f))
      (fresh : (x : String) (e : Event) → h.digest x e ≢ h.genesis) where
    head_of-injective : (es fs : List Event) → head_of es ≡ head_of fs → es ≡ fs
    unfolding head_of
    head_of-injective [] [] p = refl
    head_of-injective [] (f ∷ fs) p = absurd (fresh (head_of fs) f (sym p))
    head_of-injective (e ∷ es) [] p = absurd (fresh (head_of es) e p)
    head_of-injective (e ∷ es) (f ∷ fs) p =
        let (q, same) = injective (head_of es) (head_of fs) e f p in
        ap₂ ◌∷◌ same (head_of-injective es fs q)

    last_head-injective :
        (es fs : List Event) → last_head h.genesis es ≡ last_head h.genesis fs → es ≡ fs
    unfolding head_of
    last_head-injective es fs p =
        let q =
          head_of-injective (reverse es ++ []) (reverse fs ++ [])
            (sym (last_head-eq es []) ∙ p ∙ last_head-eq fs []) in
        sym (reverse-reverse es)
        ∙ ap reverse (sym (append-nil (reverse es)) ∙ q ∙ append-nil (reverse fs))
        ∙ reverse-reverse fs

    -- If digests do not collide and none is the genesis text: two chains that verify and have the
    -- same head have the same entries, so that no entry can be changed, dropped or moved unnoticed.
    pub verify_unique :
        (a b : AuditChain Event)
        → verify h a ≡ true
        → verify h b ≡ true
        → a.head ≡ b.head
        → a.entries ≡ b.entries
    unfolding verify
    verify_unique a b va vb same =
        let (wa, la) = verify_from-eq h.genesis a.entries a.head va in
        let (wb, lb) = verify_from-eq h.genesis b.entries b.head vb in
        let e = last_head-injective (events a.entries) (events b.entries) (sym la ∙ same ∙ lb) in
        wa ∙ ap (record_all h.genesis) e ∙ sym wb
