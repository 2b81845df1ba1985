-- ===== src/Audit/Tests.antt =====
-- The theorems on chains, with digests that write the events into a text.
use Prim.Native.String.{◌++◌, count}
use text.Mathlib.TextLemmas.{append_cancel_left, length-append}
use nexus_u.Prelude.{String, true, [], ◌∷◌, ◌≡◌, ◌≢◌, refl, ap, arith}
use nexus_u.Audit.{Hashing, AuditChain, empty_chain, append, verify}
use nexus_u.Audit.Chain.{verify_unique}

abbrev unary : Hashing (Unit {0})
unary = record { genesis = ""; digest = λ head event. "e" ++ head }

abbrev one : AuditChain (Unit {0})
one = append unary tt (empty_chain unary)

one_verifies : verify unary one ≡ true
unfolding verify append
one_verifies = refl

unary-injective :
    (x y : String) (e f : Unit {0}) → unary.digest x e ≡ unary.digest y f → (x ≡ y) × (e ≡ f)
unary-injective x y e f p = (append_cancel_left "e" x y p, refl)

unary-fresh : (x : String) (e : Unit {0}) → unary.digest x e ≢ unary.genesis
unary-fresh x e p = let q : count ("e" ++ x) ≡ 0 = ap count p in omega (arith, length-append "e" x)

-- The same chain, as its entries were written.
abbrev written : AuditChain (Unit {0})
written = record { head = "e"; entries = record { previous = ""; digest = "e"; event = tt } ∷ [] }

verify_unique_example : one.entries ≡ written.entries
unfolding append verify
verify_unique_example =
    verify_unique unary unary-injective unary-fresh one written one_verifies refl refl
