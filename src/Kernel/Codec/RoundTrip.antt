-- ===== src/Kernel/Codec/RoundTrip.antt =====
-- A term survives encoding and decoding if it is no deeper than the decoder's limit.
use nexus_u.Prelude.{
  ℕ, zero, suc, ◌≤◌, ◌<◌, String, false, Option, some, ok, ◌≡◌, refl, str_eq, arith,
}
use nexus_u.Kernel.Ast.{
  Term, sort, var, const, pi, lam, app, let_in, sum_type, inl, inr, case, empty_type, empty_elim,
}
use nexus_u.Kernel.Ops.{max_depth}
use nexus_u.Kernel.Codec.{Json, number, text, field, tag_of, by_tag, term_to_dict, term_from_dict}

-- No constant has the empty name, which the class refuses.
abbrev pub IsNamed : Term → Type 0
IsNamed (sort u) = Unit
IsNamed (var i) = Unit
IsNamed (const x) = str_eq x "" ≡ false
IsNamed (pi a b) = IsNamed a × IsNamed b
IsNamed (lam a b) = IsNamed a × IsNamed b
IsNamed (app f a) = IsNamed f × IsNamed a
IsNamed (let_in t v b) = IsNamed t × IsNamed v × IsNamed b
IsNamed (sum_type a b) = IsNamed a × IsNamed b
IsNamed (inl v t) = IsNamed v × IsNamed t
IsNamed (inr t v) = IsNamed t × IsNamed v
IsNamed (case s l r t) = IsNamed s × IsNamed l × IsNamed r × IsNamed t
IsNamed empty_type = Unit
IsNamed (empty_elim p t) = IsNamed p × IsNamed t

depth_pos : (t : Term) → 0 < max_depth t
unfolding max_depth
depth_pos (sort u) = omega arith
depth_pos (var i) = omega arith
depth_pos (const x) = omega arith
depth_pos empty_type = omega arith
depth_pos (pi a b) = omega arith
depth_pos (lam a b) = omega arith
depth_pos (app f a) = omega arith
depth_pos (let_in t v b) = omega arith
depth_pos (sum_type a b) = omega arith
depth_pos (inl v t) = omega arith
depth_pos (inr t v) = omega arith
depth_pos (case s l r t) = omega arith
depth_pos (empty_elim p t) = omega arith

module _ (int_of : Json → Option ℕ) (str_of : Json → String)
    (int_of_number : (n : ℕ) → int_of (number n) ≡ some n)
    (str_of_text : (x : String) → str_of (text x) ≡ x) where
  -- Decoding the encoding of a term gives the term, if the depth limit allows its depth and no
  -- constant in it has the empty name; `int` and `str` return a number and a text as they are.
  pub term_from_dict-term_to_dict :
      (t : Term) (levels : ℕ)
      → max_depth t ≤ levels
      → IsNamed t
      → term_from_dict int_of str_of levels (term_to_dict t) ≡ ok t
  unfolding term_from_dict term_to_dict max_depth by_tag field tag_of
  term_from_dict-term_to_dict t zero h n = absurd (let lt = depth_pos t in omega arith)
  term_from_dict-term_to_dict (sort u) (suc d) h n = rw (int_of_number u)
  term_from_dict-term_to_dict (var i) (suc d) h n = rw (int_of_number i)
  term_from_dict-term_to_dict (const x) (suc d) h n = rw (str_of_text x, n)
  term_from_dict-term_to_dict (pi a b) (suc d) h (p, q) = rw (
    term_from_dict-term_to_dict a d (omega arith) p,
    term_from_dict-term_to_dict b d (omega arith) q,
  )
  term_from_dict-term_to_dict empty_type (suc d) h n = refl
  term_from_dict-term_to_dict (lam a b) (suc d) h (n1, n2) = rw (
    term_from_dict-term_to_dict a d (omega arith) n1,
    term_from_dict-term_to_dict b d (omega arith) n2,
  )
  term_from_dict-term_to_dict (app f a) (suc d) h (n1, n2) = rw (
    term_from_dict-term_to_dict f d (omega arith) n1,
    term_from_dict-term_to_dict a d (omega arith) n2,
  )
  term_from_dict-term_to_dict (let_in t v b) (suc d) h (n1, n2, n3) = rw (
    term_from_dict-term_to_dict t d (omega arith) n1,
    term_from_dict-term_to_dict v d (omega arith) n2,
    term_from_dict-term_to_dict b d (omega arith) n3,
  )
  term_from_dict-term_to_dict (sum_type a b) (suc d) h (n1, n2) = rw (
    term_from_dict-term_to_dict a d (omega arith) n1,
    term_from_dict-term_to_dict b d (omega arith) n2,
  )
  term_from_dict-term_to_dict (inl v t) (suc d) h (n1, n2) = rw (
    term_from_dict-term_to_dict v d (omega arith) n1,
    term_from_dict-term_to_dict t d (omega arith) n2,
  )
  term_from_dict-term_to_dict (inr t v) (suc d) h (n1, n2) = rw (
    term_from_dict-term_to_dict t d (omega arith) n1,
    term_from_dict-term_to_dict v d (omega arith) n2,
  )
  term_from_dict-term_to_dict (case s l r t) (suc d) h (n1, n2, n3, n4) = rw (
    term_from_dict-term_to_dict s d (omega arith) n1,
    term_from_dict-term_to_dict l d (omega arith) n2,
    term_from_dict-term_to_dict r d (omega arith) n3,
    term_from_dict-term_to_dict t d (omega arith) n4,
  )
  term_from_dict-term_to_dict (empty_elim p t) (suc d) h (n1, n2) = rw (
    term_from_dict-term_to_dict p d (omega arith) n1,
    term_from_dict-term_to_dict t d (omega arith) n2,
  )
