-- ===== src/Kernel/Codec.antt =====
-- src/nexus_u/kernel/codec.py: terms as tagged objects of the JSON kind.
pub mod RoundTrip
use nexus_u.Prelude.{
  ℕ, zero, suc, String, Option, none, some, ok, err, ◌>>=◌, str_eq, if◌then◌else◌,
}
use nexus_u.Kernel.Ast.{
  Term, sort, var, const, pi, lam, app, let_in, sum_type, inl, inr, case, empty_type, empty_elim,
}
use nexus_u.Kernel.Fault.{Result, value_error, key_error}

-- The values that the decoder tells apart, and the entries of an object in order.
mutual
  pub data Json : Type 0 where
    number : ℕ → Json
    text : String → Json
    object : Fields → Json

  pub data Fields : Type 0 where
    done : Fields
    entry : String → Json → Fields → Fields

abbrev pub one_field : String → Json → Fields
one_field key value = entry key value done

abbrev pub tagged : String → Fields → Json
tagged name fields = object (entry "tag" (text name) fields)

unfoldable pub term_to_dict : Term → Json
term_to_dict (sort u) = tagged "Sort" (one_field "level" (number u))
term_to_dict (var i) = tagged "Var" (one_field "index" (number i))
term_to_dict (const x) = tagged "Const" (one_field "name" (text x))
term_to_dict (pi a b) =
    tagged "Pi" (entry "domain" (term_to_dict a) (one_field "codomain" (term_to_dict b)))
term_to_dict (lam a b) =
    tagged "Lam" (entry "domain" (term_to_dict a) (one_field "body" (term_to_dict b)))
term_to_dict (app f a) =
    tagged "App" (entry "function" (term_to_dict f) (one_field "argument" (term_to_dict a)))
term_to_dict (let_in t v b) = tagged "Let" (
    entry "annotation" (term_to_dict t)
      (entry "value" (term_to_dict v) (one_field "body" (term_to_dict b))))
term_to_dict (sum_type a b) =
    tagged "Sum" (entry "left" (term_to_dict a) (one_field "right" (term_to_dict b)))
term_to_dict (inl v t) =
    tagged "Inl" (entry "value" (term_to_dict v) (one_field "right_type" (term_to_dict t)))
term_to_dict (inr t v) =
    tagged "Inr" (entry "left_type" (term_to_dict t) (one_field "value" (term_to_dict v)))
term_to_dict (case s l r t) = tagged "Case" (
    entry "scrutinee" (term_to_dict s) (
      entry "left_branch" (term_to_dict l)
        (entry "right_branch" (term_to_dict r) (one_field "result_type" (term_to_dict t)))))
term_to_dict empty_type = tagged "Empty" done
term_to_dict (empty_elim p t) =
    tagged "EmptyElim" (entry "proof" (term_to_dict p) (one_field "result_type" (term_to_dict t)))

-- `data[key]`
unfoldable pub field : String → Fields → Result Json
field key done = err key_error
field key (entry name value rest) = if str_eq name key then ok value else field key rest

-- The test for the key "tag", and its value if it is a text: no other value equals a tag.
unfoldable pub tag_of : Fields → Result String
tag_of done = err value_error
tag_of (entry name (text value) rest) = if str_eq name "tag" then ok value else tag_of rest
tag_of (entry name value rest) = if str_eq name "tag" then ok "" else tag_of rest

-- `Const(name)` refuses the empty name.
abbrev pub named : String → Result Term
named x = if str_eq x "" then err value_error else ok (const x)

abbrev pub counted : (ℕ → Term) → Option ℕ → Result Term
counted make none = err value_error
counted make (some n) = ok (make n)

-- `recurse(data[key])`, and two of them.
abbrev pub at : (Json → Result Term) → Fields → String → Result Term
at part fields key = do value ← field key fields; part value

abbrev pub two :
    (Json → Result Term) → Fields → (Term → Term → Term) → String → String → Result Term
two part fields make first second = do
  a ← at part fields first
  b ← at part fields second
  ok (make a b)

-- `int` and `str` on the decoded values are parameters: `int_of` is none where `int` raises or its
-- result is negative, which the constructors refuse.
module _ (int_of : Json → Option ℕ) (str_of : Json → String) where
  -- The terms of one tag, given the decoder of the parts.
  unfoldable pub by_tag : (Json → Result Term) → String → Fields → Result Term
  by_tag part tag fields =
      if str_eq tag "Sort"
      then (do n ← field "level" fields; counted sort (int_of n))
      else if str_eq tag "Var"
      then (do n ← field "index" fields; counted var (int_of n))
      else if str_eq tag "Const"
      then (do x ← field "name" fields; named (str_of x))
      else if str_eq tag "Pi"
      then two part fields pi "domain" "codomain"
      else if str_eq tag "Lam"
      then two part fields lam "domain" "body"
      else if str_eq tag "App"
      then two part fields app "function" "argument"
      else if str_eq tag "Let"
      then (do
        t ← at part fields "annotation"
        v ← at part fields "value"
        b ← at part fields "body"
        ok (let_in t v b))
      else if str_eq tag "Sum"
      then two part fields sum_type "left" "right"
      else if str_eq tag "Inl"
      then two part fields inl "value" "right_type"
      else if str_eq tag "Inr"
      then two part fields inr "left_type" "value"
      else if str_eq tag "Case"
      then (do
        s ← at part fields "scrutinee"
        l ← at part fields "left_branch"
        r ← at part fields "right_branch"
        t ← at part fields "result_type"
        ok (case s l r t))
      else if str_eq tag "Empty"
      then ok empty_type
      else if str_eq tag "EmptyElim"
      then two part fields empty_elim "proof" "result_type"
      else err value_error

  -- The first argument is the number of levels that the depth limit still allows:
  -- `max_depth + 1 - depth`.
  unfoldable pub term_from_dict : ℕ → Json → Result Term
  term_from_dict zero value = err value_error
  term_from_dict (suc levels) (object fields) = do
    tag ← tag_of fields
    by_tag (term_from_dict levels) tag fields
  term_from_dict (suc levels) value = err value_error
