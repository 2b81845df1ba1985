-- ===== src/Kernel/Environment/Lookup.antt =====
-- What `get` returns after `add_unchecked`.
use nexus_u.Prelude.{
  String, true, false, List, [], ◌∷◌, ◌++◌, ok, ◌≡◌, inl, inr, refl, arith, str_eq, str_eq→eq,
  str_eq_refl, Bool-cases, if◌then◌else◌,
}
use nexus_u.Kernel.Environment.{Declaration, Environment, declares, add_unchecked, lookup, get}

lookup-append :
    (d : Declaration) (y : String) (ds : List Declaration)
    → declares d.name ds ≡ false
    → lookup y (ds ++ d ∷ []) ≡ (if str_eq d.name y then ok d else lookup y ds)
unfolding lookup
lookup-append d y [] h = refl
lookup-append d y (c ∷ ds) h = elim (Bool-cases (str_eq c.name y)) [
  | inl hit ↦ elim (Bool-cases (str_eq d.name y)) [
    | inl same ↦
        let e : c.name ≡ d.name = cc (str_eq→eq c.name y hit, str_eq→eq d.name y same) in
        ground (arith, str_eq_refl d.name, e)
    | inr differ ↦ rw (hit, differ)
  ]
  | inr miss ↦ ground (arith, lookup-append d y ds)
]

-- After a declaration was added, its name gives it, and every other name gives what it gave.
pub get-add_unchecked :
    (d : Declaration) (E : Environment) {E' : Environment} (y : String)
    → add_unchecked d E ≡ ok E'
    → get E' y ≡ (if str_eq d.name y then ok d else get E y)
unfolding get add_unchecked
get-add_unchecked d E {E'} y h = elim (Bool-cases (declares d.name E.decls)) [
  | inl old ↦ ground arith
  | inr new ↦ ground (arith, lookup-append d y E.decls new)
]

declares-lookup :
    (y : String) (ds : List Declaration) (c : Declaration)
    → lookup y ds ≡ ok c
    → declares y ds ≡ true
unfolding lookup
declares-lookup y [] c h = cc
declares-lookup y (d ∷ ds) c h = ground (arith, declares-lookup y ds c)

add_unchecked_fresh :
    (d : Declaration) (E : Environment) {E' : Environment}
    → add_unchecked d E ≡ ok E'
    → declares d.name E.decls ≡ false
unfolding add_unchecked
add_unchecked_fresh d E h = ground arith

-- What was declared stays as it was.
pub get-add_unchecked_old :
    (d : Declaration) (E : Environment) {E' : Environment} (y : String) {c : Declaration}
    → add_unchecked d E ≡ ok E'
    → get E y ≡ ok c
    → get E' y ≡ ok c
get-add_unchecked_old d E {E'} y {c} h e = elim (Bool-cases (str_eq d.name y)) [
  | inl same ↦
      let p : declares y E.decls ≡ true = declares-lookup y E.decls c (unfold get in e) in
      let q : declares y E.decls ≡ false =
        rw (str_eq→eq d.name y same) at (add_unchecked_fresh d E h) in
      cc (p, q)
  | inr differ ↦ rw (get-add_unchecked d E y h, differ) e
]
