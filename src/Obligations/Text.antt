-- ===== src/Obligations/Text.antt =====
-- What the graph uses of Python's texts: `strip`, and `sorted` on identifiers.
use Prim.Native.Nat.{Ordering}
use Prim.Native.Char.{Char, code}
use Prim.Native.String.{compare}
use nexus_u.Prelude.{
  ℕ, String, List, [], ◌∷◌, Bool, true, false, ◌&&◌, ◌||◌, leb, ◌==◌, ◌≡◌, refl, arith, str_eq,
  str_eq→eq, Bool-cases, inl, inr, if◌then◌else◌,
}

-- The characters for which `str.isspace` holds.
unfoldable pub is_space : ℕ → Bool
is_space c =
    (leb 9 c && leb c 13)
    || (leb 28 c && leb c 32)
    || c == 133
    || c == 160
    || c == 5760
    || (leb 8192 c && leb c 8202)
    || c == 8232
    || c == 8233
    || c == 8239
    || c == 8287
    || c == 12288

unfoldable pub strip_left : String → String
strip_left String.[] = ""
strip_left (String.◌∷◌ c s) =
    let rest = strip_left s in if is_space (code c) then rest else String.◌∷◌ c s

unfoldable pub strip_right : String → String
strip_right String.[] = ""
strip_right (String.◌∷◌ c s) =
    let rest = strip_right s in
    if str_eq rest "" && is_space (code c) then "" else String.◌∷◌ c rest

unfoldable pub strip : String → String
unfolding is_space strip_left strip_right
strip s = strip_right (strip_left s)

-- `a <= b` of texts.
unfoldable pub text_le : String → String → Bool
text_le a b = elim (compare a b) [ Ordering.gt ↦ false | _ ↦ true ]

unfoldable pub insert_sorted : String → List String → List String
unfolding text_le
insert_sorted x [] = x ∷ []
insert_sorted x (y ∷ ys) = if text_le x y then x ∷ (y ∷ ys) else y ∷ insert_sorted x ys

unfoldable pub sorted : List String → List String
unfolding insert_sorted
sorted [] = []
sorted (x ∷ xs) = insert_sorted x (sorted xs)

-- `s + t`, as in the f-strings.
abbrev pub join : String → String → String
join String.[] t = t
join (String.◌∷◌ c s) t = String.◌∷◌ c (join s t)

cons_ne : (c : Char) (s : String) → ¬ (String.◌∷◌ c s ≡ "")
cons_ne c s e = cc

and_false : (b : Bool) → (b && false) ≡ false
and_false b = ground arith

pub cons_nonempty : (c : Char) (s : String) → str_eq (String.◌∷◌ c s) "" ≡ false
cons_nonempty c s = elim (Bool-cases (str_eq (String.◌∷◌ c s) "")) [
  | inl h ↦ absurd (cons_ne c s (str_eq→eq _ _ h))
  | inr h ↦ h
]

strip_left-cons :
    (c : Char) (s : String)
    → is_space (code c) ≡ false
    → strip_left (String.◌∷◌ c s) ≡ String.◌∷◌ c s
unfolding strip_left
strip_left-cons c s h = rw h refl

strip_right-cons :
    (c : Char) (s : String)
    → is_space (code c) ≡ false
    → strip_right (String.◌∷◌ c s) ≡ String.◌∷◌ c (strip_right s)
unfolding strip_right
strip_right-cons c s h = rw (h, and_false (str_eq (strip_right s) "")) refl

-- Stripping leaves something of a text that starts with a character that is no space.
pub strip-nonempty :
    (c : Char) (s : String) → is_space (code c) ≡ false → str_eq (strip (String.◌∷◌ c s)) "" ≡ false
unfolding strip
strip-nonempty c s h =
    rw (strip_left-cons c s h, strip_right-cons c s h) (cons_nonempty c (strip_right s))
