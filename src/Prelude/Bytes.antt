-- ===== src/Prelude/Bytes.antt =====
-- C strings as the lists of their bytes, without the final NUL, and the functions of string.h that
-- the programs call on them.
use Prim.Native.Char.{code}
use Prim.Native.String.{String}
use Prim.Native.Nat.{ℕ}
use mathlib.Core.Path.{◌≡◌, refl}
use mathlib.Core.Logic.{◌↔◌, inl, inr, ◌≢◌}
use mathlib.Core.Bool.{Bool, true, false, ◌&&◌, ◌||◌}
use mathlib.Core.List.{List, [], ◌∷◌, ◌++◌}
use mathlib.Core.Option.{Option, none, some}
use native.Mathlib.Omega.{arith}
use stream_data_pipline.Prelude.Tests.{
  ◌==◌, if◌then◌else◌, ==_iff, Bool-cases, &&_split, Option-cases,
}

abbrev pub Bytes : Type 0
Bytes = List ℕ

-- The code points of a text: its bytes, if it is ASCII.
abbrev pub codes : String → Bytes
codes String.[] = []
codes (String.◌∷◌ c s) = code c ∷ codes s

-- `strcmp(a, b) == 0`
unfoldable pub str_eq : Bytes → Bytes → Bool
str_eq [] [] = true
str_eq [] (y ∷ ys) = false
str_eq (x ∷ xs) [] = false
str_eq (x ∷ xs) (y ∷ ys) = x == y && str_eq xs ys

pub str_eq_iff : (a b : Bytes) → (str_eq a b ≡ true) ↔ (a ≡ b)
unfolding str_eq
str_eq_iff [] [] = ground arith
str_eq_iff [] (y ∷ ys) = ground arith
str_eq_iff (x ∷ xs) [] = ground arith
str_eq_iff (x ∷ xs) (y ∷ ys) = ground (arith, str_eq_iff xs ys)

pub str_eq_refl : (a : Bytes) → str_eq a a ≡ true
str_eq_refl a = (str_eq_iff a a).1 refl

pub str_eq_comm : (a b : Bytes) → str_eq a b ≡ str_eq b a
str_eq_comm a b = ground (arith, str_eq_iff a b, str_eq_iff b a)

pub str_eq_ne : (a b : Bytes) → a ≢ b → str_eq a b ≡ false
str_eq_ne a b h = ground (arith, str_eq_iff a b)

-- `s[0] == '\0'`
abbrev pub is_empty : Bytes → Bool
is_empty [] = true
is_empty (c ∷ cs) = false

-- `strchr(s, c) != NULL`
unfoldable pub contains : ℕ → Bytes → Bool
contains c [] = false
contains c (x ∷ xs) = x == c || contains c xs

pub contains-append : (c : ℕ) (a b : Bytes) → contains c (a ++ b) ≡ (contains c a || contains c b)
unfolding contains
contains-append c [] b = refl
contains-append c (x ∷ xs) b = ground (arith, contains-append c xs b)

-- `strncmp(s, p, strlen(p)) == 0`
unfoldable pub starts_with : Bytes → Bytes → Bool
starts_with [] s = true
starts_with (p ∷ ps) [] = false
starts_with (p ∷ ps) (c ∷ cs) = p == c && starts_with ps cs

pub starts_with_sound : (p s : Bytes) → starts_with p s ≡ true → (r : Bytes) × (s ≡ p ++ r)
unfolding starts_with
starts_with_sound [] s h = (s, refl)
starts_with_sound (p ∷ ps) [] h = cc
starts_with_sound (p ∷ ps) (c ∷ cs) h =
    let (e, t) = &&_split (p == c) (starts_with ps cs) h in
    let (r, q) = starts_with_sound ps cs t in (r, ground (arith, (==_iff p c).0 e))

pub starts_with-append : (p r : Bytes) → starts_with p (p ++ r) ≡ true
unfolding starts_with
starts_with-append [] r = refl
starts_with-append (p ∷ ps) r = ground (arith, starts_with-append ps r)

-- `strstr(s, p) != NULL`
unfoldable pub has_substr : Bytes → Bytes → Bool
unfolding starts_with
has_substr p [] = starts_with p []
has_substr p (c ∷ cs) = starts_with p (c ∷ cs) || has_substr p cs

-- The text before the first `c` and the text behind it: `strchr`, then the byte overwritten by NUL.
unfoldable pub split_at : ℕ → Bytes → Option (Bytes × Bytes)
split_at c [] = none
split_at c (x ∷ xs) =
    if x == c
    then some ([], xs)
    else elim (split_at c xs) [ none ↦ none | some (a, b) ↦ some (x ∷ a, b) ]

pub split_at-append :
    (c : ℕ) (a b : Bytes) → contains c a ≡ false → split_at c (a ++ c ∷ b) ≡ some (a, b)
unfolding split_at contains
split_at-append c [] b h = ground arith
split_at-append c (x ∷ xs) b h = ground (arith, split_at-append c xs b)

pub split_at-none : (c : ℕ) (s : Bytes) → contains c s ≡ false → split_at c s ≡ none
unfolding split_at contains
split_at-none c [] h = refl
split_at-none c (x ∷ xs) h = ground (arith, split_at-none c xs)

pub split_at_sound :
    (c : ℕ) (s : Bytes) {a b : Bytes}
    → split_at c s ≡ some (a, b)
    → (s ≡ a ++ c ∷ b) × (contains c a ≡ false)
unfolding split_at contains
split_at_sound c [] h = cc
split_at_sound c (x ∷ xs) {a} {b} h = elim (Bool-cases (x == c)) [
  | inl e ↦ ground (arith, (==_iff x c).0 e)
  | inr n ↦ elim (Option-cases (split_at c xs)) [
    | inl q ↦ ground arith
    | inr (w, q) ↦ ground (arith, split_at_sound c xs {a = w.0} {b = w.1} q)
  ]
]
