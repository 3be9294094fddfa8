-- ===== src/Prelude/Decimal.antt =====
-- Decimal numbers as stdio.h and stdlib.h write and read them: `%ld` of printf, and `strtol` with
-- base 10. A `long` has 64 bits.
use native.Mathlib.Nat.{pow-suc}
use Prim.Native.Nat.{ℕ, zero, suc, ◌+◌, ◌-◌, ◌*◌, ◌/◌, ◌%◌, ◌^◌, ◌≤◌, ◌<◌}
use mathlib.Core.Path.{◌≡◌, refl, ap}
use mathlib.Core.Bool.{Bool, true, false, ◌&&◌, ◌||◌}
use mathlib.Core.List.{[], ◌∷◌}
use mathlib.Core.Option.{Option, none, some}
use native.Mathlib.Omega.{arith}
use stream_data_pipline.Prelude.Tests.{leb, ltb, ◌==◌, if◌then◌else◌}
use stream_data_pipline.Prelude.Bytes.{Bytes, contains}
use stream_data_pipline.Prelude.Int.{ℤ, pos, negsuc}
use stream_data_pipline.Prelude.Lists.{length}

abbrev pub is_digit : ℕ → Bool
is_digit c = leb b'0' c && leb c b'9'

-- `isspace` in the C locale
abbrev pub is_space : ℕ → Bool
is_space c = c == 32 || (leb 9 c && leb c 13)

-- The digits of `n` in front of `out`, on fuel: the last digit first.
unfoldable pub digits_onto : ℕ → ℕ → Bytes → Bytes
digits_onto zero n out = out
digits_onto (suc fuel) n out =
    let rest = digits_onto fuel (n / 10) ((b'0' + n % 10) ∷ out) in if n == 0 then out else rest

-- 20 digits hold every number of 64 bits.
unfoldable pub print_ℕ : ℕ → Bytes
print_ℕ n = if n == 0 then b'0' ∷ [] else digits_onto 20 n []

-- `%ld`
unfoldable pub print_long : ℤ → Bytes
print_long (pos n) = print_ℕ n
print_long (negsuc n) = b'-' ∷ print_ℕ (n + 1)

-- The digits that a text begins with, read behind the number `n`, and the rest.
unfoldable pub scan_digits : Bytes → ℕ → ℕ × Bytes
scan_digits [] n = (n, [])
scan_digits (c ∷ s) n = if is_digit c then scan_digits s (n * 10 + (c - b'0')) else (n, c ∷ s)

-- `strtol` returns LONG_MAX or LONG_MIN for what is out of range.
abbrev pub clamp : Bool → ℕ → ℤ
clamp negative n =
    if negative
    then (if n == 0 then pos 0 else if leb n (2 ^ 63) then negsuc (n - 1) else negsuc (2 ^ 63 - 1))
    else (if leb n (2 ^ 63 - 1) then pos n else pos (2 ^ 63 - 1))

abbrev pub starts_digit : Bytes → Bool
starts_digit [] = false
starts_digit (c ∷ s) = is_digit c

unsigned_part : Bool → Bytes → Option (ℤ × Bytes)
unsigned_part negative s =
    let (n, rest) = scan_digits s 0 in
    if starts_digit s then some (clamp negative n, rest) else none

signed_part : Bytes → Option (ℤ × Bytes)
signed_part [] = none
signed_part (c ∷ s) =
    if c == b'-'
    then unsigned_part true s
    else if c == b'+'
    then unsigned_part false s
    else unsigned_part false (c ∷ s)

unfoldable pub skip_spaces : Bytes → Bytes
skip_spaces [] = []
skip_spaces (c ∷ s) = if is_space c then skip_spaces s else c ∷ s

-- `strtol(s, &end, 10)`: the number and the text at `end`, or `none` where `end` stays at `s`.
unfoldable pub strtol : Bytes → Option (ℤ × Bytes)
unfolding skip_spaces signed_part unsigned_part scan_digits
strtol s = signed_part (skip_spaces s)

scan_last : (n : ℕ) (out : Bytes) → scan_digits ((b'0' + n % 10) ∷ out) (n / 10) ≡ scan_digits out n
unfolding scan_digits
scan_last n out = ground arith

scan_digits-digits :
    (fuel n : ℕ) (out : Bytes)
    → n < 10 ^ fuel
    → scan_digits (digits_onto fuel n out) 0 ≡ scan_digits out n
unfolding digits_onto
scan_digits-digits zero n out h = ap (scan_digits out) {x = 0} {y = n} (omega arith)
scan_digits-digits (suc fuel) n out h = ground (
  arith,
  pow-suc 10 fuel,
  scan_last n out,
  scan_digits-digits fuel (n / 10) ((b'0' + n % 10) ∷ out),
)

starts_digit-digits :
    (fuel n : ℕ) (out : Bytes)
    → starts_digit out ≡ true
    → starts_digit (digits_onto fuel n out) ≡ true
unfolding digits_onto
starts_digit-digits zero n out h = h
starts_digit-digits (suc fuel) n out h =
    ground (arith, starts_digit-digits fuel (n / 10) ((b'0' + n % 10) ∷ out))

pub starts_digit-print : (n : ℕ) → starts_digit (print_ℕ n) ≡ true
unfolding print_ℕ digits_onto
starts_digit-print n = ground (arith, starts_digit-digits 19 (n / 10) ((b'0' + n % 10) ∷ []))

pub scan_digits-print : (n : ℕ) → n ≤ 2 ^ 63 → scan_digits (print_ℕ n) 0 ≡ (n, [])
unfolding print_ℕ scan_digits
scan_digits-print n h = ground (arith, scan_digits-digits 20 n [])

unsigned_part-print :
    (negative : Bool) (n : ℕ)
    → n ≤ 2 ^ 63
    → unsigned_part negative (print_ℕ n) ≡ some (clamp negative n, [])
unfolding unsigned_part
unsigned_part-print negative n h =
    rw (unsigned_part, scan_digits-print n h, starts_digit-print n) refl

strtol_unsigned : (s : Bytes) → starts_digit s ≡ true → strtol s ≡ unsigned_part false s
unfolding strtol signed_part skip_spaces
strtol_unsigned [] h = cc
strtol_unsigned (c ∷ s) h = ground arith

strtol_minus : (s : Bytes) → strtol (b'-' ∷ s) ≡ unsigned_part true s
unfolding strtol signed_part skip_spaces
strtol_minus s = refl

-- The values of a `long`.
abbrev pub IsLong : ℤ → Type 0
IsLong (pos n) = n < 2 ^ 63
IsLong (negsuc n) = n < 2 ^ 63

clamp_pos : (n : ℕ) → n < 2 ^ 63 → clamp false n ≡ pos n
clamp_pos n h = ground arith

clamp_negsuc : (n : ℕ) → n < 2 ^ 63 → clamp true (n + 1) ≡ negsuc n
clamp_negsuc n h = ground arith

-- Reading back what `%ld` wrote.
pub strtol-print : (z : ℤ) → IsLong z → strtol (print_long z) ≡ some (z, [])
unfolding print_long
strtol-print (pos n) h =
    rw
      (
        strtol_unsigned (print_ℕ n) (starts_digit-print n),
        unsigned_part-print false n (omega arith),
        clamp_pos n h,
      )
      refl
strtol-print (negsuc n) h =
    rw
      (
        strtol_minus (print_ℕ (n + 1)),
        unsigned_part-print true (n + 1) (omega arith),
        clamp_negsuc n h,
      )
      refl

contains-digits :
    (c fuel n : ℕ) (out : Bytes)
    → c < 43
    → contains c out ≡ false
    → contains c (digits_onto fuel n out) ≡ false
unfolding digits_onto contains
contains-digits c zero n out l h = h
contains-digits c (suc fuel) n out l h =
    ground (arith, contains-digits c fuel (n / 10) ((b'0' + n % 10) ∷ out) l)

contains-print_ℕ : (c n : ℕ) → c < 43 → contains c (print_ℕ n) ≡ false
unfolding print_ℕ contains
contains-print_ℕ c n l = ground (arith, contains-digits c 20 n [] l refl)

-- What `%ld` writes has no byte below '+'.
pub contains-print_long : (c : ℕ) (z : ℤ) → c < 43 → contains c (print_long z) ≡ false
unfolding print_long contains
contains-print_long c (pos n) l = contains-print_ℕ c n l
contains-print_long c (negsuc n) l = ground (arith, contains-print_ℕ c (n + 1) l)

abbrev beyond : Bool → ℕ → Bool
beyond negative n = if negative then ltb (2 ^ 63) n else ltb (2 ^ 63 - 1) n

signed_erange : Bytes → Bool
signed_erange [] = false
signed_erange (c ∷ s) =
    if c == b'-'
    then beyond true (scan_digits s 0).0
    else if c == b'+'
    then beyond false (scan_digits s 0).0
    else beyond false (scan_digits (c ∷ s) 0).0

-- Whether `strtol` and `strtoll` set `errno` to ERANGE.
unfoldable pub erange : Bytes → Bool
unfolding signed_erange skip_spaces scan_digits
erange s = signed_erange (skip_spaces s)

length-digits : (fuel n : ℕ) (out : Bytes) → length (digits_onto fuel n out) ≤ fuel + length out
unfolding digits_onto
length-digits zero n out = omega arith
length-digits (suc fuel) n out = ground (arith, length-digits fuel (n / 10) ((b'0' + n % 10) ∷ out))

-- A number has at most 20 digits, and a `long` at most a sign in front of them.
pub length-print_long : (z : ℤ) → length (print_long z) ≤ 21
unfolding print_long print_ℕ
length-print_long (pos n) = ground (arith, length-digits 20 n [])
length-print_long (negsuc n) = ground (arith, length-digits 20 (n + 1) [])
