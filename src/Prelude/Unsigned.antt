-- ===== src/Prelude/Unsigned.antt =====
-- `strtoul` of stdlib.h with base 10. An `unsigned long` has 64 bits; a number behind a minus sign is
-- negated in them.
use Prim.Native.Nat.{ℕ, ◌-◌, ◌%◌, ◌^◌, ◌≤◌}
use mathlib.Core.Path.{◌≡◌}
use mathlib.Core.Bool.{Bool, true, false}
use mathlib.Core.List.{[], ◌∷◌}
use mathlib.Core.Option.{Option, none, some}
use native.Mathlib.Omega.{arith}
use stream_data_pipline.Prelude.Tests.{leb, ltb, ◌==◌, if◌then◌else◌}
use stream_data_pipline.Prelude.Bytes.{Bytes}
use stream_data_pipline.Prelude.Decimal.{
  skip_spaces, scan_digits, starts_digit, starts_digit-print, scan_digits-print, print_ℕ,
}

-- The number, whether `errno` is set to ERANGE, and the text at `end`.
abbrev pub Unsigned : Type 0
Unsigned = ℕ × Bool × Bytes

-- ULONG_MAX for what is out of range.
abbrev pub unsigned_value : Bool → ℕ → ℕ
unsigned_value negative n =
    if ltb n (2 ^ 64) then (if negative then (2 ^ 64 - n) % 2 ^ 64 else n) else 2 ^ 64 - 1

abbrev unsigned_digits : Bool → Bytes → Option Unsigned
unsigned_digits negative s =
    let (n, rest) = scan_digits s 0 in
    if starts_digit s then some (unsigned_value negative n, leb (2 ^ 64) n, rest) else none

abbrev behind_sign : Bytes → Option Unsigned
behind_sign [] = none
behind_sign (c ∷ s) =
    if c == b'-'
    then unsigned_digits true s
    else if c == b'+'
    then unsigned_digits false s
    else unsigned_digits false (c ∷ s)

-- `strtoul(s, &end, 10)`, or `none` where `end` stays at `s`
unfoldable pub strtoul : Bytes → Option Unsigned
unfolding skip_spaces
strtoul s = behind_sign (skip_spaces s)

unsigned_digits-print :
    (negative : Bool) (n : ℕ)
    → n ≤ 2 ^ 63
    → unsigned_digits negative (print_ℕ n) ≡ some (unsigned_value negative n, false, [])
unsigned_digits-print negative n h = rw (scan_digits-print n h, starts_digit-print n) (ground arith)

strtoul_digits : (s : Bytes) → starts_digit s ≡ true → strtoul s ≡ unsigned_digits false s
unfolding strtoul skip_spaces
strtoul_digits [] h = cc
strtoul_digits (c ∷ s) h = ground arith

pub strtoul-print : (n : ℕ) → n ≤ 2 ^ 63 → strtoul (print_ℕ n) ≡ some (n, false, [])
strtoul-print n h =
    rw (strtoul_digits (print_ℕ n) (starts_digit-print n), unsigned_digits-print false n h)
      (ground arith)

pub strtoul-minus :
    (n : ℕ) → n ≤ 2 ^ 63 → strtoul (b'-' ∷ print_ℕ n) ≡ some ((2 ^ 64 - n) % 2 ^ 64, false, [])
unfolding strtoul skip_spaces
strtoul-minus n h = rw (unsigned_digits-print true n h) (ground arith)
