-- ===== src/ClipStore/Index/Mask.antt =====
-- The mask of `find_slot`: for a power of two, `x & (cap - 1)` is `x % cap`.
use Prim.Native.Nat.{bit_and, digits, bit_and-bitwise}
use native.Mathlib.Nat.{pow-suc, div-add-mod', add-mul-mod_self_right, mod-eq_of_lt, mod-lt}
use stream_data_pipline.Prelude.{
  ℕ, zero, suc, ◌+◌, ◌-◌, ◌*◌, ◌/◌, ◌%◌, ◌^◌, ◌≤◌, ◌<◌, ◌≡◌, sym, min, arith, ap, ◌∙◌,
}

pub pow_pos : (k : ℕ) → 0 < 2 ^ k
pow_pos zero = omega arith
pow_pos (suc k) = omega (arith, pow-suc 2 k, pow_pos k)

-- The remainder by twice `m` from the remainder of the half by `m`.
mod_double : (x m : ℕ) → 0 < m → x % (m * 2) ≡ x / 2 % m * 2 + x % 2
mod_double x m h =
    let r = x / 2 % m * 2 + x % 2 in
    ap (λ (t : ℕ). t % (m * 2)) {x = x} {y = r + x / 2 / m * (m * 2)}
      (omega (arith, div-add-mod' (x / 2) m))
    ∙ add-mul-mod_self_right r (x / 2 / m) (m * 2)
    ∙ mod-eq_of_lt (omega (arith, mod-lt (x / 2) h))

mask_half : (m : ℕ) → 0 < m → ((m * 2 - 1) / 2 ≡ m - 1) × ((m * 2 - 1) % 2 ≡ 1)
mask_half m h = omega arith

zero_rest : (k : ℕ) → 0 ≡ 0 % 2 ^ k
zero_rest k = sym (mod-eq_of_lt (pow_pos k))

-- The loop that stands for `bit_and`, on a mask of `k` ones and on any sufficient number of rounds.
masked : (rounds k x : ℕ) → x ≤ rounds → digits (λ y. zero) min rounds x (2 ^ k - 1) ≡ x % 2 ^ k
masked zero k zero h = zero_rest k
masked zero k (suc x) h = absurd (omega arith)
masked (suc rounds) k zero h = zero_rest k
masked (suc rounds) zero (suc x) h = omega (arith, masked rounds 0 (suc x / 2) (omega arith))
masked (suc rounds) (suc k) (suc x) h =
    let (half, odd) = mask_half (2 ^ k) (pow_pos k) in
    let rest = masked rounds k (suc x / 2) (omega arith) in
    rw (pow-suc 2 k, half, odd, rest, mod_double (suc x) (2 ^ k) (pow_pos k)) (omega arith)

-- A mask of `k` ones takes the remainder by 2 ^ k.
pub bit_and-mask : (k x : ℕ) → bit_and x (2 ^ k - 1) ≡ x % 2 ^ k
bit_and-mask k x = bit_and-bitwise x (2 ^ k - 1) ∙ masked x k x (omega arith)
