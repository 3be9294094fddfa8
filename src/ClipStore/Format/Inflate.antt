-- ===== src/ClipStore/Format/Inflate.antt =====
-- The loop of `parse_db_row` (db_format.c) that doubles its buffer until the value fits.
use native.Mathlib.Nat.{pow-suc}
use stream_data_pipline.Prelude.{
  ℕ, zero, suc, ◌*◌, ◌%◌, ◌^◌, ◌≤◌, ◌<◌, ◌≡◌, ◌≢◌, refl, ◌∙◌, ap, true, Option, some, [], arith,
  leb, leb→le, ◌⊎◌, inl, inr, Bool-cases, length,
}
use stream_data_pipline.Prelude.Bytes.{Bytes}
use stream_data_pipline.Base64.RoundTrip.{AreBytes}
use stream_data_pipline.ClipStore.Format.{Heap, Zlib, inflated, short, Unpacked, terminate, inflate}

-- What miniz documents of a text and its compressed form.
pub record Compresses (z : Zlib) (v comp : Bytes) : Type 0 where
  pub bytes : AreBytes comp
  pub nonempty : comp ≢ []
  pub restores : (n : ℕ) → length v ≤ n → z.uncompress comp n ≡ inflated v
  pub asks : (n : ℕ) → n < length v → z.uncompress comp n ≡ short

-- A heap that grants every object up to PTRDIFF_MAX.
abbrev pub IsAmple : Heap → Type 0
IsAmple h = (n : ℕ) → n < 2 ^ 63 → h.malloc_ok n ≡ true

-- The buffer that the loop ends with: the first of the doublings that holds the value.
pub record Inflates (v : Bytes) (size : ℕ) (result : Option Unpacked) : Type 0 where
  pub doublings : ℕ
  pub returns : result ≡ some (terminate (size * 2 ^ doublings) v)
  pub holds : length v ≤ size * 2 ^ doublings
  pub first : (doublings ≡ 0) ⊎ (size * 2 ^ doublings < length v * 2)

pub double_pow : (size k : ℕ) → size * 2 * 2 ^ k ≡ size * 2 ^ suc k
double_pow size k = grind (arith, pow-suc 2 k)

module _ (h : Heap) (z : Zlib) (v comp : Bytes) (ample : IsAmple h) (c : Compresses z v comp)
    (small : length v < 2 ^ 62) where
  fits_now : (fuel size : ℕ) → length v ≤ size → Inflates v size (inflate h z (suc fuel) comp size)
  unfolding inflate
  fits_now fuel size fits = record {
    doublings = 0;
    returns =
        rw (inflate, c.restores size fits)
          (ap (λ (n : ℕ). some (terminate n v)) {x = size} {y = size * 2 ^ 0} (omega arith));
    holds = omega arith;
    first = inl refl;
  }

  grows_once :
      (fuel size : ℕ)
      → 0 < size
      → size < length v
      → Inflates v (size * 2) (inflate h z fuel comp (size * 2))
      → Inflates v size (inflate h z (suc fuel) comp size)
  unfolding inflate
  grows_once fuel size pos over r =
      let next : size * 2 % 2 ^ 64 ≡ size * 2 = omega arith in
      let moved : size * 2 * 2 ^ r.doublings ≡ size * 2 ^ suc r.doublings =
        double_pow size r.doublings in
      record {
        doublings = suc r.doublings;
        returns =
            rw (inflate, c.asks size over, next, ample (size * 2) (omega arith)) r.returns
            ∙ ap (λ (n : ℕ). some (terminate n v)) moved;
        holds = omega (arith, r.holds, moved);
        first = inr (elim r.first [
          | inl e ↦ omega (arith, ap (λ (k : ℕ). size * 2 ^ suc k) e)
          | inr l ↦ omega (arith, moved)
        ]);
      }

  pub inflate-Inflates :
      (fuel size : ℕ)
      → 0 < size
      → length v ≤ size * 2 ^ fuel
      → Inflates v size (inflate h z (suc fuel) comp size)
  inflate-Inflates zero size pos enough = fits_now 0 size (omega arith)
  inflate-Inflates (suc fuel) size pos enough = elim (Bool-cases (leb (length v) size)) [
    | inl fits ↦ fits_now (suc fuel) size (leb→le (length v) size fits)
    | inr over ↦
        grows_once (suc fuel) size pos (ground arith)
          (inflate-Inflates fuel (size * 2) (omega arith) (omega (arith, double_pow size fuel)))
  ]
