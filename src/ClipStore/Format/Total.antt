-- ===== src/ClipStore/Format/Total.antt =====
-- `parse_db_row` (db_format.c) always returns: the buffer cannot be doubled beyond PTRDIFF_MAX.
use stream_data_pipline.Prelude.{
  ℕ, zero, suc, ◌+◌, ◌*◌, ◌%◌, ◌^◌, ◌≤◌, ◌<◌, ◌≡◌, refl, ap, sym, Bool, true, false, Option, none,
  some, ◌∷◌, arith, ltb, inl, inr, Bool-cases, Option-cases, if◌then◌else◌, length, length-append,
  drop, length-drop,
}
use stream_data_pipline.Prelude.Bytes.{Bytes, split_at, split_at_sound, starts_with, is_empty}
use stream_data_pipline.Prelude.Int.{ℤ}
use stream_data_pipline.Prelude.Decimal.{strtol}
use stream_data_pipline.Base64.{decode}
use stream_data_pipline.Base64.Bounds.{decode_within}
use mathlib.Core.Path.{subst}
use stream_data_pipline.ClipStore.Format.{
  Heap, Zlib, Inflated, inflated, short, corrupt, Unpacked, unpacked, refused, overrun, c_string,
  z_prefix, parsed, rejected, tab, inflate, first_size, unpack, with_value, parse_fields,
  parse_db_row,
}
use stream_data_pipline.ClipStore.Format.Inflate.{double_pow}

-- The call returns something.
abbrev pub Returns {ℓ} : {A : Type ℓ} → Option A → Type 0
Returns none = ⊥
Returns (some a) = Unit

pub as_Returns {ℓ} : {A : Type ℓ} {a b : Option A} → a ≡ b → Returns b → Returns a
as_Returns e r = subst Returns (sym e) r

inflate-Returns :
    (h : Heap) (z : Zlib) (comp : Bytes) (fuel size : ℕ)
    → 0 < size
    → size < 2 ^ 63
    → 2 ^ 63 ≤ size * 2 ^ fuel
    → Returns (inflate h z fuel comp size)
unfolding inflate
inflate-Returns h z comp zero size pos small enough = absurd (omega arith)
inflate-Returns h z comp (suc fuel) size pos small enough = go (z.uncompress comp size) (λ fits.
    inflate-Returns h z comp fuel (size * 2) (omega arith) fits
      (omega (arith, double_pow size fuel)))
  where
    next_same : size * 2 % 2 ^ 64 ≡ size * 2
    next_same = omega arith

    doubled : ℕ
    doubled = size * 2 % 2 ^ 64

    again :
        (ok : Bool)
        → h.malloc_ok doubled ≡ ok
        → (size * 2 < 2 ^ 63 → Returns (inflate h z fuel comp (size * 2)))
        → Returns (if ok then inflate h z fuel comp doubled else some refused)
    again false e ih = tt
    again true e ih =
        let fits : doubled < 2 ^ 63 = h.malloc_bound doubled e in
        subst (λ (n : ℕ). Returns (inflate h z fuel comp n)) (sym next_same)
          (ih (omega (arith, next_same)))

    go :
        (r : Inflated)
        → (size * 2 < 2 ^ 63 → Returns (inflate h z fuel comp (size * 2)))
        → Returns (elim r [
          | inflated v ↦ some (if ltb (length v) size then unpacked (c_string v) else overrun)
          | corrupt ↦ some refused
          | short ↦ if h.malloc_ok doubled then inflate h z fuel comp doubled else some refused
        ])
    go (inflated v) ih = tt
    go corrupt ih = tt
    go short ih = again (h.malloc_ok doubled) refl ih

unpack-Returns :
    (h : Heap) (z : Zlib) (b64 : Bytes) → length b64 < 2 ^ 61 → Returns (unpack h z b64)
unfolding unpack
unpack-Returns h z b64 small = elim (Bool-cases (h.malloc_ok (length b64 + 1))) [
  | inr denied ↦ rw denied tt
  | inl granted ↦ elim (Option-cases (decode b':' b64 (length b64 + 1))) [
    | inl bad ↦ rw (granted, bad) tt
    | inr (comp, good) ↦
        rw (granted, good)
          (sized comp (decode_within b':' b64 (length b64 + 1) (omega arith) good)
            (h.malloc_ok (first_size comp)) refl)
  ]
]
  where
    sized :
        (comp : Bytes)
        → length comp ≤ length b64
        → (ok : Bool) → h.malloc_ok (first_size comp) ≡ ok
        → Returns (if ok then inflate h z 64 comp (first_size comp) else some refused)
    sized comp l false e = tt
    sized comp l true e =
        inflate-Returns h z comp 64 (first_size comp) (omega arith)
          (h.malloc_bound (first_size comp) e) (omega arith)

with_value-Returns :
    (key : Bytes) (expire_at : ℤ) (u : Option Unpacked)
    → Returns u
    → Returns (with_value key expire_at u)
with_value-Returns key expire_at none r = r
with_value-Returns key expire_at (some (unpacked v)) r = tt
with_value-Returns key expire_at (some refused) r = tt
with_value-Returns key expire_at (some overrun) r = tt

length-drop_two : (s : Bytes) → length (drop 2 s) ≤ length s
length-drop_two s = omega (arith, length-drop 2 s)

parse_fields-Returns :
    (h : Heap) (z : Zlib) (key value number : Bytes)
    → length value < 2 ^ 61
    → Returns (parse_fields h z key value number)
unfolding parse_fields
parse_fields-Returns h z key value number small = elim (Option-cases (strtol number)) [
  | inl e ↦ as_Returns {b = some rejected} (rw (parse_fields, e) refl) tt
  | inr ((n, rest), e) ↦ elim (Bool-cases (is_empty rest)) [
    | inr more ↦ as_Returns {b = some rejected} (rw (parse_fields, e, more) refl) tt
    | inl done ↦ elim (Bool-cases (starts_with z_prefix value)) [
      | inr plain ↦
          as_Returns {b = some (parsed (record { key = key; value = value; expire_at = n }))}
            (rw (parse_fields, e, done, plain) refl) tt
      | inl zipped ↦ as_Returns (rw (parse_fields, e, done, zipped) refl) (
          with_value-Returns key n _
            (unpack-Returns h z (drop 2 value) (omega (arith, length-drop_two value))))
    ]
  ]
]

split_at_shorter :
    (c : ℕ) (s : Bytes) {a b : Bytes}
    → split_at c s ≡ some (a, b)
    → (length a ≤ length s) × (length b ≤ length s)
split_at_shorter c s {a = a} {b = b} h =
    let (e, _) = split_at_sound c s {a = a} {b = b} h in
    omega (arith, ap length e, length-append a (c ∷ b))

-- `parse_db_row` returns for every line of less than 2 ^ 61 bytes, whatever the compressor answers.
pub parse_db_row-Returns :
    (h : Heap) (z : Zlib) (line : Bytes) → length line < 2 ^ 61 → Returns (parse_db_row h z line)
unfolding parse_db_row
parse_db_row-Returns h z line small = elim (Option-cases (split_at tab line)) [
  | inl e ↦ as_Returns {b = some rejected} (rw (parse_db_row, e) refl) tt
  | inr ((key, rest), e) ↦ elim (Option-cases (split_at tab rest)) [
    | inl e' ↦ as_Returns {b = some rejected} (rw (parse_db_row, e, e') refl) tt
    | inr ((value, number), e') ↦
        let outer = split_at_shorter tab line {a = key} {b = rest} e in
        let inner = split_at_shorter tab rest {a = value} {b = number} e' in
        as_Returns (rw (parse_db_row, e, e') refl)
          (parse_fields-Returns h z key value number (omega (arith, outer.1, inner.0)))
  ]
]
