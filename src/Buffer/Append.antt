-- ===== src/Buffer/Append.antt =====
-- The appending functions of lib/dynamic_buffer.c against the list of bytes that they build.
use stream_data_pipline.Prelude.{
  ℕ, suc, ◌+◌, ◌≤◌, ◌<◌, ◌≡◌, ◌≢◌, ◌⊎◌, inl, inr, refl, ap, ◌∙◌, Bool, true, false, some, none,
  Option, [], ◌∷◌, ◌++◌, arith, length, take, set, length-set, get_elem?-set_self, take-set_ge,
  take-suc-set, take_all, append_assoc, append-nil,
}
use stream_data_pipline.Prelude.Bytes.{Bytes}
use stream_data_pipline.Buffer.{
  Buffer, Status, ok, einval, eio, Allocator, size_max, add_size, old_bytes, is_null, copy_at, fail,
  reserve, put, put_if_ok, append_char, append_mem, append_str,
}
use stream_data_pipline.Buffer.Laws.{
  contents, IsValid, Reserves, fail-IsValid, reserve_total, reserve-Reserves,
}

pub length-copy_at : (d : Bytes) (at : ℕ) (bs : Bytes) → length (copy_at d at bs) ≡ length d
length-copy_at d at [] = refl
length-copy_at d at (b ∷ bs) = length-copy_at (set d at b) (at + 1) bs ∙ length-set d at b

-- Copying behind the first `at` bytes keeps them and puts the new ones there.
pub take-copy_at :
    (d : Bytes) (at n : ℕ) (bs : Bytes)
    → n ≡ at + length bs
    → n ≤ length d
    → take n (copy_at d at bs) ≡ take at d ++ bs
take-copy_at d at n [] e h = let e' : n ≡ at = omega arith in rw (e', append-nil)
take-copy_at d at n (b ∷ bs) e h =
    take-copy_at (set d at b) (at + 1) n bs (omega arith) (omega (arith, length-set d at b))
    ∙ ap (λ l. l ++ bs)
        (ap (λ k. take k (set d at b)) {x = at + 1} {y = suc at} (omega arith)
          ∙ take-suc-set d at b (omega arith))
    ∙ append_assoc (take at d) (b ∷ []) bs

-- What appending `bs` leaves, whatever it returns: on success exactly those bytes are behind the
-- old contents; otherwise the contents are untouched and the buffer is latched as failed.
pub record Appends (b : Buffer) (bs : Bytes) (r : Status × Buffer) : Type 0 where
  pub valid : IsValid r.1
  pub appended :
      r.0 ≡ ok
      → (contents r.1 ≡ contents b ++ bs) × (r.1.len ≡ b.len + length bs) × (r.1.failed ≡ b.failed)
  pub untouched : r.0 ≢ ok → (contents r.1 ≡ contents b) × (r.1.len ≡ b.len) × (r.1.failed ≡ true)

put_block :
    (d : Bytes) (len cap : ℕ) (failed : Bool) (bs : Bytes)
    → length d ≡ cap
    → cap ≤ size_max
    → len + length bs < cap
    → let b : Buffer = record { block = some d; len = len; cap = cap; failed = failed } in
      IsValid (put b bs)
      × (contents (put b bs) ≡ take len d ++ bs)
      × ((put b bs).len ≡ len + length bs)
put_block d len cap failed bs size small room =
    let e : add_size len (length bs) ≡ len + length bs = omega arith in
    let n = add_size len (length bs) in
    let d' = copy_at d len bs in
    let size' = length-copy_at d len bs in
    (
      record {
        sized = length-set d' n 0 ∙ size' ∙ size;
        small = small;
        null_len = λ h. cc;
        terminated = λ h. (omega arith, get_elem?-set_self d' n 0 (omega arith));
      },
      take-set_ge n d' n 0 (omega arith) ∙ take-copy_at d len n bs e (omega arith),
      e,
    )

put_parts :
    (o : Option Bytes) (len cap : ℕ) (failed : Bool) (bs : Bytes)
    → length (old_bytes o) ≡ cap
    → cap ≤ size_max
    → is_null o ≡ false
    → len + length bs < cap
    → let b : Buffer = record { block = o; len = len; cap = cap; failed = failed } in
      IsValid (put b bs)
      × (contents (put b bs) ≡ contents b ++ bs)
      × ((put b bs).len ≡ len + length bs)
put_parts none len cap failed bs size small n room = cc
put_parts (some d) len cap failed bs size small n room =
    put_block d len cap failed bs size small room

put_lem :
    (b : Buffer) (bs : Bytes)
    → IsValid b
    → is_null b.block ≡ false
    → b.len + length bs < b.cap
    → IsValid (put b bs)
      × (contents (put b bs) ≡ contents b ++ bs)
      × ((put b bs).len ≡ b.len + length bs)
put_lem b bs v = put_parts b.block b.len b.cap b.failed bs v.sized v.small

put_if_ok-Appends :
    (b : Buffer) (bs : Bytes) (r : Status × Buffer)
    → Reserves b (length bs) r
    → Appends b bs (put_if_ok r bs)
put_if_ok-Appends b bs (ok, b') r =
    let (live, there, room) = r.room refl in
    let (valid, bytes, len) = put_lem b' bs r.valid there (omega (arith, r.same_len)) in
    record {
      valid = valid;
      appended = λ h. (bytes ∙ ap (λ l. l ++ bs) r.same, omega (arith, r.same_len), live);
      untouched = λ ne. absurd (ne refl);
    }
put_if_ok-Appends b bs (_, b') r = record {
  valid = fail-IsValid r.valid;
  appended = λ h. cc;
  untouched = λ h. (r.same, r.same_len, refl);
}

refused :
    (b : Buffer) (bs : Bytes) (e : Status) (c : Buffer)
    → IsValid b
    → e ≢ ok
    → (c ≡ b) × (b.failed ≡ true) ⊎ (c ≡ fail b)
    → Appends b bs (e, c)
refused b bs e c v ne (inl (same, dead)) =
    rw same
      (record { valid = v; appended = λ h. absurd (ne h); untouched = λ h. (refl, refl, dead) })
refused b bs e c v ne (inr same) = rw same (record {
  valid = fail-IsValid v;
  appended = λ h. absurd (ne h);
  untouched = λ h. (refl, refl, refl);
})

module _ (m : Allocator) (b : Buffer) where
  -- A byte is appended behind the contents, or the buffer is left as it was and latched.
  pub append_char-Appends :
      (c : ℕ)
      → IsValid b
      → b.failed ≡ false
      → b.len + 1 < size_max
      → Appends b (c ∷ []) (append_char m b c)
  unfolding append_char
  append_char-Appends c v live fits =
      put_if_ok-Appends b (c ∷ []) (reserve m b 1) (reserve-Reserves m b 1 v live (omega arith))

  -- A range of bytes is appended behind the contents, embedded NULs included, or the buffer is left
  -- as it was and latched.
  pub append_mem-Appends :
      (bs : Bytes)
      → IsValid b
      → b.failed ≡ false
      → b.len + length bs < size_max
      → Appends b bs (append_mem m b (some bs) (length bs))
  unfolding append_mem
  append_mem-Appends bs v live fits =
      simp (live, take_all (length bs) bs (omega arith))
        (put_if_ok-Appends b bs (reserve m b (length bs))
          (reserve-Reserves m b (length bs) v live (omega arith)))

  pub append_str-Appends :
      (s : Bytes)
      → IsValid b
      → b.failed ≡ false
      → b.len + length s < size_max
      → Appends b s (append_str m b (some s))
  unfolding append_str
  append_str-Appends s v live fits = simp live (append_mem-Appends s v live fits)

  -- Once latched, no append does anything until the buffer is reset.
  pub append_latched :
      (c : ℕ) (src : Option Bytes) (n : ℕ)
      → b.failed ≡ true
      → (append_char m b c ≡ (eio, b))
        × (append_mem m b src n ≡ (eio, b))
        × (append_str m b src ≡ (eio, b))
  unfolding append_char append_str append_mem reserve
  append_latched c src n h = ground arith

  -- A NULL source of at least one byte is refused, and latches.
  pub append_null :
      (n : ℕ)
      → b.failed ≡ false
      → 0 < n
      → (append_mem m b none n ≡ (einval, fail b)) × (append_str m b none ≡ (einval, fail b))
  unfolding append_str append_mem
  append_null n live pos = ground arith

put_if_ok_ok : (r : Status × Buffer) (bs : Bytes) → r.0 ≡ ok → (put_if_ok r bs).0 ≡ ok
put_if_ok_ok (ok, b) bs h = refl
put_if_ok_ok (_, b) bs h = cc

-- With memory for everything an append fails on no buffer that works.
module _ (m : Allocator) (b : Buffer) (all : (n : ℕ) → m.grants n ≡ true) (v : IsValid b)
    (live : b.failed ≡ false) where
  pub append_char_total : (c : ℕ) → b.len + 1 < size_max → (append_char m b c).0 ≡ ok
  unfolding append_char
  append_char_total c fits =
      put_if_ok_ok (reserve m b 1) (c ∷ []) (reserve_total m b 1 all v live (omega arith))

  pub append_mem_total :
      (s : Bytes) → b.len + length s < size_max → (append_mem m b (some s) (length s)).0 ≡ ok
  unfolding append_mem
  append_mem_total s fits = simp live (
      put_if_ok_ok (reserve m b (length s)) (take (length s) s)
        (reserve_total m b (length s) all v live (omega arith)))

  pub append_str_total :
      (s : Bytes) → b.len + length s < size_max → (append_str m b (some s)).0 ≡ ok
  unfolding append_str
  append_str_total s fits = simp live (append_mem_total s fits)
