-- ===== src/Buffer.antt =====
-- lib/dynamic_buffer.c: the growable byte buffer. A `size_t` is a number below 2 ^ 64 with its
-- wrap-around written out. The memory that `realloc` hands out is a parameter: which requests are
-- granted, and the indeterminate bytes of a new block. `buf` stands for the object that it points
-- to, so the guards against a NULL object have no counterpart; a NULL source is `none`.
mod Grow
pub mod Laws
pub mod Append
pub mod Steps
mod Tests
use stream_data_pipline.Prelude.{
  ℕ, zero, suc, ◌+◌, ◌-◌, ◌*◌, ◌/◌, ◌%◌, ◌^◌, ◌≡◌, Bool, true, false, Option, none, some, List, [],
  ◌∷◌, ◌++◌, ltb, leb, ◌==◌, ◌&&◌, not, if◌then◌else◌, length, set, take, drop,
}
use stream_data_pipline.Prelude.Bytes.{Bytes}

-- SIZE_MAX
abbrev pub size_max : ℕ
size_max = 2 ^ 64 - 1

abbrev pub add_size : ℕ → ℕ → ℕ
add_size a b = (a + b) % 2 ^ 64

abbrev pub sub_size : ℕ → ℕ → ℕ
sub_size a b = (a + 2 ^ 64 - b) % 2 ^ 64

-- `dynamic_buffer_t`. `block` is the memory behind `data`, `none` for NULL.
pub record Buffer : Type 0 where
  pub block : Option Bytes
  pub len : ℕ
  pub cap : ℕ
  pub failed : Bool

-- What a call returns: 0, or -1 with the `errno` that it sets.
pub data Status : Type 0 where
  ok einval eio eoverflow enomem : Status

-- The `realloc` of the C library. A block that it grows keeps its bytes.
pub record Allocator : Type 0 where
  pub grants : ℕ → Bool
  pub fresh : ℕ → Bytes
  pub length-fresh : (n : ℕ) → length (fresh n) ≡ n

abbrev pub old_bytes : Option Bytes → Bytes
old_bytes none = []
old_bytes (some d) = d

unfoldable pub realloc : Allocator → Option Bytes → ℕ → Option Bytes
realloc m block n =
    let d = old_bytes block in
    if m.grants n then some (take n (d ++ m.fresh (n - length d))) else none

-- `memcpy(block + at, bytes, …)`; a byte behind the end of the block would be a fault.
abbrev pub copy_at : Bytes → ℕ → Bytes → Bytes
copy_at d at [] = d
copy_at d at (b ∷ bs) = copy_at (set d at b) (at + 1) bs

-- A write through `buf->data`.
abbrev pub write_at : Option Bytes → ℕ → Bytes → Option Bytes
write_at none at bs = none
write_at (some d) at bs = some (copy_at d at bs)

abbrev pub is_null : Option Bytes → Bool
is_null none = true
is_null (some d) = false

-- `dynamic_buffer_free`, and the zero-initialised buffer
abbrev pub empty : Buffer
empty = record { block = none; len = 0; cap = 0; failed = false }

-- `dynamic_buffer_reset`
unfoldable pub reset : Buffer → Buffer
reset b = record b {
  block = write_at b.block 0 (0 ∷ []);
  len = 0;
  cap = if is_null b.block then 0 else b.cap;
  failed = false;
}

-- `dynamic_buffer_has_failed`
abbrev pub has_failed : Buffer → Bool
has_failed b = b.failed

-- The loop `while (next < need)`, on fuel: `none` if it runs out.
unfoldable pub grow : ℕ → ℕ → ℕ → Option ℕ
grow zero next need = if ltb next need then none else some next
grow (suc fuel) next need =
    let rest = grow fuel (next * 2) need in
    if ltb next need then (if ltb (size_max / 2) next then some need else rest) else some next

abbrev pub fail : Buffer → Buffer
fail b = record b { failed = true }

-- The second half of `dynamic_buffer_reserve`, once the new capacity is known. A capacity that is
-- at least 1 is doubled at most 64 times.
unfoldable pub resize : Allocator → Buffer → Option ℕ → Status × Buffer
unfolding realloc
resize m b none = (enomem, fail b)
resize m b (some next) = elim (realloc m b.block next) [
  | none ↦ (enomem, fail b)
  | some d ↦ (ok, record b { block = write_at (some d) b.len (0 ∷ []); cap = next })
]

-- `dynamic_buffer_reserve`
unfoldable pub reserve : Allocator → Buffer → ℕ → Status × Buffer
reserve m b extra =
    if b.failed
    then (eio, b)
    else if ltb 0 b.cap && is_null b.block
    then (einval, fail b)
    else if not (is_null b.block) && leb b.cap b.len
    then (einval, fail b)
    else if ltb (sub_size (size_max - 1) b.len) extra
    then (eoverflow, fail b)
    else let need = add_size (add_size b.len extra) 1 in
      if leb need b.cap
      then (ok, b)
      else resize m b (grow 64 (if b.cap == 0 then 128 else b.cap) need)

-- The tail of the appending functions: the bytes, the length, and the NUL behind them.
abbrev pub put : Buffer → Bytes → Buffer
put b bs =
    let len' = add_size b.len (length bs) in
    record b { block = write_at (write_at b.block b.len bs) len' (0 ∷ []); len = len' }

abbrev pub put_if_ok : Status × Buffer → Bytes → Status × Buffer
put_if_ok (ok, b) bs = (ok, put b bs)
put_if_ok (einval, b) bs = (einval, fail b)
put_if_ok (eio, b) bs = (eio, fail b)
put_if_ok (eoverflow, b) bs = (eoverflow, fail b)
put_if_ok (enomem, b) bs = (enomem, fail b)

-- `dynamic_buffer_append_char`
unfoldable pub append_char : Allocator → Buffer → ℕ → Status × Buffer
append_char m b c = put_if_ok (reserve m b 1) (c ∷ [])

-- `dynamic_buffer_append_mem`
unfoldable pub append_mem : Allocator → Buffer → Option Bytes → ℕ → Status × Buffer
append_mem m b src len =
    if b.failed
    then (eio, b)
    else if is_null src && ltb 0 len
    then (einval, fail b)
    else put_if_ok (reserve m b len) (take len (old_bytes src))

-- `dynamic_buffer_append_str`
unfoldable pub append_str : Allocator → Buffer → Option Bytes → Status × Buffer
append_str m b s =
    if b.failed
    then (eio, b)
    else if is_null s
    then (einval, fail b)
    else append_mem m b s (length (old_bytes s))
