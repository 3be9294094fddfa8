-- ===== src/ClipStore/Format.antt =====
-- applets/clip_store/db_format.c: the rows as lines of the database file. A line is the key, the
-- value and the expiry, parted by tabs; a value that is not empty is compressed and written in
-- Base64 behind "Z:". The compressor is miniz, the allocator and stdio are the C library's: all
-- three are parameters. A write behind a block of memory is a result of its own.
pub mod Inflate
pub mod Reads
pub mod RoundTrip
pub mod Total
use stream_data_pipline.Prelude.{
  ℕ, zero, suc, ◌+◌, ◌*◌, ◌/◌, ◌%◌, ◌^◌, ◌<◌, ◌≡◌, Bool, true, false, not, Option, none, some, [],
  ◌∷◌, ◌++◌, ltb, ◌==◌, if◌then◌else◌, length, drop,
}
use stream_data_pipline.Prelude.Bytes.{Bytes, is_empty, starts_with, split_at, codes}
use stream_data_pipline.Prelude.Int.{ℤ}
use stream_data_pipline.Prelude.Decimal.{strtol, print_long}
use stream_data_pipline.Base64.{encode, decode}
use stream_data_pipline.ClipStore.Row.{Row}

abbrev pub tab : ℕ
tab = 9

abbrev pub newline : ℕ
newline = 10

-- `malloc` and `realloc`: no object is larger than PTRDIFF_MAX.
pub record Heap : Type 0 where
  pub malloc_ok : ℕ → Bool
  pub malloc_bound : (n : ℕ) → malloc_ok n ≡ true → n < 2 ^ 63

-- What `uncompress` answers: Z_OK with the bytes, Z_BUF_ERROR, or another error.
pub data Inflated : Type 0 where
  inflated : Bytes → Inflated
  short : Inflated
  corrupt : Inflated

-- miniz: `compressBound`, `mz_compress` and `uncompress` into a buffer of a given size.
pub record Zlib : Type 0 where
  pub compress_bound : ℕ → ℕ
  pub compress : Bytes → ℕ → Option Bytes
  pub uncompress : Bytes → ℕ → Inflated

-- stdio on a stream, which is its text: what the file has, with what is buffered for it. Whether
-- `fseek` to the end succeeds, and what `fprintf` does, which on success puts the text at the end.
pub record Stdio : Type 0 where
  pub seek_ok : Bytes → Bool
  pub print : Bytes → Bytes → Bool × Bytes
  pub print_adds :
      (file text : Bytes) → (print file text).0 ≡ true → (print file text).1 ≡ file ++ text

-- The value that a row gets: none for -1, or a NUL written behind the buffer.
pub data Unpacked : Type 0 where
  unpacked : Bytes → Unpacked
  refused : Unpacked
  overrun : Unpacked

-- What a C string is taken to be.
pub c_string : Bytes → Bytes
c_string [] = []
c_string (c ∷ s) = if c == 0 then [] else c ∷ c_string s

-- `uncomp[uncomp_len] = '\0'`
abbrev pub terminate : ℕ → Bytes → Unpacked
terminate size v = if ltb (length v) size then unpacked (c_string v) else overrun

-- The loop `while (status == Z_BUF_ERROR)`, on fuel.
pub inflate : Heap → Zlib → ℕ → Bytes → ℕ → Option Unpacked
inflate h z zero comp size = none
inflate h z (suc fuel) comp size =
    let next = size * 2 % 2 ^ 64 in
    let rest = inflate h z fuel comp next in
    elim (z.uncompress comp size) [
      | inflated v ↦ some (terminate size v)
      | corrupt ↦ some refused
      | short ↦ if h.malloc_ok next then rest else some refused
    ]

-- `comp_len * 4 + 1024`
abbrev pub first_size : Bytes → ℕ
first_size comp = (length comp * 4 + 1024) % 2 ^ 64

-- The compressed branch of `parse_db_row`. A size of at least 1024 doubles at most 53 times below
-- PTRDIFF_MAX.
pub unpack : Heap → Zlib → Bytes → Option Unpacked
unpack h z b64 =
    if not (h.malloc_ok (length b64 + 1))
    then some refused
    else (elim (decode b':' b64 (length b64 + 1)) [
      | none ↦ some refused
      | some comp ↦
          let out = inflate h z 64 comp (first_size comp) in
          if h.malloc_ok (first_size comp) then out else some refused
    ])

-- What `parse_db_row` leaves.
pub data Parsed : Type 0 where
  parsed : Row → Parsed
  rejected : Parsed
  crashed : Parsed

abbrev pub with_value : Bytes → ℤ → Option Unpacked → Option Parsed
with_value key expire_at none = none
with_value key expire_at (some refused) = some rejected
with_value key expire_at (some overrun) = some crashed
with_value key expire_at (some (unpacked v)) =
    some (parsed (record { key = key; value = v; expire_at = expire_at }))

abbrev pub z_prefix : Bytes
z_prefix = b'Z' ∷ b':' ∷ []

unfoldable pub parse_fields : Heap → Zlib → Bytes → Bytes → Bytes → Option Parsed
parse_fields h z key value number =
    let unzipped = with_value key in
    elim (strtol number) [
      | none ↦ some rejected
      | some (expire_at, end) ↦
          if not (is_empty end)
          then some rejected
          else if starts_with z_prefix value
          then unzipped expire_at (unpack h z (drop 2 value))
          else some (parsed (record { key = key; value = value; expire_at = expire_at }))
    ]

-- `parse_db_row`
unfoldable pub parse_db_row : Heap → Zlib → Bytes → Option Parsed
parse_db_row h z line = elim (split_at tab line) [
  | none ↦ some rejected
  | some (key, rest) ↦ elim (split_at tab rest) [
    | none ↦ some rejected
    | some (value, number) ↦ parse_fields h z key value number
  ]
]

-- The text of the `fprintf` calls: `"%s\t%s\t%ld\n"`.
abbrev pub row_text : Bytes → Bytes → ℤ → Bytes
row_text key value expire_at = key ++ tab ∷ (value ++ tab ∷ (print_long expire_at ++ newline ∷ []))

-- The compressed branch of `append_db_row` up to the text that it prints, or `none` for -1.
pub pack : Heap → Zlib → Bytes → Option Bytes
pack h z value =
    let bound = z.compress_bound (length value) in
    if not (h.malloc_ok bound) then none else (elim (z.compress value bound) [
      | none ↦ none
      | some comp ↦
          let b64_len = (4 * ((length comp + 2) / 3) + 1) % 2 ^ 64 in
          if not (h.malloc_ok (b64_len + 3))
          then none
          else (elim (encode comp b64_len) [ none ↦ none | some s ↦ some (b'Z' ∷ b':' ∷ s) ])
    ])

-- `append_db_row`: whether it returned 0, and the file.
unfoldable pub append_db_row : Heap → Zlib → Stdio → Bytes → Bytes → Bytes → ℤ → Bool × Bytes
append_db_row h z io file key value expire_at =
    if not (io.seek_ok file)
    then (false, file)
    else if is_empty value
    then io.print file (row_text key [] expire_at)
    else (elim (pack h z value) [
      | none ↦ (false, file)
      | some packed ↦ io.print file (row_text key packed expire_at)
    ])
