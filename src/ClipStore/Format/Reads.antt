-- ===== src/ClipStore/Format/Reads.antt =====
-- Reading the line of a compressed row with `parse_db_row` (db_format.c).
use stream_data_pipline.Prelude.{
  ℕ, ◌+◌, ◌*◌, ◌/◌, ◌%◌, ◌^◌, ◌≤◌, ◌<◌, ◌≡◌, ◌≢◌, refl, ◌∙◌, ap, false, Option, some, [], ◌∷◌, ◌++◌,
  arith, ltb, ◌⊎◌, inl, inr, Bool-cases, if◌then◌else◌, length,
}
use stream_data_pipline.Prelude.Bytes.{Bytes, contains, split_at, split_at-append, starts_with}
use stream_data_pipline.Prelude.Int.{ℤ}
use stream_data_pipline.Prelude.Decimal.{IsLong, strtol-print, print_long}
use stream_data_pipline.Base64.{decode}
use stream_data_pipline.Base64.RoundTrip.{AreBytes, encoded}
use stream_data_pipline.Base64.Length.{length-encoded, encode-encoded, decode-of_encoded}
use stream_data_pipline.Base64.Plain.{contains-encoded}
use stream_data_pipline.ClipStore.Row.{Row}
use stream_data_pipline.ClipStore.Format.{
  Heap, Zlib, Parsed, parsed, crashed, tab, c_string, terminate, inflate, first_size, unpack, pack,
  with_value, parse_fields, parse_db_row,
}
use stream_data_pipline.ClipStore.Format.Inflate.{Compresses, IsAmple, Inflates, inflate-Inflates}

c_string_same : (s : Bytes) → contains 0 s ≡ false → c_string s ≡ s
unfolding contains c_string
c_string_same [] h = refl
c_string_same (c ∷ s) h = ground (arith, c_string_same s)

-- A line of three fields, as `append_db_row` prints it, without its end.
abbrev pub line_of : Bytes → Bytes → ℤ → Bytes
line_of key packed expire_at = key ++ tab ∷ (packed ++ tab ∷ print_long expire_at)

pub parse_db_row-fields :
    (h : Heap) (z : Zlib) (key packed : Bytes) (expire_at : ℤ)
    → contains tab key ≡ false
    → contains tab packed ≡ false
    → parse_db_row h z (line_of key packed expire_at)
      ≡ parse_fields h z key packed (print_long expire_at)
unfolding parse_db_row
parse_db_row-fields h z key packed expire_at hk hp =
    let first : split_at tab (line_of key packed expire_at)
        ≡ some (key, packed ++ tab ∷ print_long expire_at) =
      split_at-append tab key (packed ++ tab ∷ print_long expire_at) hk in
    let second = split_at-append tab packed (print_long expire_at) hp in
    ground (arith, first, second)

-- The row that a line gives whose value was decompressed into a buffer of `size` bytes.
abbrev pub read_into : ℕ → Row → Parsed
read_into size row = if ltb (length row.value) size then parsed row else crashed

with_value-terminate :
    (size : ℕ) (row : Row)
    → contains 0 row.value ≡ false
    → with_value row.key row.expire_at (some (terminate size row.value)) ≡ some (read_into size row)
with_value-terminate size row h = elim (Bool-cases (ltb (length row.value) size)) [
  | inl fits ↦ rw (fits, c_string_same row.value h) refl
  | inr full ↦ rw full refl
]

-- What a compressed row is read back as: the buffer that is used is the first of the doublings of
-- four times the compressed length plus 1024 that holds the value, and the value must leave room for
-- its NUL.
pub record ReadsBack (row : Row) (comp : Bytes) (result : Option Parsed) : Type 0 where
  pub doublings : ℕ
  pub returns : result ≡ some (read_into ((length comp * 4 + 1024) * 2 ^ doublings) row)
  pub holds : length row.value ≤ (length comp * 4 + 1024) * 2 ^ doublings
  pub first : (doublings ≡ 0) ⊎ ((length comp * 4 + 1024) * 2 ^ doublings < length row.value * 2)

-- What is asked of a row and its compressed value.
pub record IsStorable (h : Heap) (z : Zlib) (row : Row) (comp : Bytes) : Type 0 where
  pub ample : IsAmple h
  pub bound : z.compress_bound (length row.value) < 2 ^ 63
  pub compressed : z.compress row.value (z.compress_bound (length row.value)) ≡ some comp
  pub law : Compresses z row.value comp
  pub small : length row.value < 2 ^ 62
  pub small_comp : length comp < 2 ^ 60
  pub key_plain : contains tab row.key ≡ false
  pub value_plain : contains 0 row.value ≡ false
  pub long : IsLong row.expire_at

decode_all :
    (comp : Bytes)
    → AreBytes comp
    → comp ≢ []
    → length comp < 2 ^ 60
    → decode b':' (encoded comp) (length (encoded comp) + 1) ≡ some comp
decode_all [] b ne small = absurd (ne refl)
decode_all (x ∷ src) b ne small =
    decode-of_encoded b':' _ x src b (omega arith) (omega (arith, length-encoded (x ∷ src)))

module _ (h : Heap) (z : Zlib) (row : Row) (comp : Bytes) (s : IsStorable h z row comp) where
  abbrev text : Bytes
  text = encoded comp

  pub pack_eq : pack h z row.value ≡ some (b'Z' ∷ b':' ∷ text)
  unfolding pack
  pack_eq =
      let room : (4 * ((length comp + 2) / 3) + 1) % 2 ^ 64 ≡ 4 * ((length comp + 2) / 3) + 1 =
        omega (arith, s.small_comp) in
      rw
        (
          pack,
          s.ample _ s.bound,
          s.compressed,
          room,
          s.ample (4 * ((length comp + 2) / 3) + 1 + 3) (omega (arith, s.small_comp)),
          encode-encoded comp (4 * ((length comp + 2) / 3) + 1) s.law.bytes (omega arith),
        )
        refl

  size_eq : first_size comp ≡ length comp * 4 + 1024
  size_eq = omega (arith, s.small_comp)

  unpack_eq : unpack h z text ≡ inflate h z 64 comp (length comp * 4 + 1024)
  unfolding unpack
  unpack_eq =
      rw
        (
          unpack,
          s.ample (length text + 1) (omega (arith, length-encoded comp, s.small_comp)),
          decode_all comp s.law.bytes s.law.nonempty s.small_comp,
          size_eq,
          s.ample (length comp * 4 + 1024) (omega (arith, s.small_comp)),
        )
        refl

  inflates : Inflates row.value (length comp * 4 + 1024) (unpack h z text)
  inflates = rw unpack_eq (
      inflate-Inflates h z row.value comp s.ample s.law s.small 63 (length comp * 4 + 1024)
        (omega arith) (omega (arith, s.small)))

  fields_eq :
      parse_fields h z row.key (b'Z' ∷ b':' ∷ text) (print_long row.expire_at)
      ≡ with_value row.key row.expire_at (unpack h z text)
  unfolding parse_fields starts_with
  fields_eq = rw (parse_fields, strtol-print row.expire_at s.long) refl

  text_plain : contains tab (b'Z' ∷ b':' ∷ text) ≡ false
  unfolding contains
  text_plain = rw (contains, contains-encoded tab comp s.law.bytes (omega arith)) refl

  -- Reading the line of a row whose value is not empty.
  pub reads_back :
      ReadsBack row comp (parse_db_row h z (line_of row.key (b'Z' ∷ b':' ∷ text) row.expire_at))
  reads_back =
      let r = inflates in
      record {
        doublings = r.doublings;
        returns =
            parse_db_row-fields h z row.key (b'Z' ∷ b':' ∷ text) row.expire_at s.key_plain
              text_plain
            ∙ fields_eq
            ∙ ap (with_value row.key row.expire_at) r.returns
            ∙ with_value-terminate _ row s.value_plain;
        holds = r.holds;
        first = r.first;
      }
