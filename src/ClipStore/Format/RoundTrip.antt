-- ===== src/ClipStore/Format/RoundTrip.antt =====
-- Writing a row with `append_db_row` and reading its line with `parse_db_row` (db_format.c).
use stream_data_pipline.Prelude.{
  ◌≡◌, refl, ◌∙◌, ap, sym, Bool, true, false, some, [], ◌∷◌, ◌++◌, append_assoc, ◌⊎◌, inl, inr,
  Bool-cases,
}
use stream_data_pipline.Prelude.Bytes.{Bytes, contains, is_empty, starts_with}
use stream_data_pipline.Prelude.Int.{ℤ}
use stream_data_pipline.Prelude.Decimal.{IsLong, strtol-print, print_long}
use stream_data_pipline.Base64.RoundTrip.{encoded}
use stream_data_pipline.ClipStore.Row.{Row}
use stream_data_pipline.ClipStore.Format.{
  Heap, Zlib, Stdio, parsed, tab, newline, pack, parse_fields, parse_db_row, row_text,
  append_db_row,
}
use stream_data_pipline.ClipStore.Format.Reads.{
  line_of, parse_db_row-fields, ReadsBack, IsStorable, pack_eq, reads_back,
}

pub row_text_line :
    (key packed : Bytes) (expire_at : ℤ)
    → row_text key packed expire_at ≡ line_of key packed expire_at ++ newline ∷ []
row_text_line key packed expire_at = sym (
    append_assoc key (tab ∷ (packed ++ tab ∷ print_long expire_at)) (newline ∷ [])
    ∙ ap (λ (t : Bytes). key ++ tab ∷ t)
        (append_assoc packed (tab ∷ print_long expire_at) (newline ∷ [])))

-- What `append_db_row` leaves of a row, with `Reads` about the line that it adds.
pub record Stores (file : Bytes) (result : Bool × Bytes) (Reads : Bytes → Type 0) : Type 0 where
  pub line : Bytes
  pub adds : result.0 ≡ true → result.1 ≡ file ++ line ++ newline ∷ []
  pub reads : Reads line

pub printed :
    (io : Stdio) (file key packed : Bytes) (expire_at : ℤ) (result : Bool × Bytes)
    → (result ≡ io.print file (row_text key packed expire_at)) ⊎ (result.0 ≡ false)
    → result.0 ≡ true
    → result.1 ≡ file ++ line_of key packed expire_at ++ newline ∷ []
printed io file key packed expire_at result (inr e) ok = cc
printed io file key packed expire_at result (inl e) ok =
    let done : (io.print file (row_text key packed expire_at)).0 ≡ true =
      ap (λ (r : Bool × Bytes). r.0) (sym e) ∙ ok in
    ap (λ (r : Bool × Bytes). r.1) e
    ∙ io.print_adds file (row_text key packed expire_at) done
    ∙ ap (λ (t : Bytes). file ++ t) (row_text_line key packed expire_at)
    ∙ sym (append_assoc file (line_of key packed expire_at) (newline ∷ []))

pub appended :
    (h : Heap) (z : Zlib) (io : Stdio) (file key value packed : Bytes) (expire_at : ℤ)
    → is_empty value ≡ false
    → pack h z value ≡ some packed
    → (append_db_row h z io file key value expire_at
        ≡ io.print file (row_text key packed expire_at))
      ⊎ ((append_db_row h z io file key value expire_at).0 ≡ false)
unfolding append_db_row
appended h z io file key value packed expire_at full e = elim (Bool-cases (io.seek_ok file)) [
  | inl ok ↦ inl (rw (ok, full, e) refl)
  | inr stuck ↦ inr (rw stuck refl)
]

-- A row whose key has no tab, whose value is not empty, has no NUL and less than 2^62 bytes, and
-- whose time is a `long`, on a heap that grants every object below 2^63 bytes, with a compressor
-- that gives for the value less than 2^60 bytes, from which `uncompress` restores it into a buffer
-- that holds it and asks for more in any other, and whose `compressBound` of it is below 2^63: if
-- `append_db_row` reports success, the text of the stream has one more line, and `parse_db_row`
-- reads the row back from that line, except that a value which fills the buffer to its last byte
-- makes it write behind the buffer.
pub append_db_row-Stores :
    (h : Heap) (z : Zlib) (io : Stdio) (file : Bytes) (row : Row) (comp : Bytes)
    → IsStorable h z row comp
    → is_empty row.value ≡ false
    → Stores file
        (append_db_row h z io file row.key row.value row.expire_at)
        (λ line. ReadsBack row comp (parse_db_row h z line))
append_db_row-Stores h z io file row comp s full =
    let packed = b'Z' ∷ b':' ∷ encoded comp in
    record {
      line = line_of row.key packed row.expire_at;
      adds = printed io file row.key packed row.expire_at _ (
          appended h z io file row.key row.value packed row.expire_at full
            (pack_eq h z row comp s));
      reads = reads_back h z row comp s;
    }

tombstone_fields :
    (h : Heap) (z : Zlib) (key : Bytes) (expire_at : ℤ)
    → IsLong expire_at
    → parse_fields h z key [] (print_long expire_at)
      ≡ some (parsed (record { key = key; value = []; expire_at = expire_at }))
unfolding parse_fields starts_with
tombstone_fields h z key expire_at l = rw (parse_fields, strtol-print expire_at l) refl

pub tombstone_print :
    (h : Heap) (z : Zlib) (io : Stdio) (file key : Bytes) (expire_at : ℤ)
    → (append_db_row h z io file key [] expire_at ≡ io.print file (row_text key [] expire_at))
      ⊎ ((append_db_row h z io file key [] expire_at).0 ≡ false)
unfolding append_db_row
tombstone_print h z io file key expire_at = elim (Bool-cases (io.seek_ok file)) [
  | inl ok ↦ inl (rw ok refl)
  | inr stuck ↦ inr (rw stuck refl)
]

empty_plain : contains tab [] ≡ false
unfolding contains
empty_plain = refl

pub tombstone_reads :
    (h : Heap) (z : Zlib) (key : Bytes) (expire_at : ℤ)
    → contains tab key ≡ false
    → IsLong expire_at
    → parse_db_row h z (line_of key [] expire_at)
      ≡ some (parsed (record { key = key; value = []; expire_at = expire_at }))
tombstone_reads h z key expire_at plain l =
    parse_db_row-fields h z key [] expire_at plain empty_plain
    ∙ tombstone_fields h z key expire_at l

-- A tombstone is read back from the line that `append_db_row` adds for it.
pub append_db_row-Stores_tombstone :
    (h : Heap) (z : Zlib) (io : Stdio) (file key : Bytes) (expire_at : ℤ)
    → contains tab key ≡ false
    → IsLong expire_at
    → Stores file (append_db_row h z io file key [] expire_at) (λ line.
      parse_db_row h z line
      ≡ some (parsed (record { key = key; value = []; expire_at = expire_at })))
append_db_row-Stores_tombstone h z io file key expire_at plain l = record {
  line = line_of key [] expire_at;
  adds = printed io file key [] expire_at _ (tombstone_print h z io file key expire_at);
  reads = tombstone_reads h z key expire_at plain l;
}
