-- ===== src/LogParse/Output.antt =====
-- applets/log_parse/log_output_format.c: a record as a line of JSON or CSV, through the buffer of
-- lib/dynamic_buffer.c. TRY_DBUF goes on only behind a call that returned 0. The values are C strings,
-- so `fputs` prints all that is in the buffer. `jsonl_write_string` is a parameter.
pub mod Csv
pub mod CsvReader
pub mod Json
use stream_data_pipline.Prelude.{
  Bool, true, false, ◌||◌, Option, none, some, List, [], ◌∷◌, ◌==◌, if◌then◌else◌,
}
use stream_data_pipline.Prelude.Bytes.{Bytes, contains}
use stream_data_pipline.Buffer.{
  Buffer, Status, ok, einval, eio, eoverflow, enomem, Allocator, empty, append_char, append_str,
}
use stream_data_pipline.Buffer.Steps.{try_dbuf, printed}
use stream_data_pipline.LogParse.Filter.{Log}

abbrev pub quote : Bytes → Bool
quote s = contains b',' s || contains b'"' s || contains 10 s || contains 13 s

-- The loop of `append_csv_field`.
pub append_quoted : Allocator → Bytes → Buffer → Status × Buffer
append_quoted m [] b = (ok, b)
append_quoted m (c ∷ s) b =
    try_dbuf (if c == b'"' then append_char m b b'"' else (ok, b))
      (λ b1. try_dbuf (append_char m b1 c) (append_quoted m s))

-- `append_csv_field`
pub append_csv_field : Allocator → Bytes → Buffer → Status × Buffer
append_csv_field m s b =
    if quote s
    then try_dbuf (append_char m b b'"')
        (λ b1. try_dbuf (append_quoted m s b1) (λ b2. append_char m b2 b'"'))
    else append_str m b (some s)

-- The loop of `log_output_emit_csv`; `first` is `i == 0`.
pub append_fields : Allocator → Bool → List Bytes → Buffer → Status × Buffer
append_fields m first [] b = (ok, b)
append_fields m first (v ∷ vs) b =
    try_dbuf (if first then (ok, b) else append_char m b b',')
      (λ b1. try_dbuf (append_csv_field m v b1) (append_fields m false vs))

-- `log_output_emit_csv`
unfoldable pub log_output_emit_csv : Allocator → Log → Option Bytes
log_output_emit_csv m log =
    printed (try_dbuf (append_fields m true log.values empty) (λ b. append_char m b 10))

-- `jsonl_write_string`
abbrev pub WriteString : Type 0
WriteString = Bytes → Buffer → Status × Buffer

-- The loop of `log_output_emit_json`.
pub append_members :
    Allocator → WriteString → Bool → List Bytes → List Bytes → Buffer → Status × Buffer
append_members m write first [] values b = (ok, b)
append_members m write first (n ∷ ns) [] b = (ok, b)
append_members m write first (n ∷ ns) (v ∷ vs) b =
    try_dbuf (if first then (ok, b) else append_char m b b',') (λ b1. try_dbuf (write n b1) (λ b2.
      try_dbuf (append_char m b2 b':')
        (λ b3. try_dbuf (write v b3) (append_members m write false ns vs))))

-- `log_output_emit_json`
unfoldable pub log_output_emit_json : Allocator → WriteString → Log → Option Bytes
log_output_emit_json m write log = printed (
    try_dbuf (append_char m empty b'{') (λ b1.
      try_dbuf (append_members m write true log.names log.values b1)
        (λ b2. append_str m b2 (some (b'}' ∷ 10 ∷ [])))))
