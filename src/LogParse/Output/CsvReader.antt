-- ===== src/LogParse/Output/CsvReader.antt =====
-- A reader of CSV lines, as an independent description of what log_output_format.c prints.
use stream_data_pipline.Prelude.{
  ℕ, ◌<◌, ◌≡◌, some, length, refl, sym, ap, ◌∙◌, true, false, List, [], ◌∷◌, ◌++◌, arith,
  append_assoc, append-nil, inl, inr, Bool-cases, if◌then◌else◌, ◌==◌,
}
use stream_data_pipline.Prelude.Bytes.{Bytes, contains}
use stream_data_pipline.Buffer.{Allocator, size_max}
use stream_data_pipline.LogParse.Output.{quote, log_output_emit_csv}
use stream_data_pipline.LogParse.Output.Csv.{
  doubled, csv_field, csv_fields, csv_line, log_output_emit_csv-line,
}

pub data CsvState : Type 0 where
  at_start in_plain in_quotes behind_quote : CsvState

-- A character outside quotes: a comma ends the field, a line feed ends the line.
abbrev plain_step : Bytes → ℕ → List Bytes → List Bytes → List Bytes
plain_step cur c next_field same_field =
    if c == b',' then cur ∷ next_field else if c == 10 then cur ∷ [] else same_field

-- The fields of a line, from a state with the bytes `cur` of the field so far.
pub read_csv : CsvState → Bytes → Bytes → List Bytes
read_csv st cur [] = cur ∷ []
read_csv at_start cur (c ∷ s) =
    if c == b'"'
    then read_csv in_quotes cur s
    else plain_step cur c (read_csv at_start [] s) (read_csv in_plain (cur ++ c ∷ []) s)
read_csv in_plain cur (c ∷ s) =
    plain_step cur c (read_csv at_start [] s) (read_csv in_plain (cur ++ c ∷ []) s)
read_csv in_quotes cur (c ∷ s) =
    if c == b'"' then read_csv behind_quote cur s else read_csv in_quotes (cur ++ c ∷ []) s
read_csv behind_quote cur (c ∷ s) =
    if c == b'"'
    then read_csv in_quotes (cur ++ c ∷ []) s
    else plain_step cur c (read_csv at_start [] s) (cur ∷ [])

-- A text at which a field ends, with the fields behind it.
record Ends (tail : Bytes) (rest : List Bytes) : Type 0 where
  empty_field : read_csv at_start [] tail ≡ [] ∷ rest
  plain_field : (cur : Bytes) → read_csv in_plain cur tail ≡ cur ∷ rest
  quoted_field : (cur : Bytes) → read_csv behind_quote cur tail ≡ cur ∷ rest

module _ (tail : Bytes) (rest : List Bytes) (e : Ends tail rest) where
  reads_plain :
      (v cur : Bytes) → quote v ≡ false → read_csv in_plain cur (v ++ tail) ≡ (cur ++ v) ∷ rest
  unfolding read_csv contains
  reads_plain [] cur h = e.plain_field cur ∙ ap (λ (t : Bytes). t ∷ rest) (sym (append-nil cur))
  reads_plain (c ∷ v) cur h =
      ground (arith, reads_plain v (cur ++ c ∷ []), append_assoc cur (c ∷ []) v)

  reads_quoted :
      (v cur : Bytes) → read_csv in_quotes cur (doubled v ++ b'"' ∷ tail) ≡ (cur ++ v) ∷ rest
  unfolding read_csv
  reads_quoted [] cur = e.quoted_field cur ∙ ap (λ (t : Bytes). t ∷ rest) (sym (append-nil cur))
  reads_quoted (c ∷ v) cur = elim (Bool-cases (c == b'"')) [
    | inl q ↦
        rw (q, q)
          (reads_quoted v (cur ++ c ∷ [])
            ∙ ap (λ (t : Bytes). t ∷ rest) (append_assoc cur (c ∷ []) v))
    | inr p ↦
        rw (p, p)
          (reads_quoted v (cur ++ c ∷ [])
            ∙ ap (λ (t : Bytes). t ∷ rest) (append_assoc cur (c ∷ []) v))
  ]

  reads_start : (v : Bytes) → quote v ≡ false → read_csv at_start [] (v ++ tail) ≡ v ∷ rest
  unfolding read_csv contains
  reads_start [] h = e.empty_field
  reads_start (c ∷ v) h = ground (arith, reads_plain v (c ∷ []))

  reads_field : (v : Bytes) → read_csv at_start [] (csv_field v ++ tail) ≡ v ∷ rest
  unfolding read_csv
  reads_field v = elim (Bool-cases (quote v)) [
    | inr plain ↦ rw plain (reads_start v plain)
    | inl quoted ↦
        rw quoted (
          ap (read_csv in_quotes []) (append_assoc (doubled v) (b'"' ∷ []) tail)
          ∙ reads_quoted v [])
  ]

fields-Ends : (vs : List Bytes) → Ends (csv_fields false vs ++ 10 ∷ []) vs
unfolding read_csv
fields-Ends [] = record {
  empty_field = refl;
  plain_field = λ cur. refl;
  quoted_field = λ cur. refl;
}
fields-Ends (v ∷ vs) =
    let next : read_csv at_start [] (csv_field v ++ csv_fields false vs ++ 10 ∷ []) ≡ v ∷ vs =
      ap (read_csv at_start []) (append_assoc (csv_field v) (csv_fields false vs) (10 ∷ []))
      ∙ reads_field (csv_fields false vs ++ 10 ∷ []) vs (fields-Ends vs) v in
    record {
      empty_field = ap (λ (t : List Bytes). [] ∷ t) next;
      plain_field = λ cur. ap (λ (t : List Bytes). cur ∷ t) next;
      quoted_field = λ cur. ap (λ (t : List Bytes). cur ∷ t) next;
    }

read_csv-line : (v : Bytes) (vs : List Bytes) → read_csv at_start [] (csv_line (v ∷ vs)) ≡ v ∷ vs
read_csv-line v vs =
    ap (read_csv at_start []) (append_assoc (csv_field v) (csv_fields false vs) (10 ∷ []))
    ∙ reads_field (csv_fields false vs ++ 10 ∷ []) vs (fields-Ends vs) v

-- The line that `log_output_emit_csv` prints, with memory for everything, is read back by a reader of
-- CSV as exactly the values, whatever commas, quotes and line ends they hold.
pub log_output_emit_csv-read :
    (m : Allocator) (names : List Bytes) (v : Bytes) (vs : List Bytes)
    → ((n : ℕ) → m.grants n ≡ true)
    → length (csv_line (v ∷ vs)) < size_max
    → (out : Bytes) × (log_output_emit_csv m (record { names = names; values = v ∷ vs }) ≡ some out)
      × (read_csv at_start [] out ≡ v ∷ vs)
log_output_emit_csv-read m names v vs all fits = (
  csv_line (v ∷ vs),
  (log_output_emit_csv-line m (record { names = names; values = v ∷ vs }) fits).1 all,
  read_csv-line v vs,
)
