-- ===== src/LogParse/Tests.antt =====
-- Runs of the log processor on small inputs, and its theorems at them.
use stream_data_pipline.Prelude.{
  ℕ, ◌≡◌, ◌↔◌, refl, true, false, Option, some, none, List, [], ◌∷◌, arith, length-replicate,
  replicate, drop,
}
use stream_data_pipline.Prelude.Bytes.{Bytes, codes, contains, str_eq}
use stream_data_pipline.Buffer.{Allocator, append_str}
use stream_data_pipline.LogParse.Filter.{
  Log, Filter, filter_greater_than, log_filter_match_fields, JsonReader, log_filter_match_jsonl,
  log_get, parse_i64,
}
use stream_data_pipline.LogParse.Filter.Laws as FilterLaws
use stream_data_pipline.LogParse.Fields.{captures, Match, line_parsed, log_regex_parse_line}
use stream_data_pipline.LogParse.Fields.Laws as FieldsLaws
use stream_data_pipline.LogParse.Output.{WriteString, log_output_emit_csv}
use stream_data_pipline.LogParse.Output.CsvReader as OutputCsvReader

abbrev pub plenty : Allocator
plenty = record {
  grants = λ n. true;
  fresh = λ n. replicate n 0xaa;
  length-fresh = λ n. length-replicate n 0xaa;
}

abbrev log : Log
log = record { names = codes "user" ∷ codes "code" ∷ []; values = codes "a,b" ∷ codes "42" ∷ [] }

abbrev code_filter : Filter
code_filter = record { key = codes "code"; value = codes "7"; op = filter_greater_than }

plain_user : FilterLaws.IsUnranked (codes "user")
unfolding contains
plain_user = (refl, refl, refl)

no_equals : contains b'=' (codes "user") ≡ false
unfolding contains
no_equals = refl

log_filter_match_fields_iff_example :
    (log_filter_match_fields log none ≡ true)
    × ((f : Filter)
        → (log_filter_match_fields log (some f) ≡ true) ↔ (
            (v : Bytes) × (log_get log.names log.values f.key ≡ some v)
            × FilterLaws.Holds f.op v f.value))
log_filter_match_fields_iff_example = FilterLaws.log_filter_match_fields_iff log

abbrev reader : JsonReader
reader = record {
  is_object = λ line. true;
  get_scalar_text = λ line key n. some (codes "42");
  get_int64 = λ line key. parse_i64 (codes "42");
}

code_field : log_get log.names log.values (codes "code") ≡ some (codes "42")
unfolding log_get str_eq
code_field = refl

log_filter_match_jsonl-agrees_example :
    log_filter_match_jsonl reader (codes "{}") (some code_filter)
    ≡ some (log_filter_match_fields log (some code_filter))
log_filter_match_jsonl-agrees_example =
    FilterLaws.log_filter_match_jsonl-agrees reader (codes "{}") log code_filter (codes "42") refl
      code_field refl refl

abbrev whole_line : Bytes → ℕ → Option (List Match)
whole_line line n = some (some (0, 2) ∷ some (0, 1) ∷ [])

one_capture :
    log_regex_parse_line (λ n. true) (λ n. true) whole_line (codes "xy") (codes "user" ∷ [])
    ≡ line_parsed (codes "x" ∷ [])
unfolding log_regex_parse_line captures
one_capture = refl

log_regex_parse_line-AreCaptures_example :
    (matches : List Match) × (whole_line (codes "xy") 2 ≡ some matches)
    × FieldsLaws.AreCaptures (codes "xy") (codes "user" ∷ []) (drop 1 matches) (codes "x" ∷ [])
log_regex_parse_line-AreCaptures_example =
    FieldsLaws.log_regex_parse_line-AreCaptures (λ n. true) (λ n. true) whole_line (codes "xy")
      (codes "user" ∷ []) (codes "x" ∷ []) one_capture

log_output_emit_csv-read_example :
    (out : Bytes) × (log_output_emit_csv plenty log ≡ some out)
    × (OutputCsvReader.read_csv OutputCsvReader.at_start [] out ≡ codes "a,b" ∷ codes "42" ∷ [])
unfolding contains
log_output_emit_csv-read_example =
    OutputCsvReader.log_output_emit_csv-read plenty log.names (codes "a,b") (codes "42" ∷ [])
      (λ n. refl) (omega arith)

abbrev write_plain : WriteString
write_plain s b = append_str plenty b (some s)
