-- ===== src/LogParse/Main/Selected.antt =====
-- What applets/log_parse/log_parse.c prints without a regular expression, against what it means that a
-- line of JSON matches a filter and that a field has a value.
use stream_data_pipline.Prelude.{◌≡◌, ◌⊎◌, true, Option, none, some, List, [], ◌∷◌, ◌++◌, length}
use stream_data_pipline.Prelude.Bytes.{Bytes}
use stream_data_pipline.Prelude.Decimal.{print_ℕ}
use stream_data_pipline.Prelude.Int.{ℤ, ◌<ℤ◌}
use stream_data_pipline.Json.{is_object, field}
use stream_data_pipline.Json.Scalars.{HasScalar}
use stream_data_pipline.Json.Laws.{IsInteger}
use stream_data_pipline.Watch.{c_string}
use stream_data_pipline.ClipStore.Compact.Lines.{unlines}
use stream_data_pipline.LogParse.Filter.{
  Filter, FilterOperator, filter_equals, filter_not_equals, filter_contains, filter_greater_than,
  parse_i64,
}
use stream_data_pipline.LogParse.Filter.Laws.{Holds}
use stream_data_pipline.LogParse.Trim.{trim_line}
use stream_data_pipline.LogParse.Command.{
  AggOp, OutputFormat, log_output_json, log_output_csv, log_output_count,
}
use stream_data_pipline.LogParse.Main.{Host, newline}
use stream_data_pipline.LogParse.Main.Answers.{aggregate_line}

module _ {I D : Type 0} (host : Host I D) where
  -- What a filter demands of the line, by its operator: a scalar, or for `>` integers.
  abbrev pub Meets : FilterOperator → Filter → Bytes → Type 0
  Meets filter_greater_than f line =
      (x : ℤ) × (y : ℤ) × IsInteger host.reals.double (field host.cjson line f.key) x
      × (parse_i64 f.value ≡ some y)
      × (y <ℤ x)
  Meets filter_equals f line =
      (v : Bytes) × HasScalar host.cjson line f.key v × Holds filter_equals v f.value
  Meets filter_not_equals f line =
      (v : Bytes) × HasScalar host.cjson line f.key v × Holds filter_not_equals v f.value
  Meets filter_contains f line =
      (v : Bytes) × HasScalar host.cjson line f.key v × Holds filter_contains v f.value

  -- The line is an object, and the filter holds of it if there is one.
  abbrev pub Matches : Option Filter → Bytes → Type 0
  Matches none line = is_object host.cjson line ≡ true
  Matches (some f) line = (is_object host.cjson line ≡ true) × Meets f.op f line

  -- The lines that match, trimmed and in their order, and no others.
  abbrev pub AreSelected : Option Filter → List Bytes → List Bytes → Type 0
  AreSelected filter [] kept = kept ≡ []
  AreSelected filter (raw ∷ lines) kept =
      (Matches filter (trim_line (c_string raw))
        × (rest : List Bytes) × (kept ≡ trim_line (c_string raw) ∷ rest)
        × AreSelected filter lines rest)
      ⊎ ((Matches filter (trim_line (c_string raw)) → ⊥) × AreSelected filter lines kept)

  -- The safe integers that the lines have under the key, in their order; a line without one has none.
  abbrev pub AreValues : Bytes → List Bytes → List D → Type 0
  AreValues key [] vs = vs ≡ []
  AreValues key (line ∷ lines) vs =
      ((z : ℤ) × IsInteger host.reals.double (field host.cjson line key) z
        × (rest : List D) × (vs ≡ host.reals.double.of_ℤ z ∷ rest)
        × AreValues key lines rest)
      ⊎ (((z : ℤ) → IsInteger host.reals.double (field host.cjson line key) z → ⊥)
          × AreValues key lines vs)

  -- What is printed of the lines: an aggregate of values, their number, or the lines.
  abbrev pub Prints : OutputFormat → Option (AggOp × Bytes) → List Bytes → Bytes → Type 0
  Prints format (some (op, key)) kept out =
      (vs : List D) × AreValues key kept vs × (out ≡ aggregate_line host op vs)
  Prints log_output_count none kept out = out ≡ print_ℕ (length kept) ++ newline ∷ []
  Prints log_output_json none kept out = out ≡ unlines kept
  Prints log_output_csv none kept out = out ≡ unlines kept
