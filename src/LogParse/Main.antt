-- ===== src/LogParse/Main.antt =====
-- applets/log_parse/log_parse.c: `log_parse_main`. The floating-point arithmetic, what memory is
-- granted, `regcomp` and cJSON are parameters in `Host`. Logs leave no trace.
pub mod Kept
pub mod Answers
pub mod Selected
pub mod Records
pub mod Printed
pub mod Report
use stream_data_pipline.Prelude.{
  ℕ, zero, suc, ◌+◌, ◌%◌, ◌^◌, Bool, true, false, Option, none, some, List, [], ◌∷◌, ◌++◌, ◌==◌,
  get_elem?, if◌then◌else◌,
}
use stream_data_pipline.Prelude.Bytes.{Bytes, codes}
use stream_data_pipline.Prelude.Decimal.{print_ℕ}
use stream_data_pipline.Prelude.Int.{ℤ}
use stream_data_pipline.Buffer.{Allocator}
use stream_data_pipline.Json.{Cjson, is_object, get_scalar_text, get_int64, write_string}
use stream_data_pipline.Json.Numbers.{Double}
use stream_data_pipline.Watch.{c_string}
use stream_data_pipline.LogParse.Filter.{
  Log, Filter, JsonReader, log_filter_match_fields, log_filter_match_jsonl,
}
use stream_data_pipline.LogParse.Fields.{
  Line, line_parsed, line_skipped, line_failed, log_regex_parse_line,
}
use stream_data_pipline.LogParse.Output.{log_output_emit_csv, log_output_emit_json}
use stream_data_pipline.LogParse.Trim.{trim_line}
use stream_data_pipline.LogParse.Command.{
  AggOp, agg_sum, agg_avg, agg_min, agg_max, OutputFormat, log_output_json, log_output_csv,
  log_output_count, Opt, Settings, defaults, Options, leaves, settings, parse_options, parse_format,
  Regexec, Plan, regex_plan, json_plan, plan_of,
}

-- What is done with numbers of type `double`.
pub record Reals (D : Type 0) : Type 0 where
  pub double : Double D
  pub nought : D
  pub add : D → D → D
  -- `x / n`
  pub over : D → ℕ → D
  pub atof : Bytes → D
  -- `%.2f`
  pub print_2f : D → Bytes

-- What the process is given.
pub record Host (I D : Type 0) : Type 0 where
  pub calloc_ok : ℕ → Bool
  pub malloc_ok : ℕ → Bool
  pub alloc : Allocator
  pub regcomp : Bytes → Option Regexec
  pub cjson : Cjson I D
  pub reals : Reals D
  pub input : List Bytes
  pub read_error : Bool

-- The counters of the main loop, and what is printed so far.
pub record State (D : Type 0) : Type 0 where
  pub sum : D
  pub least : D
  pub greatest : D
  pub count : ℕ
  pub matched : ℕ
  pub out : Bytes

abbrev pub newline : ℕ
newline = 10

abbrev pub one_more : ℕ → ℕ
one_more n = (n + 1) % 2 ^ 64

abbrev pub print_text : {D : Type 0} → Bytes → State D → State D
print_text t s = record s { out = s.out ++ t }

abbrev pub emit_text : {D : Type 0} → Option Bytes → State D → Bool × State D
emit_text none s = (false, s)
emit_text (some t) s = (true, print_text t s)

abbrev pub print_count : OutputFormat → ℕ → Bytes
print_count log_output_count n = print_ℕ n ++ newline ∷ []
print_count log_output_json n = []
print_count log_output_csv n = []

module _ {I D : Type 0} (host : Host I D) where
  abbrev pub initial : State D
  initial = record {
    sum = host.reals.nought;
    least = host.reals.nought;
    greatest = host.reals.nought;
    count = 0;
    matched = 0;
    out = [];
  }

  -- A value of the aggregate.
  unfoldable pub collect : D → State D → State D
  collect val s =
      let least = if s.count == 0 then val else s.least in
      let greatest = if s.count == 0 then val else s.greatest in
      record s {
        sum = host.reals.add s.sum val;
        least = if host.reals.double.lt val least then val else least;
        greatest = if host.reals.double.lt greatest val then val else greatest;
        count = one_more s.count;
      }

  -- The getters of lib/jsonl_codec.c.
  abbrev pub reader : JsonReader
  reader = record {
    is_object = is_object host.cjson;
    get_scalar_text = get_scalar_text host.cjson;
    get_int64 = get_int64 host.cjson host.reals.double;
  }

  abbrev pub emit_log : OutputFormat → Log → State D → Bool × State D
  emit_log log_output_json log s =
      emit_text (log_output_emit_json host.alloc (write_string host.cjson host.alloc) log) s
  emit_log log_output_csv log s = emit_text (log_output_emit_csv host.alloc log) s
  emit_log log_output_count log s = (true, record s { matched = one_more s.matched })

  abbrev pub collect_text : Option Bytes → State D → State D
  collect_text none s = s
  collect_text (some v) s = collect (host.reals.atof v) s

  abbrev pub on_record : OutputFormat → Option (AggOp × ℕ) → Log → State D → Bool × State D
  on_record format none log s = emit_log format log s
  on_record format (some (op, i)) log s = (true, collect_text (get_elem? log.values i) s)

  -- A line in the mode with a regular expression: whether the loop goes on, and the state.
  abbrev pub on_captures :
      OutputFormat
      → Option Filter
      → List Bytes
      → Option (AggOp × ℕ)
      → Line
      → State D
      → Bool × State D
  on_captures format filter names aggregate line_failed s = (false, s)
  on_captures format filter names aggregate line_skipped s = (true, s)
  on_captures format filter names aggregate (line_parsed values) s =
      let log : Log = record { names = names; values = values } in
      let r = on_record format aggregate log s in
      if log_filter_match_fields log filter then r else (true, s)

  abbrev pub collect_number : Option ℤ → State D → State D
  collect_number none s = s
  collect_number (some z) s = collect (host.reals.double.of_ℤ z) s

  -- A matching line in the mode without a regular expression.
  abbrev pub keep_line : OutputFormat → Option (AggOp × Bytes) → Bytes → State D → State D
  keep_line format (some (op, field)) line s =
      collect_number (get_int64 host.cjson host.reals.double line field) s
  keep_line log_output_count none line s = record s { matched = one_more s.matched }
  keep_line log_output_json none line s = print_text (line ++ newline ∷ []) s
  keep_line log_output_csv none line s = print_text (line ++ newline ∷ []) s

  -- Malformed lines are passed over like those that do not match.
  abbrev pub on_matched :
      OutputFormat → Option (AggOp × Bytes) → Bytes → Option Bool → State D → State D
  on_matched format aggregate line none s = s
  on_matched format aggregate line (some false) s = s
  on_matched format aggregate line (some true) s = keep_line format aggregate line s

  abbrev pub on_line : OutputFormat → Option Filter → Plan → Bytes → State D → Bool × State D
  on_line format filter (regex_plan names regexec aggregate) line s =
      on_captures format filter names aggregate
        (log_regex_parse_line host.calloc_ok host.malloc_ok regexec line names) s
  on_line format filter (json_plan aggregate) line s =
      (true, on_matched format aggregate line (log_filter_match_jsonl reader line filter) s)

  -- The main loop: the exit code, and the state behind it.
  unfoldable pub run_lines :
      OutputFormat → Option Filter → Plan → List Bytes → State D → ℕ × State D
  run_lines format filter plan [] s = (0, s)
  run_lines format filter plan (raw ∷ lines) s =
      let (go, s') = on_line format filter plan (trim_line (c_string raw)) s in
      let rest = run_lines format filter plan lines s' in if go then rest else (2, s')

  abbrev pub aggregate_value : AggOp → State D → D
  aggregate_value agg_sum s = s.sum
  aggregate_value agg_avg s = host.reals.over s.sum s.count
  aggregate_value agg_min s = s.least
  aggregate_value agg_max s = s.greatest

  -- What is printed behind the loop.
  abbrev pub report : OutputFormat → Option (AggOp × Bytes) → State D → Bytes
  report format (some (op, field)) s =
      if s.count == 0
      then b'0' ∷ newline ∷ []
      else host.reals.print_2f (aggregate_value op s) ++ newline ∷ []
  report format none s = print_count format s.matched

  -- The exit code, and the standard output.
  abbrev pub finish_run : OutputFormat → Option (AggOp × Bytes) → ℕ × State D → ℕ × Bytes
  finish_run format aggregate (code, s) =
      let exit_code = if host.read_error then 2 else code in
      (exit_code, if exit_code == 0 then s.out ++ report format aggregate s else s.out)

  -- The loop over the lines and what is behind it.
  unfoldable pub run_plan : OutputFormat → Option Filter → Option (AggOp × Bytes) → Plan → ℕ × Bytes
  unfolding run_lines
  run_plan format filter aggregate plan =
      finish_run format aggregate (run_lines format filter plan host.input initial)

  abbrev pub with_plan : Settings → OutputFormat → Option Plan → ℕ × Bytes
  with_plan s format none = (1, [])
  with_plan s format (some plan) = run_plan format s.filter s.aggregate plan

  abbrev pub with_format : Settings → Option OutputFormat → ℕ × Bytes
  with_format s none = (1, [])
  with_format s (some format) =
      with_plan s format (plan_of host.calloc_ok host.regcomp s format s.pattern s.fields_arg)

  abbrev pub with_options : Options → ℕ × Bytes
  with_options (leaves code) = (code, [])
  with_options (settings s) = with_format s (parse_format s.format_arg)

  -- `log_parse_main`: the exit code and the standard output.
  unfoldable pub log_parse_main : List Opt → ℕ × Bytes
  unfolding parse_options parse_format run_plan
  log_parse_main opts = with_options (parse_options opts defaults)
