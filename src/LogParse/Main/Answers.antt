-- ===== src/LogParse/Main/Answers.antt =====
-- What applets/log_parse/log_parse.c prints without a regular expression.
use stream_data_pipline.Prelude.{
  ◌+◌, ◌%◌, ◌^◌, ◌<◌, ◌≡◌, refl, sym, ap, ◌∙◌, Bool, true, false, Option, none, some, List, [], ◌∷◌,
  ◌++◌, append_assoc, append-nil, arith, ◌==◌, if◌then◌else◌, length,
}
use stream_data_pipline.Prelude.Bytes.{Bytes}
use stream_data_pipline.Prelude.Decimal.{print_ℕ}
use stream_data_pipline.ClipStore.Compact.Lines.{unlines}
use stream_data_pipline.LogParse.Filter.{Filter}
use stream_data_pipline.LogParse.Command.{
  AggOp, agg_sum, agg_avg, agg_min, agg_max, OutputFormat, log_output_json, log_output_csv,
  log_output_count, Opt, Settings, defaults, settings, parse_options, parse_format, needs_regex,
  json_plan, plan_of,
}
use stream_data_pipline.LogParse.Main.{
  aggregate_value, Host, State, initial, newline, report, finish_run, run_plan, log_parse_main,
  collect, with_format, with_options, with_plan,
}
use stream_data_pipline.LogParse.Main.Kept.{
  matching, length-matching, keep_all, run_lines-keep_all, values_in, length-values_in, collect_all,
  keep_all-collect_all, total, least_of, greatest_of, Collected, collect_all-Collected,
}

module _ {I D : Type 0} (host : Host I D) where
  abbrev pub value_of : AggOp → D → List D → D
  value_of agg_sum v vs = total host host.reals.nought (v ∷ vs)
  value_of agg_avg v vs = host.reals.over (total host host.reals.nought (v ∷ vs)) (length (v ∷ vs))
  value_of agg_min v vs = least_of host v vs
  value_of agg_max v vs = greatest_of host v vs

  -- The line with the aggregate of these values.
  abbrev pub aggregate_line : AggOp → List D → Bytes
  aggregate_line op [] = b'0' ∷ newline ∷ []
  aggregate_line op (v ∷ vs) = host.reals.print_2f (value_of op v vs) ++ newline ∷ []

  -- What is printed of the matching lines: an aggregate, their number, or the lines.
  abbrev pub answer : OutputFormat → Option (AggOp × Bytes) → List Bytes → Bytes
  answer format (some (op, field)) lines = aggregate_line op (values_in host field lines)
  answer log_output_count none lines = print_ℕ (length lines) ++ newline ∷ []
  answer log_output_json none lines = unlines lines
  answer log_output_csv none lines = unlines lines

  keep_all-count :
      (lines : List Bytes) (s : State D)
      → s.matched + length lines < 2 ^ 64
      → keep_all host log_output_count none lines s
        ≡ record s { matched = s.matched + length lines }
  keep_all-count [] s b = ap (λ n. record s { matched = n }) {x = s.matched} (omega arith)
  keep_all-count (line ∷ lines) s b =
      keep_all-count lines (record s { matched = (s.matched + 1) % 2 ^ 64 }) (omega arith)
      ∙ ap (λ n. record s { matched = n }) (omega arith)

  keep_all-json :
      (lines : List Bytes) (s : State D)
      → keep_all host log_output_json none lines s ≡ record s { out = s.out ++ unlines lines }
  keep_all-json [] s = ap (λ t. record s { out = t }) (sym (append-nil s.out))
  keep_all-json (line ∷ lines) s =
      keep_all-json lines (record s { out = s.out ++ (line ++ newline ∷ []) })
      ∙ ap (λ t. record s { out = t })
          (append_assoc s.out (line ++ newline ∷ []) (unlines lines)
            ∙ ap (λ t. s.out ++ t) (append_assoc line (newline ∷ []) (unlines lines)))

  keep_all-csv :
      (lines : List Bytes) (s : State D)
      → keep_all host log_output_csv none lines s ≡ keep_all host log_output_json none lines s
  keep_all-csv [] s = refl
  keep_all-csv (line ∷ lines) s =
      keep_all-csv lines (record s { out = s.out ++ (line ++ newline ∷ []) })

  same_branch : (b : Bool) (v : D) → (if b then v else v) ≡ v
  same_branch true v = refl
  same_branch false v = refl

  -- The counters behind all of the values.
  aggregate_value-value_of :
      (op : AggOp) (v : D) (vs : List D) (s : State D)
      → Collected host vs (collect host v (initial host)) s
      → aggregate_value host op s ≡ value_of op v vs
  unfolding collect
  aggregate_value-value_of agg_sum v vs s c = c.sum
  aggregate_value-value_of agg_avg v vs s c =
      ap (λ t. host.reals.over t s.count) c.sum
      ∙ ap (host.reals.over (total host host.reals.nought (v ∷ vs))) (omega (arith, c.count))
  aggregate_value-value_of agg_min v vs s c =
      c.least ∙ ap (λ m. least_of host m vs) (same_branch (host.reals.double.lt v v) v)
  aggregate_value-value_of agg_max v vs s c =
      c.greatest ∙ ap (λ m. greatest_of host m vs) (same_branch (host.reals.double.lt v v) v)

  aggregate_answer :
      (format : OutputFormat) (op : AggOp) (field : Bytes) (vs : List D)
      → length vs < 2 ^ 64
      → let s = collect_all host vs (initial host) in
        s.out ++ report host format (some (op, field)) s ≡ aggregate_line op vs
  unfolding collect
  aggregate_answer format op field [] b = refl
  aggregate_answer format op field (v ∷ vs) b =
      let first = collect host v (initial host) in
      let s = collect_all host vs first in
      let c = collect_all-Collected host vs first (omega arith) (omega arith) in
      let some_value : (s.count == 0) ≡ false = ground (arith, c.count) in
      ap (λ t. t ++ report host format (some (op, field)) s) c.out
      ∙ ap
          (λ z.
            if z
            then b'0' ∷ newline ∷ []
            else host.reals.print_2f (aggregate_value host op s) ++ newline ∷ [])
          some_value
      ∙ ap (λ t. host.reals.print_2f t ++ newline ∷ []) (aggregate_value-value_of op v vs s c)

  report-answer :
      (format : OutputFormat) (aggregate : Option (AggOp × Bytes)) (lines : List Bytes)
      → length lines < 2 ^ 64
      → let s = keep_all host format aggregate lines (initial host) in
        s.out ++ report host format aggregate s ≡ answer format aggregate lines
  report-answer format (some (op, field)) lines b =
      let l = length-values_in host field lines in
      ap (λ (s : State D). s.out ++ report host format (some (op, field)) s)
        (keep_all-collect_all host format op field lines (initial host))
      ∙ aggregate_answer format op field (values_in host field lines) (omega (arith, l))
  report-answer log_output_count none lines b =
      ap (λ (s : State D). s.out ++ report host log_output_count none s)
        (keep_all-count lines (initial host) (omega arith))
      ∙ ap (λ n. print_ℕ n ++ newline ∷ []) {x = 0 + length lines} (omega arith)
  report-answer log_output_json none lines b =
      ap (λ (s : State D). s.out ++ report host log_output_json none s)
        (keep_all-json lines (initial host))
      ∙ append-nil (unlines lines)
  report-answer log_output_csv none lines b =
      ap (λ (s : State D). s.out ++ report host log_output_csv none s)
        (keep_all-csv lines (initial host) ∙ keep_all-json lines (initial host))
      ∙ append-nil (unlines lines)

  run_plan-answer :
      (format : OutputFormat) (filter : Option Filter) (aggregate : Option (AggOp × Bytes))
      → length host.input < 2 ^ 64
      → host.read_error ≡ false
      → run_plan host format filter aggregate (json_plan aggregate)
        ≡ (0, answer format aggregate (matching host filter host.input))
  unfolding run_plan
  run_plan-answer format filter aggregate b e =
      let l = length-matching host filter host.input in
      let s = keep_all host format aggregate (matching host filter host.input) (initial host) in
      ap (finish_run host format aggregate)
        (run_lines-keep_all host format aggregate filter host.input (initial host))
      ∙ ap
          (λ z.
            let code = if z then 2 else 0 in
            (code, if code == 0 then s.out ++ report host format aggregate s else s.out))
          e
      ∙ ap (λ (t : Bytes). (0, t))
          (report-answer format aggregate (matching host filter host.input) (omega (arith, l)))

  -- `log_parse_main` without `--regex` and `--fields`, for options that go together and at most 2^64 - 1
  -- lines that are read without an error: it exits with code 0 and has printed, of the lines that are
  -- JSON objects and match the filter, in their order and without the white space around them, the
  -- aggregate of the integers of its field if one is asked for, their number if `--format count` is, and
  -- otherwise the lines themselves.
  pub log_parse_main-answer :
      (opts : List Opt) (s : Settings) (format : OutputFormat)
      → parse_options opts defaults ≡ settings s
      → parse_format s.format_arg ≡ some format
      → s.pattern ≡ none
      → s.fields_arg ≡ none
      → needs_regex s.format_arg format s.aggregate ≡ false
      → length host.input < 2 ^ 64
      → host.read_error ≡ false
      → log_parse_main host opts
        ≡ (0, answer format s.aggregate (matching host s.filter host.input))
  unfolding log_parse_main
  log_parse_main-answer opts s format parsed formatted plain unnamed fits b e =
      ap (with_options host) parsed
      ∙ ap (with_format host s) formatted
      ∙ ap
          (λ o.
            with_plan host s format (plan_of host.calloc_ok host.regcomp s format o s.fields_arg))
          plain
      ∙ ap (λ o. with_plan host s format (plan_of host.calloc_ok host.regcomp s format none o))
          unnamed
      ∙ ap (λ z. with_plan host s format (if z then none else some (json_plan s.aggregate))) fits
      ∙ run_plan-answer format s.filter s.aggregate b e
