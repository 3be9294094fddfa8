-- ===== src/LogParse/Command.antt =====
-- applets/log_parse/log_parse.c: the command line of `log_parse_main` and what it makes of it.
-- `getopt_long` is a parameter: the options are a list. `regcomp` is a parameter too: a pattern that
-- compiles is what `regexec` answers with it. Usage texts and logs leave no trace.
use stream_data_pipline.Prelude.{
  ℕ, suc, Bool, true, false, Option, none, some, List, [], ◌∷◌, if◌then◌else◌,
}
use stream_data_pipline.Prelude.Bytes.{Bytes, codes, str_eq}
use stream_data_pipline.LogParse.Filter.{Filter, log_filter_parse}
use stream_data_pipline.LogParse.Fields.{Match, log_regex_split_fields}

-- `agg_op_t`; AGG_NONE is `none` in the place of the aggregate.
pub data AggOp : Type 0 where
  agg_sum agg_avg agg_min agg_max : AggOp

-- `log_output_format_t`
pub data OutputFormat : Type 0 where
  log_output_json log_output_csv log_output_count : OutputFormat

-- What `getopt_long` gives for one option.
pub data Opt : Type 0 where
  opt_regex opt_fields opt_filter opt_format : Bytes → Opt
  opt_aggregate : AggOp → Bytes → Opt
  opt_extended opt_help opt_unknown : Opt

pub record Settings : Type 0 where
  pub pattern : Option Bytes
  pub fields_arg : Option Bytes
  pub format_arg : Option Bytes
  pub filter : Option Filter
  pub aggregate : Option (AggOp × Bytes)

abbrev pub defaults : Settings
defaults = record {
  pattern = none;
  fields_arg = none;
  format_arg = none;
  filter = none;
  aggregate = none;
}

-- What the options lead to: an exit code at once, or the settings.
pub data Options : Type 0 where
  leaves : ℕ → Options
  settings : Settings → Options

abbrev pub with_filter : Option Filter → Settings → (Settings → Options) → Options
with_filter none s next = leaves 1
with_filter (some f) s next = next (record s { filter = some f })

-- The loop over the options.
unfoldable pub parse_options : List Opt → Settings → Options
parse_options [] s = settings s
parse_options (opt_regex arg ∷ opts) s = parse_options opts (record s { pattern = some arg })
parse_options (opt_fields arg ∷ opts) s = parse_options opts (record s { fields_arg = some arg })
parse_options (opt_filter arg ∷ opts) s = with_filter (log_filter_parse arg) s (parse_options opts)
parse_options (opt_format arg ∷ opts) s = parse_options opts (record s { format_arg = some arg })
parse_options (opt_aggregate op field ∷ opts) s =
    parse_options opts (record s { aggregate = some (op, field) })
parse_options (opt_extended ∷ opts) s = parse_options opts s
parse_options (opt_help ∷ opts) s = leaves 0
parse_options (opt_unknown ∷ opts) s = leaves 1

-- `parse_format`, with `none` for -1
unfoldable pub parse_format : Option Bytes → Option OutputFormat
parse_format none = some log_output_json
parse_format (some arg) =
    if str_eq arg (codes "json")
    then some log_output_json
    else if str_eq arg (codes "csv")
    then some log_output_csv
    else if str_eq arg (codes "count")
    then some log_output_count
    else none

-- A pattern that is compiled.
abbrev pub Regexec : Type 0
Regexec = Bytes → ℕ → Option (List Match)

-- The mode in which lines are read.
pub data Plan : Type 0 where
  regex_plan : List Bytes → Regexec → Option (AggOp × ℕ) → Plan
  json_plan : Option (AggOp × Bytes) → Plan

abbrev pub next_index : Option ℕ → Option ℕ
next_index none = none
next_index (some i) = some (suc i)

-- The loop that looks for the field of the aggregate.
unfoldable pub field_index : Bytes → List Bytes → Option ℕ
field_index field [] = none
field_index field (name ∷ names) =
    if str_eq name field then some 0 else next_index (field_index field names)

abbrev pub indexed_plan : List Bytes → Regexec → AggOp → Option ℕ → Option Plan
indexed_plan names regexec op none = none
indexed_plan names regexec op (some i) = some (regex_plan names regexec (some (op, i)))

abbrev pub aggregate_plan : List Bytes → Regexec → Option (AggOp × Bytes) → Option Plan
aggregate_plan names regexec none = some (regex_plan names regexec none)
aggregate_plan names regexec (some (op, field)) =
    indexed_plan names regexec op (field_index field names)

abbrev pub compiled_plan : List Bytes → Option (AggOp × Bytes) → Option Regexec → Option Plan
compiled_plan names aggregate none = none
compiled_plan names aggregate (some regexec) = aggregate_plan names regexec aggregate

abbrev pub named_plan : Option (List Bytes) → Option (AggOp × Bytes) → Option Regexec → Option Plan
named_plan none aggregate regexec = none
named_plan (some []) aggregate regexec = none
named_plan (some (name ∷ names)) aggregate regexec = compiled_plan (name ∷ names) aggregate regexec

abbrev pub is_some {ℓ} : {A : Type ℓ} → Option A → Bool
is_some none = false
is_some (some a) = true

-- `--format json|csv`, where no aggregate is asked for.
abbrev pub needs_regex : Option Bytes → OutputFormat → Option (AggOp × Bytes) → Bool
needs_regex (some arg) log_output_json none = true
needs_regex (some arg) log_output_csv none = true
needs_regex _ _ _ = false

module _ (calloc_ok : ℕ → Bool) (regcomp : Bytes → Option Regexec) where
  -- The plan, or `none` where the settings do not go together.
  abbrev pub plan_of : Settings → OutputFormat → Option Bytes → Option Bytes → Option Plan
  plan_of s format (some pattern) none = none
  plan_of s format (some pattern) (some arg) =
      named_plan (log_regex_split_fields calloc_ok arg) s.aggregate (regcomp pattern)
  plan_of s format none (some arg) = none
  plan_of s format none none =
      if needs_regex s.format_arg format s.aggregate then none else some (json_plan s.aggregate)
