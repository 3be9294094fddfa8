-- ===== src/LogParse/MainTests.antt =====
-- Runs of the whole log processor, and its theorems at them.
use stream_data_pipline.Prelude.{true, false, some, none, List, [], ◌∷◌, length}
use stream_data_pipline.Prelude.Bytes.{Bytes, codes}
use stream_data_pipline.Prelude.Int.{ℤ, pos, ◌+ℤ◌}
use stream_data_pipline.Prelude.Decimal.{print_long}
use stream_data_pipline.Json.Numbers.{halves}
use stream_data_pipline.Json.Tests.{Item, sample}
use stream_data_pipline.LogParse.Tests.{plenty}
use stream_data_pipline.LogParse.Filter.{Log, filter_equals}
use stream_data_pipline.LogParse.Command.{
  opt_filter, opt_aggregate, opt_regex, opt_fields, opt_format, agg_sum, Opt, Settings, defaults,
  Regexec,
}
use stream_data_pipline.LogParse.Main.{Host}
use stream_data_pipline.LogParse.Main.Selected as MainSelected
use stream_data_pipline.LogParse.Main.Records as MainRecords
use stream_data_pipline.LogParse.Main.Report as MainReport

-- An expression that takes the first byte of a line.
abbrev first_byte : Regexec
first_byte line n = some (some (0, 2) ∷ some (0, 1) ∷ [])

abbrev pub host : Host Item ℤ
host = record {
  calloc_ok = λ n. true;
  malloc_ok = λ n. true;
  alloc = plenty;
  regcomp = λ pattern. some first_byte;
  cjson = sample;
  reals = record {
    double = halves;
    nought = pos 0;
    add = λ x y. x +ℤ y;
    over = λ x n. x;
    atof = λ s. pos (length s);
    print_2f = print_long;
  };
  input = codes " {7\n" ∷ codes "x,y\n" ∷ [];
  read_error = false;
}

abbrev sum_opts : List Opt
sum_opts = opt_filter (codes "kind=data") ∷ opt_aggregate agg_sum (codes "sequence") ∷ []

abbrev sum_settings : Settings
sum_settings = record defaults {
  filter = some (record { key = codes "kind"; value = codes "data"; op = filter_equals });
  aggregate = some (agg_sum, codes "sequence");
}

abbrev csv_opts : List Opt
csv_opts = opt_regex (codes "(.)") ∷ opt_fields (codes "first") ∷ opt_format (codes "csv") ∷ []

abbrev csv_settings : Settings
csv_settings = record defaults {
  pattern = some (codes "(.)");
  fields_arg = some (codes "first");
  format_arg = some (codes "csv");
}

abbrev csv_records : List Log
csv_records = MainRecords.records host none first_byte (codes "first" ∷ []) host.input
