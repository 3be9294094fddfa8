-- ===== src/Dispatcher/Config/Tests.antt =====
-- A run of the dispatcher with its command line, and the theorems at it.
use stream_data_pipline.Prelude.{
  ◌≡◌, ◌≢◌, refl, Bool, true, false, none, some, List, [], ◌∷◌, arith, if◌then◌else◌,
}
use stream_data_pipline.Prelude.Bytes.{Bytes, codes}
use stream_data_pipline.Prelude.Int.{pos, negsuc, ltb_ℤ}
use stream_data_pipline.Prelude.Decimal.{print_long, skip_spaces, scan_digits}
use stream_data_pipline.Prelude.Unsigned.{strtoul}
use stream_data_pipline.ClipStore.Main.{parse_ttl}
use stream_data_pipline.Dispatcher.{Action, pd_pipeline_run}
use stream_data_pipline.Dispatcher.Tests.{calm}
use stream_data_pipline.Dispatcher.Config.{
  installs, Config, Host, Opt, opt_ttl, configured, sibling_path, before_slash, valid_uint_string,
  pd_config_parse, pd_config_validate, numbered, parse_options, pipeline_dispatcher_main,
}
use stream_data_pipline.Dispatcher.Config.Ttl as ConfigTtl
use stream_data_pipline.Dispatcher.Config.Starts as ConfigStarts

abbrev host : Host
host = record {
  link = some (codes "/bin/box");
  is_dir = λ path. true;
  is_executable = λ path. true;
  sigaction_ok = λ s. true;
  os = calm;
}

abbrev opts : List Opt
opts = opt_ttl (codes "60") ∷ []

abbrev arguments : List Bytes
arguments = codes "s" ∷ codes "dir" ∷ codes "db" ∷ []

finds_sibling :
    sibling_path (some (codes "/bin/box")) 4096 (codes "box") (codes "log_parse")
    ≡ some (codes "/bin/log_parse")
unfolding sibling_path before_slash
finds_sibling = refl

takes_minus : valid_uint_string (codes " -5") false ≡ true
unfolding valid_uint_string strtoul skip_spaces scan_digits
takes_minus = refl

valid_uint_string-parse_ttl_example :
    (valid_uint_string (print_long (negsuc 4)) true ≡ true)
    × (parse_ttl (print_long (negsuc 4))
        ≡ (if ltb_ℤ (negsuc 4) (pos 0) then none else some (negsuc 4)))
valid_uint_string-parse_ttl_example = ConfigTtl.valid_uint_string-parse_ttl (negsuc 4) (omega arith)

abbrev first_action : List Action → Bool
first_action [] = false
first_action (a ∷ trace) = true

starts : first_action (pipeline_dispatcher_main host (codes "box") opts arguments).1 ≡ true
unfolding pipeline_dispatcher_main pd_config_parse parse_options sibling_path before_slash
    pd_config_validate valid_uint_string strtoul skip_spaces scan_digits pd_pipeline_run
starts = refl

acts : (trace : List Action) → first_action trace ≡ true → trace ≢ []
acts [] h e = cc
acts (a ∷ trace) h e = cc

pipeline_dispatcher_main-IsSound_example :
    (cfg : Config) × (pd_config_parse host.link (codes "box") opts arguments ≡ configured cfg)
    × ConfigStarts.IsSound host cfg
    × (installs host ≡ true)
    × (pipeline_dispatcher_main host (codes "box") opts arguments ≡ numbered (pd_pipeline_run calm))
pipeline_dispatcher_main-IsSound_example =
    ConfigStarts.pipeline_dispatcher_main-IsSound host (codes "box") opts arguments
      (acts (pipeline_dispatcher_main host (codes "box") opts arguments).1 starts)
