-- ===== src/Dispatcher/Config.antt =====
-- applets/pipeline_dispatcher: pd_config.c, and `pipeline_dispatcher_main` over the pipeline of
-- Dispatcher. `getopt_long` is a parameter: the options are a list. What the file system answers is
-- in `Host`. Usage texts and logs leave no trace.
pub mod Ttl
pub mod Starts
mod Tests
use stream_data_pipline.Prelude.{
  ℕ, ◌+◌, ◌-◌, Bool, true, false, not, ◌&&◌, ◌||◌, Option, none, some, List, [], ◌∷◌, ◌++◌, ltb,
  ◌==◌, if◌then◌else◌, length, take,
}
use stream_data_pipline.Prelude.Bytes.{Bytes, codes, is_empty}
use stream_data_pipline.Prelude.Unsigned.{Unsigned, strtoul}
use stream_data_pipline.Paths.{slash}
use stream_data_pipline.Dispatcher.Signal.{Signal, pd_signal_install}
use stream_data_pipline.Dispatcher.{
  ExitCode, pd_exit_ok, pd_exit_setup_error, pd_exit_child_error, pd_exit_interrupted, Action, Os,
  pd_pipeline_run,
}

-- PATH_MAX
abbrev pub path_max : ℕ
path_max = 4096

-- `pd_config_t`
pub record Config : Type 0 where
  pub program_name : Bytes
  pub session_id : Bytes
  pub src_dir : Bytes
  pub db_path : Bytes
  pub ttl : Bytes
  pub clip_secs : Bytes
  pub idle_secs : Bytes
  pub filter : Bytes
  pub bin_stream_merge : Bytes
  pub bin_log_parse : Bytes
  pub bin_clip_store : Bytes

-- What `getopt_long` gives for one option.
pub data Opt : Type 0 where
  opt_ttl opt_clip_secs opt_idle_secs opt_filter : Bytes → Opt
  opt_help opt_unknown : Opt

-- `pd_config_parse`: 0 with the configuration, 1, or -1.
pub data Parse : Type 0 where
  configured : Config → Parse
  helped : Parse
  misused : Parse

-- What the process is given: `link` is what `readlink` gives of /proc/self/exe.
pub record Host : Type 0 where
  pub link : Option Bytes
  pub is_dir : Bytes → Bool
  pub is_executable : Bytes → Bool
  pub sigaction_ok : Signal → Bool
  pub os : Os

-- Whether the handlers can be installed; none is there before.
abbrev pub installs : Host → Bool
installs host = (pd_signal_install host.sigaction_ok (λ s. false)).0

-- The text in front of the last slash, or none.
unfoldable pub before_slash : Bytes → Option Bytes
before_slash [] = none
before_slash (c ∷ s) = elim (before_slash s) [
  | some d ↦ some (c ∷ d)
  | none ↦ if c == slash then some [] else none
]

-- The path of this program: `readlink` into PATH_MAX - 1 bytes, if it gives any.
abbrev pub base_path : Option Bytes → Bytes → Bytes
base_path none argv0 = argv0
base_path (some exe) argv0 = if is_empty exe then argv0 else take (path_max - 1) exe

abbrev pub in_dir : ℕ → Option Bytes → Bytes → Option Bytes
in_dir out_size none name =
    let text = b'.' ∷ slash ∷ name in if ltb (length text) out_size then some text else none
in_dir out_size (some dir) name =
    if ltb out_size (length dir + 1 + length name + 1) then none else some (dir ++ slash ∷ name)

-- `sibling_path` into `out_size` bytes, with `none` for -1
unfoldable pub sibling_path : Option Bytes → ℕ → Bytes → Bytes → Option Bytes
unfolding before_slash
sibling_path link out_size argv0 name = in_dir out_size (before_slash (base_path link argv0)) name

abbrev pub valid_value : Bool → Option Unsigned → Bool
valid_value allow_zero none = false
valid_value allow_zero (some (n, erange, end)) =
    if erange || not (is_empty end) then false else allow_zero || ltb 0 n

-- `valid_uint_string`
unfoldable pub valid_uint_string : Bytes → Bool → Bool
valid_uint_string value allow_zero =
    if is_empty value then false else valid_value allow_zero (strtoul value)

abbrev pub initial : Bytes → Config
initial argv0 = record {
  program_name = argv0;
  session_id = [];
  src_dir = [];
  db_path = [];
  ttl = codes "300";
  clip_secs = codes "5";
  idle_secs = codes "2";
  filter = codes "type=clip";
  bin_stream_merge = [];
  bin_log_parse = [];
  bin_clip_store = [];
}

-- The loop over the options.
unfoldable pub parse_options : List Opt → Config → Parse
parse_options [] out = configured out
parse_options (opt_ttl arg ∷ opts) out = parse_options opts (record out { ttl = arg })
parse_options (opt_clip_secs arg ∷ opts) out = parse_options opts (record out { clip_secs = arg })
parse_options (opt_idle_secs arg ∷ opts) out = parse_options opts (record out { idle_secs = arg })
parse_options (opt_filter arg ∷ opts) out = parse_options opts (record out { filter = arg })
parse_options (opt_help ∷ opts) out = helped
parse_options (opt_unknown ∷ opts) out = misused

-- The three paths, each if there was one.
abbrev pub with_paths : Config → Option Bytes → Option Bytes → Option Bytes → Parse
with_paths out (some merge) (some parse) (some store) =
    configured
      (record out { bin_stream_merge = merge; bin_log_parse = parse; bin_clip_store = store })
with_paths out _ _ _ = misused

-- The arguments behind the options: there have to be three.
abbrev pub with_arguments : Option Bytes → List Bytes → Parse → Parse
with_arguments link arguments helped = helped
with_arguments link arguments misused = misused
with_arguments link (session ∷ src ∷ db ∷ []) (configured out) =
    let sibling = sibling_path link path_max out.program_name in
    with_paths (record out { session_id = session; src_dir = src; db_path = db })
      (sibling (codes "stream_merge")) (sibling (codes "log_parse")) (sibling (codes "clip_store"))
with_arguments link _ (configured out) = misused

-- `pd_config_parse`
unfoldable pub pd_config_parse : Option Bytes → Bytes → List Opt → List Bytes → Parse
unfolding parse_options sibling_path
pd_config_parse link argv0 opts arguments =
    with_arguments link arguments (parse_options opts (initial argv0))

-- `pd_config_validate`
unfoldable pub pd_config_validate : Host → Config → Bool
unfolding valid_uint_string
pd_config_validate host cfg =
    if is_empty cfg.session_id || is_empty cfg.src_dir || is_empty cfg.db_path
    then false
    else if not (host.is_dir cfg.src_dir)
    then false
    else if not (valid_uint_string cfg.ttl true)
    then false
    else if not (valid_uint_string cfg.clip_secs false)
    then false
    else if not (valid_uint_string cfg.idle_secs false)
    then false
    else host.is_executable cfg.bin_stream_merge
      && (host.is_executable cfg.bin_log_parse && host.is_executable cfg.bin_clip_store)

-- `pd_exit_code_t`, as numbers
abbrev pub exit_number : ExitCode → ℕ
exit_number pd_exit_ok = 0
exit_number pd_exit_setup_error = 1
exit_number pd_exit_child_error = 3
exit_number pd_exit_interrupted = 130

-- PD_EXIT_BAD_ARGS
abbrev pub pd_exit_bad_args : ℕ
pd_exit_bad_args = 2

abbrev pub numbered : ExitCode × List Action → ℕ × List Action
numbered (code, trace) = (exit_number code, trace)

abbrev pub with_config : Host → Parse → ℕ × List Action
with_config host helped = (exit_number pd_exit_ok, [])
with_config host misused = (pd_exit_bad_args, [])
with_config host (configured cfg) =
    let run = numbered (pd_pipeline_run host.os) in
    if not (pd_config_validate host cfg)
    then (exit_number pd_exit_setup_error, [])
    else if not (installs host)
    then (exit_number pd_exit_setup_error, [])
    else run

-- `pipeline_dispatcher_main`: the exit code, and what it asked of the operating system.
unfoldable pub pipeline_dispatcher_main : Host → Bytes → List Opt → List Bytes → ℕ × List Action
unfolding pd_config_parse pd_config_validate
pipeline_dispatcher_main host argv0 opts arguments =
    with_config host (pd_config_parse host.link argv0 opts arguments)
