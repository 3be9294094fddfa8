-- ===== src/Pipeline.antt =====
-- The pipeline that applets/pipeline_dispatcher/pd_pipeline.c starts: stream_merge | log_parse |
-- clip_store, each reading from its standard input what the one before it printed. A pipe delivers
-- all the bytes in their order, so a stage is a function of the whole text. `getopt_long`, with which
-- the applets read their argument vectors, is a parameter.
pub mod Emissions
pub mod Clips
pub mod Passes
pub mod Reads
pub mod Stored
pub mod Whole
mod Tests
use stream_data_pipline.Prelude.{
  ℕ, Bool, true, false, Option, none, some, List, [], ◌∷◌, ◌==◌, if◌then◌else◌,
}
use stream_data_pipline.Prelude.Bytes.{Bytes, codes}
use stream_data_pipline.StreamMerge.Loop.{Run, exits, waits}
use stream_data_pipline.StreamMerge.Main as MergeMain
use stream_data_pipline.LogParse.Command as LogCommand
use stream_data_pipline.LogParse.Main as LogMain
use stream_data_pipline.ClipStore.Format.{newline}
use stream_data_pipline.ClipStore.Load.{Platform}
use stream_data_pipline.ClipStore.Compact.{Directory}
use stream_data_pipline.ClipStore.Main as StoreMain
use stream_data_pipline.Dispatcher.Config.{Config}

abbrev pub onto_first : ℕ → List Bytes → List Bytes
onto_first c [] = (c ∷ []) ∷ []
onto_first c (l ∷ ls) = (c ∷ l) ∷ ls

-- What the calls of `getline` on the standard input deliver, with the line ends.
unfoldable pub getlines : Bytes → List Bytes
getlines [] = []
getlines (c ∷ s) = if c == newline then (c ∷ []) ∷ getlines s else onto_first c (getlines s)

-- `merge_argv`, `parse_argv` and `store_argv`
abbrev pub merge_argv : Config → List Bytes
merge_argv cfg =
    cfg.bin_stream_merge
    ∷ codes "--clip-secs"
    ∷ cfg.clip_secs
    ∷ codes "--idle-secs"
    ∷ cfg.idle_secs
    ∷ cfg.session_id
    ∷ cfg.src_dir
    ∷ []

abbrev pub parse_argv : Config → List Bytes
parse_argv cfg = cfg.bin_log_parse ∷ codes "--filter" ∷ cfg.filter ∷ []

abbrev pub store_argv : Config → List Bytes
store_argv cfg = cfg.bin_clip_store ∷ codes "--db" ∷ cfg.db_path ∷ codes "--ttl" ∷ cfg.ttl ∷ []

-- What `getopt_long` makes of an argument vector with the options of each applet: the options, and the
-- arguments that are none.
pub record Getopt : Type 0 where
  pub merge_options : List Bytes → List MergeMain.Opt × List Bytes
  pub parse_options : List Bytes → List LogCommand.Opt
  pub store_options : List Bytes → List StoreMain.Opt × List Bytes

-- What a run of stream_merge has printed.
abbrev pub printed_by : Run → Bytes
printed_by (exits code k) = k.printed
printed_by (waits k) = k.printed

-- How the three applets end.
pub record Ended : Type 0 where
  pub merge_run : Run
  pub parse_run : ℕ × Bytes
  pub store_run : Option StoreMain.Exit

-- What the three processes are given, apart from their options and their standard input.
pub record Hosts (I D : Type 0) : Type 0 where
  pub merge_process : MergeMain.Process I D
  pub parse_process : LogMain.Host I D
  pub store_process : StoreMain.Host I D
  pub platform : Platform
  pub getopt : Getopt

module _ {I D : Type 0} (hosts : Hosts I D) where
  abbrev pub log_host : Bytes → LogMain.Host I D
  log_host text = record (hosts.parse_process) { input = getlines text }

  abbrev pub store_host : Bytes → StoreMain.Host I D
  store_host text = record (hosts.store_process) { input = getlines text }

  -- The three children of `pd_pipeline_run` on their pipes.
  unfoldable pub run_pipeline : Config → Directory → Ended
  run_pipeline cfg dir =
      let (opts, arguments) = hosts.getopt.merge_options (merge_argv cfg) in
      let m =
        MergeMain.stream_merge_main
          (record (hosts.merge_process) { options = opts; arguments = arguments }) in
      let l =
        LogMain.log_parse_main (log_host (printed_by m))
          (hosts.getopt.parse_options (parse_argv cfg)) in
      let (store_opts, rest) = hosts.getopt.store_options (store_argv cfg) in
      record {
        merge_run = m;
        parse_run = l;
        store_run = StoreMain.clip_store_main (hosts.platform) (store_host l.1) store_opts rest dir;
      }
