-- ===== src/Pipeline/Whole.antt =====
-- What a run of the pipeline leaves, when nothing fails on the way: the three applets with the
-- options that applets/pipeline_dispatcher/pd_pipeline.c gives them.
use stream_data_pipline.Prelude.{◌≡◌, true, false, some, [], ◌∷◌}
use stream_data_pipline.Prelude.Bytes.{Bytes, codes, starts_with}
use stream_data_pipline.Prelude.Int.{ℤ}
use stream_data_pipline.Json.Numbers.{IsIeee}
use stream_data_pipline.StreamMerge.Output.{Env}
use stream_data_pipline.StreamMerge.Output.Lines.{Ready}
use stream_data_pipline.StreamMerge.Drain.Feed.{reads_well}
use stream_data_pipline.StreamMerge.Loop.{sentinel_exists}
use stream_data_pipline.StreamMerge.Loop.Whole.{AreCalm}
use stream_data_pipline.StreamMerge.Loop.Total.{Ends, merge_text}
use stream_data_pipline.StreamMerge.Main.{clip_secs, idle_secs, Process, opened, parse_options}
use stream_data_pipline.LogParse.Command.{opt_filter}
use stream_data_pipline.ClipStore.Main as StoreMain
use stream_data_pipline.ClipStore.Main.Granted.{GoesWell}
use stream_data_pipline.Dispatcher.Config.{Config}
use stream_data_pipline.Pipeline.{Hosts, Getopt}
use stream_data_pipline.Pipeline.Passes.{default_filter}
use stream_data_pipline.Pipeline.Reads.{AreNames}

-- What stream_merge works with.
abbrev pub merge_env : {I D : Type 0} → Config → Process I D → Env I D
merge_env cfg pr = record {
  session = cfg.session_id;
  src = cfg.src_dir;
  clip_ms = pr.ms_of cfg.clip_secs;
  idle_ms = pr.ms_of cfg.idle_secs;
  stdout = pr.stdout;
  alloc = pr.alloc;
  cjson = pr.cjson;
  double = pr.double;
  clock = pr.clock;
}

-- What is documented of `getopt_long` for these argument vectors: an option takes the next argument,
-- whatever it is; an argument that does not begin with '-' is none.
pub record IsGetopt (g : Getopt) : Type 0 where
  pub merge_reads :
      (bin clip idle session src : Bytes)
      → starts_with (codes "-") session ≡ false
      → starts_with (codes "-") src ≡ false
      → g.merge_options
          (bin ∷ codes "--clip-secs" ∷ clip ∷ codes "--idle-secs" ∷ idle ∷ session ∷ src ∷ [])
        ≡ (clip_secs clip ∷ idle_secs idle ∷ [], session ∷ src ∷ [])
  pub parse_reads :
      (bin filter : Bytes)
      → g.parse_options (bin ∷ codes "--filter" ∷ filter ∷ []) ≡ opt_filter filter ∷ []
  pub store_reads :
      (bin db ttl : Bytes)
      → g.store_options (bin ∷ codes "--db" ∷ db ∷ codes "--ttl" ∷ ttl ∷ [])
        ≡ (StoreMain.opt_db db ∷ StoreMain.opt_ttl ttl ∷ [], [])

module _ {I D : Type 0} (hosts : Hosts I D) (cfg : Config) where
  -- The text of the metadata file that stream_merge reads in all.
  abbrev pub read_by_merge : Bytes
  read_by_merge =
      let e = merge_env cfg hosts.merge_process in
      let sys = hosts.merge_process.system in
      merge_text e sys.first sys.turns sys.last 0 (sentinel_exists e sys.sentinel_there)

  -- Nothing fails: the files can be opened and read, the session is complete at last, memory is
  -- granted, and whatever is written goes through.
  pub record IsWell (quoted : Bytes → Bytes) (life : ℤ) : Type 0 where
    pub options : IsGetopt hosts.getopt
    pub session_plain : starts_with (codes "-") cfg.session_id ≡ false
    pub src_plain : starts_with (codes "-") cfg.src_dir ≡ false
    pub filter : cfg.filter ≡ default_filter
    pub ttl : StoreMain.parse_ttl cfg.ttl ≡ some life
    pub names : AreNames (merge_env cfg hosts.merge_process)
    pub ready : Ready (merge_env cfg hosts.merge_process) quoted
    pub bin : hosts.merge_process.system.bin_opens ≡ true
    pub dir : hosts.merge_process.system.dir_watched ≡ true
    pub meta : hosts.merge_process.system.meta_opens ≡ opened
    pub watched : hosts.merge_process.system.file_watched ≡ true
    pub first : reads_well hosts.merge_process.system.first ≡ true
    pub calm : AreCalm hosts.merge_process.system.turns
    pub last : reads_well hosts.merge_process.system.last ≡ true
    pub ends : Ends hosts.merge_process.system.turns
    pub input : hosts.parse_process.read_error ≡ false
    pub opens : hosts.store_process.opens ≡ true
    pub locks : hosts.store_process.locks ≡ true
    pub streams : hosts.store_process.streams ≡ true
    pub ieee : IsIeee hosts.store_process.double
    pub goes : GoesWell hosts.store_process
