-- ===== src/StreamMerge/Main.antt =====
-- applets/stream_merge/stream_merge.c: `stream_merge_main`. `getopt_long` and `atof` are parameters:
-- the options are a list, and `ms_of` is the number of milliseconds that a text of seconds has. What
-- the operating system answers to each call is in `System`. Closing descriptors, usage texts and logs
-- leave no trace.
pub mod Early
use stream_data_pipline.Prelude.{
  ℕ, suc, ◌+◌, ◌<◌, Bool, true, false, not, ◌||◌, Option, none, some, List, [], ◌∷◌, ◌++◌,
  if◌then◌else◌, take, ◌-◌,
}
use stream_data_pipline.Prelude.Bytes.{Bytes, codes}
use stream_data_pipline.Prelude.Int.{ℤ, pos, ◌+ℤ◌, ◌-ℤ◌, leb_ℤ}
use stream_data_pipline.Buffer.{Allocator}
use stream_data_pipline.Json.{Cjson}
use stream_data_pipline.Json.Numbers.{Double}
use stream_data_pipline.Paths.{lp_build_artifact_path}
use stream_data_pipline.Watch.{Answer, lp_consume_inotify_events}
use stream_data_pipline.StreamMerge.Output.{Env, Stdout, path_max}
use stream_data_pipline.StreamMerge.Drain.{Machine}
use stream_data_pipline.StreamMerge.Loop.{Turn, Run, exits, waits, start, sentinel_exists, merge}

-- What `getopt_long` gives for one option.
pub data Opt : Type 0 where
  clip_secs idle_secs : Bytes → Opt
  help unknown : Opt

-- DEFAULT_CLIP_MS and DEFAULT_IDLE_MS
abbrev pub default_clip_ms : ℤ
default_clip_ms = pos 5000

abbrev pub default_idle_ms : ℤ
default_idle_ms = pos 2000

-- What the options lead to: an exit code at once, or the two times.
pub data Parsed : Type 0 where
  leaves : ℕ → Parsed
  times : ℤ → ℤ → Parsed

-- The loop over the options.
unfoldable pub parse_options : (Bytes → ℤ) → List Opt → ℤ → ℤ → Parsed
parse_options ms_of [] clip_ms idle_ms = times clip_ms idle_ms
parse_options ms_of (clip_secs s ∷ opts) clip_ms idle_ms =
    parse_options ms_of opts (ms_of s) idle_ms
parse_options ms_of (idle_secs s ∷ opts) clip_ms idle_ms =
    parse_options ms_of opts clip_ms (ms_of s)
parse_options ms_of (help ∷ opts) clip_ms idle_ms = leaves 0
parse_options ms_of (unknown ∷ opts) clip_ms idle_ms = leaves 1

-- `poll` while the metadata file is not there: an error, EINTR, nothing in time, or an event.
pub data WaitPoll : Type 0 where
  poll_failed poll_signalled timed_out readable : WaitPoll

-- A turn of the waiting loop: `poll` by its time-out, what the reads of the watch give, and whether
-- the metadata file can be opened then.
pub record WaitTurn : Type 0 where
  pub poll : ℤ → WaitPoll
  pub events : List Answer
  pub opens : Bool

-- How the waiting ends: with the file, with the sentinel alone, with exit code 1, or not yet.
pub data Waited : Type 0 where
  appeared completed gave_up still_waiting : ℕ → Waited

-- `open` of the metadata file: done, ENOENT, or another error.
pub data Opened : Type 0 where
  opened missing refused : Opened

pub record System : Type 0 where
  pub bin_opens : Bool
  pub dir_watched : Bool
  pub sentinel_there : Bool
  pub meta_opens : Opened
  pub wait_turns : List WaitTurn
  pub file_watched : Bool
  pub first : List Answer
  pub turns : List Turn
  pub last : List Answer

-- What the process is given.
pub record Process (I D : Type 0) : Type 0 where
  pub options : List Opt
  pub arguments : List Bytes
  pub ms_of : Bytes → ℤ
  pub stdout : Stdout
  pub alloc : Allocator
  pub cjson : Cjson I D
  pub double : Double D
  pub clock : ℕ → ℤ
  pub system : System

module _ (clock : ℕ → ℤ) (deadline : ℤ) where
  -- The file is opened only while the sentinel was not seen.
  abbrev pub open_or_wait : Bool → Bool → ℕ → (Bool → ℕ → Waited) → Waited
  open_or_wait saw opens readings next =
      if not saw
      then (if opens then appeared readings else next saw readings)
      else next saw readings

  abbrev pub wait_on : WaitPoll → WaitTurn → ℕ → (Bool → ℕ → Waited) → Waited
  wait_on poll_failed t readings next = gave_up readings
  wait_on poll_signalled t readings next = next false readings
  wait_on timed_out t readings next = open_or_wait false t.opens readings next
  wait_on readable t readings next =
      open_or_wait (lp_consume_inotify_events t.events false).1 t.opens readings next

  -- The loop that waits for the metadata file; the clock was read `readings` times before.
  unfoldable pub wait_meta : List WaitTurn → Bool → ℕ → Waited
  unfolding ◌-ℤ◌
  wait_meta turns true readings = completed readings
  wait_meta [] false readings = still_waiting readings
  wait_meta (t ∷ turns) false readings =
      let remaining = deadline -ℤ clock readings in
      let r = wait_on (t.poll remaining) t (suc readings) (wait_meta turns) in
      if leb_ℤ remaining (pos 0) then gave_up readings else r

abbrev pub is_none : Option Bytes → Bool
is_none none = true
is_none (some s) = false

-- A name as `snprintf` leaves it in a buffer of PATH_MAX bytes.
abbrev pub cut_name : Bytes → Bytes
cut_name name = take (path_max - 1) name

module _ {I D : Type 0} (e : Env I D) (sys : System) where
  -- From the opened metadata file on; `saw` is `saw_sentinel`.
  abbrev pub with_meta : Bool → ℕ → Run
  with_meta saw readings =
      if sys.file_watched
      then merge e sys.first sys.turns sys.last readings saw
      else exits 1 (start readings)

  abbrev pub behind_wait : Waited → Run
  behind_wait (appeared readings) = with_meta false readings
  behind_wait (completed readings) = exits 0 (start readings)
  behind_wait (gave_up readings) = exits 1 (start readings)
  behind_wait (still_waiting readings) = waits (start readings)

  abbrev pub behind_open : Bool → Opened → Run
  behind_open saw opened = with_meta saw 0
  behind_open saw refused = exits 1 (start 0)
  behind_open saw missing =
      behind_wait (wait_meta e.clock (e.clock 0 +ℤ pos 5000) sys.wait_turns saw 1)

  -- The paths of the two files have to fit; what `snprintf` cut off their names is not looked at.
  abbrev pub paths_fail : Bool
  paths_fail =
      is_none (lp_build_artifact_path path_max e.src (cut_name (e.session ++ codes ".bin")))
      || is_none
          (lp_build_artifact_path path_max e.src (cut_name (e.session ++ codes ".meta.jsonl")))

  -- `stream_merge_main` behind its options and arguments.
  unfoldable pub watch_session : Run
  unfolding wait_meta merge sentinel_exists ◌+ℤ◌
  watch_session =
      if paths_fail
      then exits 1 (start 0)
      else if not sys.bin_opens
      then exits 1 (start 0)
      else if not sys.dir_watched
      then exits 1 (start 0)
      else behind_open (sentinel_exists e sys.sentinel_there) sys.meta_opens

module _ {I D : Type 0} (p : Process I D) where
  abbrev pub with_arguments : ℤ → ℤ → List Bytes → Run
  with_arguments clip_ms idle_ms [] = exits 1 (start 0)
  with_arguments clip_ms idle_ms (session ∷ []) = exits 1 (start 0)
  with_arguments clip_ms idle_ms (session ∷ src ∷ rest) =
      watch_session
        (record {
          session = session;
          src = src;
          clip_ms = clip_ms;
          idle_ms = idle_ms;
          stdout = p.stdout;
          alloc = p.alloc;
          cjson = p.cjson;
          double = p.double;
          clock = p.clock;
        })
        p.system

  abbrev pub with_options : Parsed → Run
  with_options (leaves code) = exits code (start 0)
  with_options (times clip_ms idle_ms) = with_arguments clip_ms idle_ms p.arguments

  -- `stream_merge_main`; the arguments are those behind the options.
  unfoldable pub stream_merge_main : Run
  unfolding parse_options watch_session
  stream_merge_main = with_options (parse_options p.ms_of p.options default_clip_ms default_idle_ms)
