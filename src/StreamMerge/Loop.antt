-- ===== src/StreamMerge/Loop.antt =====
-- applets/stream_merge/stream_merge.c: the work of `stream_merge_main` once the metadata file is open.
-- What a turn of its loop gets from the operating system is a `Turn`; the turns are a list, and a run
-- whose list ends before the sentinel was seen is still waiting. Closing descriptors leaves no trace.
pub mod Inputs
pub mod Reached
pub mod Stands
pub mod Total
pub mod Whole
pub mod Timeout
use stream_data_pipline.Prelude.{
  ℕ, Bool, true, false, ◌||◌, Option, none, some, List, [], ◌∷◌, if◌then◌else◌,
}
use stream_data_pipline.Prelude.Bytes.{Bytes}
use stream_data_pipline.Prelude.Int.{ℤ, pos, ◌-ℤ◌, ltb_ℤ}
use stream_data_pipline.Buffer.{Buffer, empty}
use stream_data_pipline.Paths.{lp_build_artifact_path, pipeline_sentinel_name}
use stream_data_pipline.Watch.{Answer, lp_consume_inotify_events}
use stream_data_pipline.StreamMerge.Fsm.{Fsm, reset, flush_final}
use stream_data_pipline.StreamMerge.Fsm.Runs.{zero_clip}
use stream_data_pipline.StreamMerge.Output.{Env, path_max}
use stream_data_pipline.StreamMerge.Drain.{Machine, clock_read, settle, drain_meta, idle_check}

-- What `poll` answers: an error, EINTR, or whether the two descriptors can be read.
pub data Poll : Type 0 where
  broken signalled : Poll
  polled : Bool → Bool → Poll

-- One turn of the loop: `poll` by its time-out, then what the reads of the directory watch and of the
-- metadata file give, and whether the sentinel can be accessed. What the watch of the file gives is
-- read and ignored.
pub record Turn : Type 0 where
  pub poll : ℤ → Poll
  pub chunks : List Answer
  pub dir_events : List Answer
  pub sentinel_there : Bool

-- The time-out of `poll`: up to a second, less if the active clip becomes idle before.
unfoldable pub poll_timeout : Fsm → ℤ → ℤ → ℤ
unfolding ◌-ℤ◌
poll_timeout fsm idle_ms now =
    let idle_left = idle_ms -ℤ (now -ℤ fsm.last_chunk_wall_ms) in
    if fsm.active
    then if ltb_ℤ idle_left (pos 1000)
      then if ltb_ℤ (pos 0) idle_left then idle_left else pos 0
      else pos 1000
    else pos 1000

-- How a turn ends: another one may follow, or the run fails.
pub data Next : Type 0 where
  go : Machine → Buffer → Bool → Next
  stop : Machine → Next

-- How the loop ends: with the sentinel, with an error, or not yet.
pub data Loop : Type 0 where
  left : Machine → Buffer → Loop
  stopped waiting : Machine → Loop

-- How the run ends: with an exit code, or not yet.
pub data Run : Type 0 where
  exits : ℕ → Machine → Run
  waits : Machine → Run

-- The zero-initialised machine, when the clock was read so often before.
abbrev pub start : ℕ → Machine
start readings = record { fsm = reset; printed = []; readings = readings }

module _ {I D : Type 0} (e : Env I D) where
  abbrev pub accessed : Bool → Option Bytes → Bool
  accessed there none = false
  accessed there (some path) = there

  -- `sentinel_exists`, where `there` is what `access` finds.
  unfoldable pub sentinel_exists : Bool → Bool
  sentinel_exists there =
      accessed there (lp_build_artifact_path path_max e.src pipeline_sentinel_name)

  abbrev pub behind_idle : Bool × Machine → Buffer → Bool → Next
  behind_idle (true, k) b saw = go k b saw
  behind_idle (false, k) b saw = stop k

  -- The rest of a turn, behind the reading of the metadata.
  abbrev pub turn_end : Turn → Bool → Bool × Machine × Buffer → Bool → Next
  turn_end t dir_ready (false, k, b) saw = stop k
  turn_end t dir_ready (true, k, b) saw = behind_idle (idle_check e k) b (
      (if dir_ready then (lp_consume_inotify_events t.dir_events saw).1 else saw)
      || sentinel_exists t.sentinel_there)

  abbrev pub turn_on : Turn → Machine → Buffer → Bool → Poll → Next
  turn_on t k b saw broken = stop k
  turn_on t k b saw signalled = go k b saw
  turn_on t k b saw (polled meta_ready dir_ready) =
      turn_end t dir_ready (if meta_ready then drain_meta e t.chunks k b else (true, k, b)) saw

  -- The body of the main loop.
  unfoldable pub turn_step : Turn → Machine → Buffer → Bool → Next
  unfolding poll_timeout sentinel_exists
  turn_step t k b saw =
      turn_on t (clock_read k) b saw (t.poll (poll_timeout k.fsm e.idle_ms (e.clock k.readings)))

  abbrev pub loop_on : Next → (Machine → Buffer → Bool → Loop) → Loop
  loop_on (go k b saw) next = next k b saw
  loop_on (stop k) next = stopped k

  -- The main loop
  unfoldable pub merge_loop : List Turn → Machine → Buffer → Bool → Loop
  unfolding turn_step
  merge_loop turns k b true = left k b
  merge_loop [] k b false = waiting k
  merge_loop (t ∷ turns) k b false = loop_on (turn_step t k b false) (merge_loop turns)

  abbrev pub flushed : Bool × Machine → Run
  flushed (true, k) = exits 0 k
  flushed (false, k) = exits 1 k

  -- The flush of the last clip, if the last reading went well.
  abbrev pub last_clip : Bool × Machine × Buffer → Run
  last_clip (true, k, b) = flushed (settle e (flush_final k.fsm zero_clip) k)
  last_clip (false, k, b) = exits 1 k

  abbrev pub behind_loop : List Answer → Loop → Run
  behind_loop last (left k b) = last_clip (drain_meta e last k b)
  behind_loop last (stopped k) = exits 1 k
  behind_loop last (waiting k) = waits k

  abbrev pub behind_first : List Turn → List Answer → Bool → Bool × Machine × Buffer → Run
  behind_first turns last saw (true, k, b) = behind_loop last (merge_loop turns k b saw)
  behind_first turns last saw (false, k, b) = exits 1 k

  -- From the first reading to the end: the answers of the first and the last `drain_meta` are apart.
  unfoldable pub merge : List Answer → List Turn → List Answer → ℕ → Bool → Run
  unfolding merge_loop
  merge first turns last readings saw =
      behind_first turns last saw (drain_meta e first (start readings) empty)
