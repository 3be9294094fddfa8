-- ===== src/StreamMerge/LoopTests.antt =====
-- Whole runs of stream_merge on small files, and the theorems at them.
use stream_data_pipline.Prelude.{
  ◌+◌, ◌^◌, ◌<◌, ◌≡◌, ◌≢◌, refl, ap, true, false, some, [], ◌∷◌, ◌++◌, arith, replicate,
  length-replicate, length,
}
use stream_data_pipline.Prelude.Bytes.{Bytes, codes, str_eq, starts_with, split_at}
use stream_data_pipline.Prelude.Int.{ℤ, pos, ◌≤ℤ◌, ◌+ℤ◌, ◌-ℤ◌}
use stream_data_pipline.Prelude.Decimal.{skip_spaces, digits_onto, print_ℕ, print_long}
use stream_data_pipline.Buffer.{
  Allocator, empty, size_max, append_mem, reserve, resize, grow, realloc,
}
use stream_data_pipline.Json.{parse_object, field, get_string, get_int64, get_uint64}
use stream_data_pipline.Json.Numbers.{halves, halves-IsIeee}
use stream_data_pipline.Json.Tests.{Item, sample, quoted}
use stream_data_pipline.Paths.{lp_build_artifact_path}
use stream_data_pipline.Watch.{got, again, lp_consume_inotify_events}
use stream_data_pipline.StreamMerge.Events.{add_all}
use stream_data_pipline.StreamMerge.Fsm.{
  MetaRecord, ClipRecord, Fsm, emit_partial, process_record, check_idle, flush_final, start_clip,
  append_record, snapshot_clip, reset,
}
use stream_data_pipline.StreamMerge.Fsm.Runs.{zero_clip}
use stream_data_pipline.StreamMerge.Output.{
  Env, Stdout, ts_sec, clip_path, clip_head, emit_events, emit_clip, handle_action,
}
use stream_data_pipline.StreamMerge.Output.Lines as OutputLines
use stream_data_pipline.StreamMerge.Reader.{parse_line}
use stream_data_pipline.StreamMerge.Reader as Reader
use stream_data_pipline.StreamMerge.Fsm.Laws as FsmLaws
use stream_data_pipline.StreamMerge.Drain.Cut.{cut}
use stream_data_pipline.StreamMerge.Drain.Lines as DrainLines
use stream_data_pipline.StreamMerge.Loop.Timeout as Timeout
use stream_data_pipline.StreamMerge.Main.{WaitTurn, readable, missing, System}
use stream_data_pipline.StreamMerge.Main.Early as Early
use stream_data_pipline.Buffer.Steps.{empty-Holds}
use stream_data_pipline.Json.Numbers.{IsSafe}
use stream_data_pipline.StreamMerge.Drain.{
  Machine, discard, read_meta, settle, take_record, take_line, drain_lines, drain_meta, idle_check,
}
use stream_data_pipline.StreamMerge.Drain.Feed.{read_text, reads_well}
use stream_data_pipline.StreamMerge.Loop.{
  Turn, polled, exits, poll_timeout, sentinel_exists, turn_step, merge_loop, merge, start,
}
use stream_data_pipline.StreamMerge.Loop.Stands as LoopStands
use stream_data_pipline.StreamMerge.Loop.Whole as LoopWhole
use stream_data_pipline.StreamMerge.Loop.Total as LoopTotal

abbrev stdout : Stdout
stdout = record { print = λ out text. (true, out ++ text); flush = λ out. true }

abbrev plenty : Allocator
plenty = record {
  grants = λ n. true;
  fresh = λ n. replicate n 0xaa;
  length-fresh = λ n. length-replicate n 0xaa;
}

abbrev pub env : Env Item ℤ
env = record {
  session = codes "s";
  src = codes "dir";
  clip_ms = pos 5000;
  idle_ms = pos 2000;
  stdout = stdout;
  alloc = plenty;
  cjson = sample;
  double = halves;
  clock = λ i. pos i;
}

pub env-Ready : OutputLines.Ready env quoted
env-Ready = record {
  prints = λ out text. refl;
  flushes = λ out. refl;
  quotes = λ s. refl;
  grants = λ n. refl;
}

-- One line and the beginning of another, which the last reading completes.
abbrev pub chunk : Bytes
chunk = codes "{1023\n{22"

abbrev pub rest : Bytes
rest = codes "12\n"

abbrev pub turn : Turn
turn = record {
  poll = λ ms. polled false true;
  chunks = [];
  dir_events = again ∷ [];
  sentinel_there = true;
}

prints_clip :
    merge env (got chunk ∷ []) (turn ∷ []) (got rest ∷ []) 0 false
    ≡ exits 0 (record {
      fsm = reset;
      printed =
          codes
            "{\"type\":\"clip\",\"session_id\":\"s\",\"ts\":0,\"path\":\"dir/s_0.bin\",\"offset\":0,\"length\":3,\"complete\":true}\n";
      readings = 4;
    })
unfolding merge merge_loop turn_step poll_timeout sentinel_exists drain_meta drain_lines take_line
    take_record settle read_meta discard idle_check handle_action emit_clip emit_events clip_head
    clip_path ts_sec lp_build_artifact_path lp_consume_inotify_events parse_line get_string
    get_uint64 get_int64 field parse_object skip_spaces starts_with str_eq split_at append_mem
    reserve resize grow realloc process_record check_idle flush_final start_clip append_record
    snapshot_clip add_all ◌-ℤ◌ print_long print_ℕ digits_onto
prints_clip = refl

pub short : OutputLines.IsShort env
short = omega arith

pub turn-IsCalm : LoopStands.IsCalm turn
unfolding reads_well
turn-IsCalm = record { polls = λ ms e. cc; reads = refl }

pub ends : LoopTotal.Ends (turn ∷ [])
ends = (λ ms. (false, true, refl), refl)

pub reads_first : reads_well (got chunk ∷ []) ≡ true
unfolding reads_well
reads_first = refl

pub reads_last : reads_well (got rest ∷ []) ≡ true
unfolding reads_well
reads_last = refl

-- What this run reads is the two lines.
pub reads_lines :
    LoopTotal.merge_text env (got chunk ∷ []) (turn ∷ []) (got rest ∷ []) 0 false
    ≡ codes "{1023\n{2212\n"
unfolding LoopWhole.loop_text read_text turn_step poll_timeout sentinel_exists drain_meta
    drain_lines take_line take_record settle read_meta discard idle_check handle_action emit_clip
    emit_events clip_head clip_path ts_sec lp_build_artifact_path lp_consume_inotify_events
    parse_line get_string get_uint64 get_int64 field parse_object skip_spaces starts_with str_eq
    split_at append_mem reserve resize grow realloc process_record check_idle flush_final start_clip
    append_record snapshot_clip add_all ◌-ℤ◌
reads_lines = refl

merge-Merged_example :
    (k : Machine) × (merge env (got chunk ∷ []) (turn ∷ []) (got rest ∷ []) 0 false ≡ exits 0 k)
    × LoopWhole.Merged env quoted
        (LoopTotal.merge_text env (got chunk ∷ []) (turn ∷ []) (got rest ∷ []) 0 false)
        k
merge-Merged_example =
    LoopTotal.merge-Merged env quoted env-Ready short (got chunk ∷ []) (turn ∷ []) (got rest ∷ []) 0
      false reads_first (turn-IsCalm, tt) reads_last ends
      (omega (arith, ap (λ (t : Bytes). length t) reads_lines))

chunk_fits : 0 + length (read_text (got chunk ∷ [])) < size_max
unfolding read_text
chunk_fits = omega arith

drain_meta-Drained_example :
    let (lines, left) = cut ([] ++ read_text (got chunk ∷ [])) in
    (reads_well (got chunk ∷ []) ≡ true
      → DrainLines.Drained env left
          (DrainLines.feed env lines (start 0))
          (drain_meta env (got chunk ∷ []) (start 0) empty))
    × (reads_well (got chunk ∷ []) ≡ false
        → ((drain_meta env (got chunk ∷ []) (start 0) empty).0 ≡ false)
          × ((drain_meta env (got chunk ∷ []) (start 0) empty).1 ≡ start 0))
drain_meta-Drained_example =
    DrainLines.drain_meta-Drained env (got chunk ∷ []) [] (start 0) empty (λ n. refl)
      (empty-Holds plenty) chunk_fits

abbrev record_read : MetaRecord
record_read = record {
  kind = codes "data";
  seq = 1;
  offset = 0;
  length = 2;
  ts_ms = pos 3;
  events = [];
  valid = true;
}

reads_record : parse_line sample halves (codes "{1023") ≡ some record_read
unfolding parse_line get_string get_uint64 get_int64 field parse_object skip_spaces starts_with
    str_eq
reads_record = refl

parse_line-IsReadable_example :
    FsmLaws.IsReadable record_read
    × (record_read.valid ≡ true)
    × (record_read.seq < 2 ^ 53)
    × (record_read.offset < 2 ^ 53)
    × (record_read.length < 2 ^ 53)
    × IsSafe record_read.ts_ms
    × (length record_read.kind < 16)
    × (record_read.events ≡ [])
parse_line-IsReadable_example =
    Reader.parse_line-IsReadable sample halves halves-IsIeee (codes "{1023") record_read
      reads_record

abbrev clip : ClipRecord
clip = record {
  active = true;
  start_ts_ms = pos 1500;
  end_ts_ms = pos 2000;
  start_offset = 10;
  total_length = 20;
  events = codes "motion" ∷ [];
}

-- Half a second is left.
abbrev waiting_clip : Fsm
waiting_clip = record reset { active = true; last_chunk_wall_ms = pos 1000 }

poll_timeout_bounds_example :
    let t = poll_timeout waiting_clip (pos 2000) (pos 2500) in
    (pos 0 ≤ℤ t)
    × (t ≤ℤ pos 1000)
    × (t ≢ pos 1000
        → (check_idle waiting_clip (pos 2000) (pos 2500 +ℤ t) zero_clip).action ≡ emit_partial)
poll_timeout_bounds_example = Timeout.poll_timeout_bounds waiting_clip (pos 2000) (pos 2500)

abbrev wait_turn : WaitTurn
wait_turn = record { poll = λ ms. readable; events = again ∷ []; opens = true }

abbrev system : System
system = record {
  bin_opens = true;
  dir_watched = true;
  sentinel_there = false;
  meta_opens = missing;
  wait_turns = wait_turn ∷ [];
  file_watched = true;
  first = got chunk ∷ [];
  turns = turn ∷ [];
  last = got rest ∷ [];
}
