-- ===== src/StreamMerge/Tests.antt =====
-- Runs of the event set and of the clip state machine on small inputs, and the theorems at them.
use stream_data_pipline.Prelude.{ℕ, ◌≡◌, ◌≢◌, refl, Bool, true, false, List, [], ◌∷◌, ◌++◌, arith}
use stream_data_pipline.Prelude.Bytes.{codes}
use stream_data_pipline.Prelude.Int.{pos}
use stream_data_pipline.StreamMerge.Events.{EventSet, has_tag, add_all}
use stream_data_pipline.StreamMerge.Events.Laws as EventLaws
use stream_data_pipline.StreamMerge.Fsm.{
  MetaRecord, Fsm, reject_late, reset, process_record, flush_final, start_clip, append_record,
  snapshot_clip,
}
use stream_data_pipline.StreamMerge.Fsm.Laws as FsmLaws
use stream_data_pipline.StreamMerge.Fsm.Clips.{Group}
use stream_data_pipline.StreamMerge.Fsm.Runs.{
  Input, meta, finish, Emitted, run, step, zero_clip, emissions,
}
use stream_data_pipline.StreamMerge.Fsm.Cover.{AllCover, flat, taken}
use stream_data_pipline.StreamMerge.Fsm.Sessions as FsmSessions

abbrev chunk : ℕ → ℕ → ℕ → ℕ → MetaRecord
chunk seq offset length ts = record {
  kind = codes "data";
  seq = seq;
  offset = offset;
  length = length;
  ts_ms = pos ts;
  events = [];
  valid = true;
}

-- Two contiguous chunks, a duplicate, one behind a gap, and one that is a window later.
abbrev inputs : List Input
inputs =
    meta (chunk 1 0 100 1000) (pos 10)
    ∷ meta (chunk 2 100 50 2000) (pos 20)
    ∷ meta (chunk 2 100 50 2000) (pos 21)
    ∷ meta (chunk 4 200 10 3000) (pos 30)
    ∷ meta (chunk 5 210 10 9000) (pos 40)
    ∷ []

abbrev tagged : EventSet
tagged = codes "motion" ∷ []

abbrev lengths : List Emitted → List (ℕ × ℕ × Bool)
lengths [] = []
lengths (e ∷ es) = (e.clip.start_offset, e.clip.total_length, e.complete) ∷ lengths es

emitted_ranges :
    lengths (run (pos 5000) (pos 2000) reset (inputs ++ finish ∷ [])).1
    ≡ (0, 150, false) ∷ (200, 10, true) ∷ (210, 10, true) ∷ []
unfolding run step process_record flush_final start_clip append_record snapshot_clip emissions
    add_all
emitted_ranges = refl

tagged-IsValid : EventLaws.IsValid tagged
unfolding has_tag
tagged-IsValid = record { distinct = ((refl, omega arith), refl, tt); bounded = omega arith }

none-IsValid : EventLaws.IsValid []
none-IsValid = record { distinct = tt; bounded = omega arith }

abbrev collecting : Fsm
collecting = record {
  active = true;
  start_ts_ms = pos 1000;
  end_ts_ms = pos 1000;
  start_offset = 0;
  total_length = 100;
  expected_seq = 2;
  expected_offset = 100;
  last_chunk_wall_ms = pos 10;
  events = [];
}

collecting_runs : collecting ≡ start_clip (chunk 1 0 100 1000) (pos 10)
unfolding start_clip
collecting_runs = refl

collecting-IsConsistent : FsmLaws.IsConsistent collecting
collecting-IsConsistent = record {
  covers = refl;
  start_fits = omega arith;
  total_fits = omega arith;
  seq_fits = omega arith;
  tags = none-IsValid;
  idle_is_zero = λ e. cc;
}

chunk-IsReadable : FsmLaws.IsReadable (chunk 2 100 50 2000)
chunk-IsReadable = record {
  seq_fits = omega arith;
  offset_fits = omega arith;
  length_fits = omega arith;
  tags = none-IsValid;
}

process_record-IsConsistent_example :
    FsmLaws.IsConsistent
      (process_record collecting (chunk 2 100 50 2000) (pos 5000) (pos 20) zero_clip).fsm
process_record-IsConsistent_example =
    FsmLaws.process_record-IsConsistent collecting (chunk 2 100 50 2000) (pos 5000) (pos 20)
      zero_clip collecting-IsConsistent chunk-IsReadable

not_refused :
    (process_record collecting (chunk 2 100 50 2000) (pos 5000) (pos 20) zero_clip).action
    ≢ reject_late
unfolding process_record
not_refused e = cc

session_partition_example :
    (gs : List Group) × AllCover
      (pos 5000)
      gs
      (run (pos 5000) (pos 2000) reset (inputs ++ finish ∷ [])).1
    × (flat gs ≡ taken (pos 5000) (pos 2000) reset (inputs ++ finish ∷ []))
session_partition_example = FsmSessions.session_partition (pos 5000) (pos 2000) inputs

taken-Increasing_example :
    FsmSessions.Increasing (pos 5000) (pos 2000) 0 (taken (pos 5000) (pos 2000) reset inputs)
taken-Increasing_example =
    FsmSessions.taken-Increasing (pos 5000) (pos 2000) inputs reset (omega arith)
