-- ===== src/StreamMerge/Fsm.antt =====
-- applets/stream_merge/sm_fsm.h and sm_fsm.c: the gap-aware state machine that cuts the metadata
-- records of a session into clips. `uint64_t` fields are numbers with their wrap-around written
-- out; `int64_t` fields are integers, since the codec accepts no time stamp beyond 2^53. A pointer
-- argument stands for the object it points to, so the guards against NULL have no counterpart.
pub mod Clips
pub mod Cover
pub mod Laws
pub mod Runs
pub mod Sessions
use stream_data_pipline.Prelude.{
  ℕ, ◌+◌, ◌%◌, ◌^◌, Bool, true, false, not, ◌||◌, ltb, ◌==◌, if◌then◌else◌, List, [],
}
use stream_data_pipline.Prelude.Bytes.{Bytes}
use stream_data_pipline.Prelude.Int.{ℤ, pos, ◌-ℤ◌, ltb_ℤ, leb_ℤ}
use stream_data_pipline.StreamMerge.Events.{EventSet, no_events, add_all}

-- `uint64_t` addition
abbrev pub add_u64 : ℕ → ℕ → ℕ
add_u64 a b = (a + b) % 2 ^ 64

-- `sm_meta_record_t`
pub record MetaRecord : Type 0 where
  pub kind : Bytes
  pub seq : ℕ
  pub offset : ℕ
  pub length : ℕ
  pub ts_ms : ℤ
  pub events : EventSet
  pub valid : Bool

-- `sm_clip_record_t`
pub record ClipRecord : Type 0 where
  pub active : Bool
  pub start_ts_ms : ℤ
  pub end_ts_ms : ℤ
  pub start_offset : ℕ
  pub total_length : ℕ
  pub events : EventSet

-- `sm_fsm_t`
pub record Fsm : Type 0 where
  pub active : Bool
  pub start_ts_ms : ℤ
  pub end_ts_ms : ℤ
  pub start_offset : ℕ
  pub total_length : ℕ
  pub expected_seq : ℕ
  pub expected_offset : ℕ
  pub last_chunk_wall_ms : ℤ
  pub events : EventSet

-- `sm_fsm_action_t`
pub data Action : Type 0 where
  nothing reject_late emit_complete emit_partial : Action

unfoldable pub snapshot_clip : Fsm → ClipRecord
snapshot_clip fsm = record {
  active = fsm.active;
  start_ts_ms = fsm.start_ts_ms;
  end_ts_ms = fsm.end_ts_ms;
  start_offset = fsm.start_offset;
  total_length = fsm.total_length;
  events = fsm.events;
}

-- Every field is assigned, so nothing of the old state is left.
unfoldable pub start_clip : MetaRecord → ℤ → Fsm
start_clip rec now_ms = record {
  active = true;
  start_ts_ms = rec.ts_ms;
  end_ts_ms = rec.ts_ms;
  start_offset = rec.offset;
  total_length = rec.length;
  expected_seq = add_u64 rec.seq 1;
  expected_offset = add_u64 rec.offset rec.length;
  last_chunk_wall_ms = now_ms;
  events = rec.events;
}

-- The result of `sm_event_set_add_all` is ignored: tags that do not fit are dropped.
unfoldable pub append_record : Fsm → MetaRecord → ℤ → Fsm
append_record fsm rec now_ms = record fsm {
  end_ts_ms = rec.ts_ms;
  total_length = add_u64 fsm.total_length rec.length;
  expected_seq = add_u64 rec.seq 1;
  expected_offset = add_u64 rec.offset rec.length;
  last_chunk_wall_ms = now_ms;
  events = (add_all fsm.events rec.events).1;
}

-- `sm_fsm_reset`, and the zero-initialised machine
abbrev pub reset : Fsm
reset = record {
  active = false;
  start_ts_ms = pos 0;
  end_ts_ms = pos 0;
  start_offset = 0;
  total_length = 0;
  expected_seq = 0;
  expected_offset = 0;
  last_chunk_wall_ms = pos 0;
  events = no_events;
}

-- What a call leaves: the action it returns, the machine, and the clip written through `out`.
pub record Outcome : Type 0 where
  pub action : Action
  pub fsm : Fsm
  pub out : ClipRecord

-- `sm_fsm_process_record`
unfoldable pub process_record : Fsm → MetaRecord → ℤ → ℤ → ClipRecord → Outcome
unfolding ◌-ℤ◌
process_record fsm rec clip_ms now_ms out =
    if not rec.valid
    then record { action = nothing; fsm = fsm; out = out }
    else if not fsm.active
    then record { action = nothing; fsm = start_clip rec now_ms; out = out }
    else if ltb rec.seq fsm.expected_seq
    then record { action = reject_late; fsm = fsm; out = out }
    else if ltb fsm.expected_seq rec.seq || not (rec.offset == fsm.expected_offset)
    then record { action = emit_partial; fsm = start_clip rec now_ms; out = snapshot_clip fsm }
    else if leb_ℤ clip_ms (rec.ts_ms -ℤ fsm.start_ts_ms)
    then record { action = emit_complete; fsm = start_clip rec now_ms; out = snapshot_clip fsm }
    else record { action = nothing; fsm = append_record fsm rec now_ms; out = out }

-- `sm_fsm_check_idle`
unfoldable pub check_idle : Fsm → ℤ → ℤ → ClipRecord → Outcome
unfolding ◌-ℤ◌
check_idle fsm idle_ms now_ms out =
    if not fsm.active
    then record { action = nothing; fsm = fsm; out = out }
    else if ltb_ℤ (now_ms -ℤ fsm.last_chunk_wall_ms) idle_ms
    then record { action = nothing; fsm = fsm; out = out }
    else record { action = emit_partial; fsm = reset; out = snapshot_clip fsm }

-- `sm_fsm_flush_final`
unfoldable pub flush_final : Fsm → ClipRecord → Outcome
flush_final fsm out =
    if not fsm.active
    then record { action = nothing; fsm = fsm; out = out }
    else record { action = emit_complete; fsm = reset; out = snapshot_clip fsm }
