-- ===== src/StreamMerge/Fsm/Runs.antt =====
-- A session of stream_merge as the sequence of its calls of sm_fsm.c: records read from the
-- sidecar file, idle checks, and the final flush, with the clips that `emissions` emits.
use stream_data_pipline.Prelude.{Bool, true, false, not, List, [], ◌∷◌, ◌++◌, if◌then◌else◌}
use stream_data_pipline.Prelude.Int.{ℤ, pos}
use stream_data_pipline.StreamMerge.Events.{no_events}
use stream_data_pipline.StreamMerge.Fsm.{
  MetaRecord, ClipRecord, Fsm, Outcome, Action, nothing, reject_late, emit_complete, emit_partial,
  process_record, check_idle, flush_final,
}

-- What the main loop hands to the machine, each with its reading of the monotonic clock.
pub data Input : Type 0 where
  meta : MetaRecord → ℤ → Input
  tick : ℤ → Input
  finish : Input

-- `sm_clip_record_t clip = {0}`
abbrev pub zero_clip : ClipRecord
zero_clip = record {
  active = false;
  start_ts_ms = pos 0;
  end_ts_ms = pos 0;
  start_offset = 0;
  total_length = 0;
  events = no_events;
}

-- A clip printed to stdout, with its `complete` field.
pub record Emitted : Type 0 where
  pub clip : ClipRecord
  pub complete : Bool

-- `emission`, up to the text that it prints: an inactive clip prints nothing.
unfoldable pub emission : ClipRecord → Bool → List Emitted
emission clip complete =
    if not clip.active then [] else record { clip = clip; complete = complete } ∷ []

-- `emissions`
unfoldable pub emissions : Action → ClipRecord → List Emitted
unfolding emission
emissions emit_complete clip = emission clip true
emissions emit_partial clip = emission clip false
emissions reject_late clip = []
emissions nothing clip = []

module _ (clip_ms idle_ms : ℤ) where
  unfoldable pub step : Fsm → Input → Outcome
  step f (meta rec now_ms) = process_record f rec clip_ms now_ms zero_clip
  step f (tick now_ms) = check_idle f idle_ms now_ms zero_clip
  step f finish = flush_final f zero_clip

  -- The machine behind a sequence of inputs, and what was emitted.
  unfoldable pub run : Fsm → List Input → Fsm × List Emitted
  unfolding emissions
  run f [] = (f, [])
  run f (i ∷ is) =
      let r = step f i in let (f', es) = run r.fsm is in (f', emissions r.action r.out ++ es)
