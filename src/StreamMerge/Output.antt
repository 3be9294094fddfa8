-- ===== src/StreamMerge/Output.antt =====
-- applets/stream_merge/stream_merge.c: `emit_clip` and `handle_action`, which print the clips. What
-- stdio does with the standard output is the parameter `Stdout`; log messages leave no trace.
pub mod Lines
use stream_data_pipline.Prelude.{
  ℕ, ◌-◌, ◌/◌, ◌+◌, Bool, true, false, not, Option, none, some, [], ◌∷◌, ◌++◌, ltb, ◌==◌, length,
  if◌then◌else◌,
}
use stream_data_pipline.Prelude.Bytes.{Bytes, codes}
use stream_data_pipline.Prelude.Decimal.{print_ℕ, print_long}
use stream_data_pipline.Prelude.Int.{ℤ, pos, negsuc}
use stream_data_pipline.Buffer.{
  Buffer, Status, ok, einval, eio, eoverflow, enomem, Allocator, empty,
}
use stream_data_pipline.Buffer.Steps.{printed}
use stream_data_pipline.Json.{Cjson}
use stream_data_pipline.Json.Numbers.{Double}
use stream_data_pipline.Paths.{lp_build_artifact_path}
use stream_data_pipline.StreamMerge.Events.{EventSet}
use stream_data_pipline.StreamMerge.Events.Json.{append_json}
use stream_data_pipline.StreamMerge.Fsm.{
  ClipRecord, Action, nothing, reject_late, emit_complete, emit_partial,
}

-- stdio on the standard output, from what was printed so far: whether the call went well, and what
-- is printed behind it.
pub record Stdout : Type 0 where
  pub print : Bytes → Bytes → Bool × Bytes
  pub flush : Bytes → Bool

-- What the functions of the applet are given.
pub record Env (I D : Type 0) : Type 0 where
  pub session : Bytes
  pub src : Bytes
  pub clip_ms : ℤ
  pub idle_ms : ℤ
  pub stdout : Stdout
  pub alloc : Allocator
  pub cjson : Cjson I D
  pub double : Double D
  -- the readings of `pipeline_get_monotonic_time_ms`, first to last
  pub clock : ℕ → ℤ

-- PATH_MAX
abbrev pub path_max : ℕ
path_max = 4096

abbrev pub negated : ℕ → ℤ
negated n = if n == 0 then pos 0 else negsuc (n - 1)

-- `start_ts_ms / 1000`, as C divides: towards 0.
unfoldable pub ts_sec : ℤ → ℤ
ts_sec (pos n) = pos (n / 1000)
ts_sec (negsuc n) = negated ((n + 1) / 1000)

abbrev pub clip_name : Bytes → ℤ → Bytes
clip_name session ts_ms = session ++ (b'_' ∷ (print_long (ts_sec ts_ms) ++ codes ".bin"))

-- The file name and the path that `emit_clip` prints, if both fit their buffers.
unfoldable pub clip_path : Bytes → Bytes → ℤ → Option Bytes
clip_path session src ts_ms =
    let name = clip_name session ts_ms in
    if ltb (length name) path_max then lp_build_artifact_path path_max src name else none

-- The first `printf` of `emit_clip`.
unfoldable pub clip_head : Bytes → Bytes → ClipRecord → Bool → Bytes
clip_head session path clip complete =
    codes "{\"type\":\"clip\",\"session_id\":\""
    ++ (session
        ++ (codes "\",\"ts\":"
            ++ (print_long (ts_sec clip.start_ts_ms)
                ++ (codes ",\"path\":\""
                    ++ (path
                        ++ (codes "\",\"offset\":"
                            ++ (print_ℕ clip.start_offset
                                ++ (codes ",\"length\":"
                                    ++ (print_ℕ clip.total_length
                                        ++ (codes ",\"complete\":"
                                            ++ (if complete
                                                then codes "true"
                                                else codes "false")))))))))))

-- One call behind another that went well.
abbrev pub and_then : {S : Type 0} → Bool × S → (S → Bool × S) → Bool × S
and_then (true, s) next = next s
and_then (false, s) next = (false, s)

module _ {I D : Type 0} (e : Env I D) where
  abbrev pub print_events : Option Bytes → Bytes → Bool × Bytes
  print_events none out = (false, out)
  print_events (some text) out = e.stdout.print out (codes ",\"events\":" ++ text)

  -- The events, if the clip has any.
  unfoldable pub emit_events : EventSet → Bytes → Bool × Bytes
  emit_events [] out = (true, out)
  emit_events (tag ∷ set) out =
      print_events (printed (append_json e.cjson e.alloc (tag ∷ set) empty)) out

  abbrev pub flush_all : Bytes → Bool × Bytes
  flush_all out = (e.stdout.flush out, out)

  abbrev pub close_line : Bytes → Bool × Bytes
  close_line out = and_then (e.stdout.print out (b'}' ∷ 10 ∷ [])) flush_all

  abbrev pub finish_clip : EventSet → Bytes → Bool × Bytes
  finish_clip set out = and_then (emit_events set out) close_line

  abbrev pub emit_at : Option Bytes → ClipRecord → Bool → Bytes → Bool × Bytes
  emit_at none clip complete out = (false, out)
  emit_at (some path) clip complete out =
      and_then (e.stdout.print out (clip_head e.session path clip complete))
        (finish_clip clip.events)

  -- `emit_clip`: whether it returned 0, and what is printed.
  unfoldable pub emit_clip : ClipRecord → Bool → Bytes → Bool × Bytes
  unfolding emit_events
  emit_clip clip complete out =
      let r = emit_at (clip_path e.session e.src clip.start_ts_ms) clip complete out in
      if not clip.active then (true, out) else r

  -- `handle_action`
  unfoldable pub handle_action : Action → ClipRecord → Bytes → Bool × Bytes
  unfolding emit_clip
  handle_action emit_complete clip out = emit_clip clip true out
  handle_action emit_partial clip out = emit_clip clip false out
  handle_action reject_late clip out = (true, out)
  handle_action nothing clip out = (true, out)
