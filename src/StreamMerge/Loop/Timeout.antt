-- ===== src/StreamMerge/Loop/Timeout.antt =====
-- How long the main loop of applets/stream_merge/stream_merge.c waits.
use stream_data_pipline.Prelude.{◌≢◌, ◌≡◌, arith}
use stream_data_pipline.Prelude.Int.{ℤ, pos, ◌+ℤ◌, ◌-ℤ◌, ◌≤ℤ◌}
use stream_data_pipline.StreamMerge.Fsm.{Fsm, emit_partial, check_idle}
use stream_data_pipline.StreamMerge.Fsm.Runs.{zero_clip}
use stream_data_pipline.StreamMerge.Loop.{poll_timeout}

-- The loop asks `poll` for at most a second and never for a negative time, which would be for ever;
-- and if it waits for less than a second, the idle check emits the clip once that time is over.
pub poll_timeout_bounds :
    (fsm : Fsm) (idle_ms now : ℤ)
    → let t = poll_timeout fsm idle_ms now in
      (pos 0 ≤ℤ t)
      × (t ≤ℤ pos 1000)
      × (t ≢ pos 1000 → (check_idle fsm idle_ms (now +ℤ t) zero_clip).action ≡ emit_partial)
unfolding poll_timeout check_idle ◌-ℤ◌ ◌+ℤ◌
poll_timeout_bounds fsm idle_ms now = (ground arith, ground arith, λ h. ground arith)
