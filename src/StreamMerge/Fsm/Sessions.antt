-- ===== src/StreamMerge/Fsm/Sessions.antt =====
-- Whole sessions of stream_merge: what is emitted by the final flush, and the order of the chunks.
use mathlib.Core.Path.{subst}
use stream_data_pipline.Prelude.{
  ℕ, ◌+◌, ◌^◌, ◌≤◌, ◌<◌, ◌≡◌, refl, ap, sym, ◌∙◌, false, List, [], ◌∷◌, ◌++◌, arith, append-nil,
  if◌then◌else◌, none, some,
}
use stream_data_pipline.Prelude.Int.{ℤ}
use stream_data_pipline.StreamMerge.Fsm.{
  MetaRecord, Fsm, reset, process_record, flush_final, start_clip, append_record, snapshot_clip,
  nothing, check_idle,
}
use stream_data_pipline.StreamMerge.Fsm.Clips.{Group}
use stream_data_pipline.StreamMerge.Fsm.Runs.{Input, meta, tick, finish, step, run}
use stream_data_pipline.StreamMerge.Fsm.Cover.{
  AllCover, Holds, Pending, flat, pending_members, takes, taken, run-Progress,
}

module _ (clip_ms idle_ms : ℤ) where
  -- The inputs of a session, closed by the flush at its end.
  abbrev pub session : List Input → List Input
  session is = is ++ finish ∷ []

  run-session_inactive :
      (is : List Input) (f : Fsm) → (run clip_ms idle_ms f (session is)).0.active ≡ false
  unfolding run step flush_final
  run-session_inactive [] f = ground arith
  run-session_inactive (i ∷ is) f = run-session_inactive is (step clip_ms idle_ms f i).fsm

  nothing_pending :
      (p : Pending) (f : Fsm) → f.active ≡ false → Holds clip_ms p f → pending_members p ≡ []
  unfolding snapshot_clip
  nothing_pending none f a h = refl
  nothing_pending (some g) f a h = cc (h.covers.is_active)

  -- The clips of a whole session stand, each for a gapless group of records inside one window, for
  -- exactly the records that were taken, each once and in their order: none is lost or repeated.
  pub session_partition :
      (is : List Input)
      → (gs : List Group) × AllCover clip_ms gs (run clip_ms idle_ms reset (session is)).1
        × (flat gs ≡ taken clip_ms idle_ms reset (session is))
  session_partition is =
      let π = run-Progress clip_ms idle_ms (session is) none reset refl in
      let e = nothing_pending π.pending _ (run-session_inactive is reset) π.holds in
      (
        π.groups,
        π.covers,
        sym (π.partition ∙ ap (λ l. flat π.groups ++ l) e ∙ append-nil (flat π.groups)),
      )

  -- Records, whose sequence numbers are not the last one, and idle checks that find nothing.
  abbrev pub IsUndisturbed : Fsm → List Input → Type 0
  IsUndisturbed f [] = Unit
  IsUndisturbed f (meta rec now_ms ∷ is) =
      (rec.seq + 1 < 2 ^ 64) × IsUndisturbed (step clip_ms idle_ms f (meta rec now_ms)).fsm is
  IsUndisturbed f (tick now_ms ∷ is) =
      ((step clip_ms idle_ms f (tick now_ms)).action ≡ nothing)
      × IsUndisturbed (step clip_ms idle_ms f (tick now_ms)).fsm is
  IsUndisturbed f (finish ∷ is) = ⊥

  -- Every sequence number is at least `n`, and greater than those before it.
  abbrev pub Increasing : ℕ → List MetaRecord → Type 0
  Increasing n [] = Unit
  Increasing n (r ∷ rs) = (n ≤ r.seq) × Increasing (r.seq + 1) rs

  abbrev pub awaited : Fsm → ℕ
  awaited f = if f.active then f.expected_seq else 0

  takes-Increasing :
      (f : Fsm) (rec : MetaRecord) (now_ms : ℤ) (rs : List MetaRecord)
      → rec.seq + 1 < 2 ^ 64
      → Increasing (awaited (step clip_ms idle_ms f (meta rec now_ms)).fsm) rs
      → Increasing (awaited f) (takes clip_ms idle_ms f (meta rec now_ms) ++ rs)
  unfolding step takes process_record start_clip append_record
  takes-Increasing f rec now_ms rs fits h = ground arith

  -- An idle check that finds nothing changes nothing.
  tick_nothing :
      (f : Fsm) (now_ms : ℤ)
      → (step clip_ms idle_ms f (tick now_ms)).action ≡ nothing
      → awaited (step clip_ms idle_ms f (tick now_ms)).fsm ≡ awaited f
  unfolding step check_idle
  tick_nothing f now_ms h = ground arith

  -- As long as no idle check finds a time-out, there is no flush, and no sequence number is 2^64 - 1,
  -- the chunks that are taken come in strictly increasing order of their sequence numbers, from the one
  -- awaited on: none is taken twice.
  pub taken-Increasing :
      (is : List Input) (f : Fsm)
      → IsUndisturbed f is
      → Increasing (awaited f) (taken clip_ms idle_ms f is)
  unfolding taken takes
  taken-Increasing [] f o = tt
  taken-Increasing (meta rec now_ms ∷ is) f o =
      takes-Increasing f rec now_ms _ o.0
        (taken-Increasing is (step clip_ms idle_ms f (meta rec now_ms)).fsm o.1)
  taken-Increasing (tick now_ms ∷ is) f o =
      let f' = (step clip_ms idle_ms f (tick now_ms)).fsm in
      subst (λ n. Increasing n (taken clip_ms idle_ms f' is)) (tick_nothing f now_ms o.0)
        (taken-Increasing is f' o.1)
  taken-Increasing (finish ∷ is) f o = absurd o
