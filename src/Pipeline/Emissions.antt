-- ===== src/Pipeline/Emissions.antt =====
-- The clips that the state machine of applets/stream_merge/sm_fsm.c emits begin at the time of one of
-- its records, and have no events where the records have none; there are not more clips than records.
use stream_data_pipline.Prelude.{
  ℕ, ◌+◌, ◌≤◌, arith, length, length-append, ◌≡◌, refl, ap, ◌∙◌, Bool, true, false, not, List, [],
  ◌∷◌, ◌++◌, if◌then◌else◌,
}
use stream_data_pipline.Prelude.Int.{ℤ}
use stream_data_pipline.StreamMerge.Events.{no_events, add_all}
use stream_data_pipline.StreamMerge.Fsm.{
  MetaRecord, Fsm, Outcome, nothing, reject_late, emit_complete, emit_partial, process_record,
  check_idle, flush_final, start_clip, append_record, snapshot_clip, reset,
}
use stream_data_pipline.StreamMerge.Fsm.Runs.{
  Input, meta, tick, finish, Emitted, zero_clip, emission, emissions, step, run,
}
use stream_data_pipline.StreamMerge.Loop.Inputs.{metas, metas-append}

module _ (At : ℤ → Type 0) where
  -- Records at such times, without events.
  abbrev pub AllAt : List MetaRecord → Type 0
  AllAt [] = Unit
  AllAt (rec ∷ recs) = (At rec.ts_ms × (rec.events ≡ no_events)) × AllAt recs

  -- Clips that begin at such times, without events.
  abbrev pub AllBegin : List Emitted → Type 0
  AllBegin [] = Unit
  AllBegin (x ∷ es) = (At x.clip.start_ts_ms × (x.clip.events ≡ no_events)) × AllBegin es

  append-AllBegin : (es fs : List Emitted) → AllBegin es → AllBegin fs → AllBegin (es ++ fs)
  append-AllBegin [] fs a b = b
  append-AllBegin (x ∷ es) fs a b = (a.0, append-AllBegin es fs a.1 b)

  abbrev Begun : Fsm → Type 0
  Begun f = (f.active ≡ true → At f.start_ts_ms) × (f.events ≡ no_events)

  abbrev open_clips : Fsm → ℕ
  open_clips f = if f.active then 1 else 0

  -- An outcome behind `n` more records.
  record Goes (n : ℕ) (f : Fsm) (r : Outcome) : Type 0 where
    fsm : Begun r.fsm
    clips : AllBegin (emissions r.action r.out)
    few : length (emissions r.action r.out) + open_clips r.fsm ≤ n + open_clips f

  goes :
      {n : ℕ} {f : Fsm} {r : Outcome}
      → Begun r.fsm
      → AllBegin (emissions r.action r.out)
      → length (emissions r.action r.out) + open_clips r.fsm ≤ n + open_clips f
      → Goes n f r
  goes f c l = record { fsm = f; clips = c; few = l }

  snapshot_few :
      (f : Fsm) (complete : Bool) → length (emission (snapshot_clip f) complete) ≤ open_clips f
  unfolding emission snapshot_clip
  snapshot_few f complete = ground arith

  emitted_if :
      (a : Bool) (x : Emitted)
      → (a ≡ true → At x.clip.start_ts_ms)
      → x.clip.events ≡ no_events
      → AllBegin (if not a then [] else x ∷ [])
  emitted_if true x at plain = ((at refl, plain), tt)
  emitted_if false x at plain = tt

  snapshot-AllBegin :
      (f : Fsm) (complete : Bool) → Begun f → AllBegin (emission (snapshot_clip f) complete)
  unfolding emission snapshot_clip
  snapshot-AllBegin f complete b =
      emitted_if f.active (record { clip = snapshot_clip f; complete = complete }) b.0 b.1

  reset-Begun : Begun reset
  reset-Begun = (λ h. cc, refl)

  module _ (clip_ms idle_ms : ℤ) where
    -- The outcomes of a record, whatever the five tests say.
    record-Goes :
        (invalid inactive late gap over : Bool) (f : Fsm) (rec : MetaRecord) (now_ms : ℤ)
        → Begun f
        → At rec.ts_ms
        → rec.events ≡ no_events
        → Goes 1 f (
            if invalid
            then record { action = nothing; fsm = f; out = zero_clip }
            else if inactive
            then record { action = nothing; fsm = start_clip rec now_ms; out = zero_clip }
            else if late
            then record { action = reject_late; fsm = f; out = zero_clip }
            else if gap
            then record {
              action = emit_partial;
              fsm = start_clip rec now_ms;
              out = snapshot_clip f;
            }
            else if over
            then record {
              action = emit_complete;
              fsm = start_clip rec now_ms;
              out = snapshot_clip f;
            }
            else record { action = nothing; fsm = append_record f rec now_ms; out = zero_clip })
    unfolding start_clip append_record emissions add_all
    record-Goes true inactive late gap over f rec now_ms b at plain = goes b tt (omega arith)
    record-Goes false true late gap over f rec now_ms b at plain =
        goes (λ h. at, plain) tt (ground arith)
    record-Goes false false true gap over f rec now_ms b at plain = goes b tt (omega arith)
    record-Goes false false false true over f rec now_ms b at plain =
        goes (λ h. at, plain) (snapshot-AllBegin f false b) (omega (arith, snapshot_few f false))
    record-Goes false false false false true f rec now_ms b at plain =
        goes (λ h. at, plain) (snapshot-AllBegin f true b) (omega (arith, snapshot_few f true))
    record-Goes false false false false false f rec now_ms b at plain =
        let tags =
          ap (λ s. (add_all s rec.events).1) b.1 ∙ ap (λ s. (add_all no_events s).1) plain in
        goes (b.0, tags) tt (omega arith)

    idle-Goes :
        (inactive early : Bool) (f : Fsm)
        → Begun f
        → Goes 0 f (
            if inactive
            then record { action = nothing; fsm = f; out = zero_clip }
            else if early
            then record { action = nothing; fsm = f; out = zero_clip }
            else record { action = emit_partial; fsm = reset; out = snapshot_clip f })
    unfolding emissions
    idle-Goes true early f b = goes b tt (omega arith)
    idle-Goes false true f b = goes b tt (omega arith)
    idle-Goes false false f b =
        goes reset-Begun (snapshot-AllBegin f false b) (omega (arith, snapshot_few f false))

    final-Goes :
        (inactive : Bool) (f : Fsm)
        → Begun f
        → Goes 0 f (
            if inactive
            then record { action = nothing; fsm = f; out = zero_clip }
            else record { action = emit_complete; fsm = reset; out = snapshot_clip f })
    unfolding emissions
    final-Goes true f b = goes b tt (omega arith)
    final-Goes false f b =
        goes reset-Begun (snapshot-AllBegin f true b) (omega (arith, snapshot_few f true))

    step-Goes :
        (f : Fsm) (i : Input)
        → Begun f
        → AllAt (metas (i ∷ []))
        → Goes (length (metas (i ∷ []))) f (step clip_ms idle_ms f i)
    unfolding step process_record check_idle flush_final
    step-Goes f (meta rec now_ms) b at = record-Goes _ _ _ _ _ f rec now_ms b at.0.0 at.0.1
    step-Goes f (tick now_ms) b at = idle-Goes _ _ f b
    step-Goes f finish b at = final-Goes _ f b

    AllAt-split :
        (i : Input) (is : List Input)
        → AllAt (metas (i ∷ is))
        → AllAt (metas (i ∷ [])) × AllAt (metas is)
    AllAt-split (meta rec now_ms) is at = ((at.0, tt), at.1)
    AllAt-split (tick now_ms) is at = (tt, at)
    AllAt-split finish is at = (tt, at)

    run-AllBegin :
        (is : List Input) (f : Fsm)
        → Begun f
        → AllAt (metas is)
        → AllBegin (run clip_ms idle_ms f is).1
          × (length (run clip_ms idle_ms f is).1 ≤ length (metas is) + open_clips f)
    unfolding run
    run-AllBegin [] f b at = (tt, omega arith)
    run-AllBegin (i ∷ is) f b at =
        let (here, later) = AllAt-split i is at in
        let g = step-Goes f i b here in
        let r = step clip_ms idle_ms f i in
        let (begin, few) = run-AllBegin is r.fsm g.fsm later in
        let both = length-append (emissions r.action r.out) (run clip_ms idle_ms r.fsm is).1 in
        let all : length (metas (i ∷ is)) ≡ length (metas (i ∷ [])) + length (metas is) =
          ap (λ (l : List MetaRecord). length l) (metas-append (i ∷ []) is)
          ∙ length-append (metas (i ∷ [])) (metas is) in
        (
          append-AllBegin (emissions r.action r.out) _ g.clips begin,
          omega (arith, g.few, few, both, all),
        )

  -- What a machine that was new has emitted.
  pub new_run-AllBegin :
      (clip_ms idle_ms : ℤ) (is : List Input)
      → AllAt (metas is)
      → AllBegin (run clip_ms idle_ms reset is).1
        × (length (run clip_ms idle_ms reset is).1 ≤ length (metas is))
  new_run-AllBegin clip_ms idle_ms is at =
      let (begin, few) = run-AllBegin clip_ms idle_ms is reset reset-Begun at in
      (begin, omega (arith, few))
