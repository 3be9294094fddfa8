-- ===== src/StreamMerge/Loop/Inputs.antt =====
-- Sequences of inputs of the clip state machine as the loop of applets/stream_merge/stream_merge.c
-- makes them.
use stream_data_pipline.Prelude.{◌≡◌, refl, sym, ap, ◌∙◌, List, [], ◌∷◌, ◌++◌, arith, append_assoc}
use stream_data_pipline.Prelude.Int.{ℤ}
use stream_data_pipline.StreamMerge.Events.{no_events, add_all}
use stream_data_pipline.StreamMerge.Fsm.{
  MetaRecord, Fsm, process_record, check_idle, flush_final, start_clip, append_record,
  snapshot_clip,
}
use stream_data_pipline.StreamMerge.Fsm.Runs.{
  Input, meta, tick, finish, Emitted, run, step, emissions,
}

abbrev pub emitted_after : List Emitted → Fsm × List Emitted → Fsm × List Emitted
emitted_after es (f, fs) = (f, es ++ fs)

pub run-append :
    (clip_ms idle_ms : ℤ) (f : Fsm) (is js : List Input)
    → let (g, es) = run clip_ms idle_ms f is in
      run clip_ms idle_ms f (is ++ js) ≡ emitted_after es (run clip_ms idle_ms g js)
unfolding run
run-append clip_ms idle_ms f [] js = refl
run-append clip_ms idle_ms f (i ∷ is) js =
    let r = step clip_ms idle_ms f i in
    let (g, es) = run clip_ms idle_ms r.fsm is in
    ap (λ p. (p.0, emissions r.action r.out ++ p.1)) (run-append clip_ms idle_ms r.fsm is js)
    ∙ ap (λ l. ((run clip_ms idle_ms g js).0, l))
        (sym (append_assoc (emissions r.action r.out) es (run clip_ms idle_ms g js).1))

-- Records without events, as the reader gives them.
abbrev pub IsPlain : Input → Type 0
IsPlain (meta rec now_ms) = rec.events ≡ no_events
IsPlain (tick now_ms) = Unit
IsPlain finish = Unit

pub step-IsPlain :
    (clip_ms idle_ms : ℤ) (f : Fsm) (i : Input)
    → f.events ≡ no_events
    → IsPlain i
    → let r = step clip_ms idle_ms f i in (r.fsm.events ≡ no_events) × (r.out.events ≡ no_events)
unfolding step process_record check_idle flush_final start_clip append_record snapshot_clip add_all
step-IsPlain clip_ms idle_ms f (meta rec now_ms) p q = (ground arith, ground arith)
step-IsPlain clip_ms idle_ms f (tick now_ms) p q = (ground arith, ground arith)
step-IsPlain clip_ms idle_ms f finish p q = (ground arith, ground arith)

-- The records that an input hands over.
abbrev pub metas : List Input → List MetaRecord
metas [] = []
metas (meta rec now_ms ∷ is) = rec ∷ metas is
metas (tick now_ms ∷ is) = metas is
metas (finish ∷ is) = metas is

pub metas-append : (is js : List Input) → metas (is ++ js) ≡ metas is ++ metas js
metas-append [] js = refl
metas-append (meta rec now_ms ∷ is) js = ap (λ l. rec ∷ l) (metas-append is js)
metas-append (tick now_ms ∷ is) js = metas-append is js
metas-append (finish ∷ is) js = metas-append is js

-- Records and idle checks only.
abbrev pub NoFlush : List Input → Type 0
NoFlush [] = Unit
NoFlush (meta rec now_ms ∷ is) = NoFlush is
NoFlush (tick now_ms ∷ is) = NoFlush is
NoFlush (finish ∷ is) = ⊥

pub NoFlush-append : (is js : List Input) → NoFlush is → NoFlush js → NoFlush (is ++ js)
NoFlush-append [] js a b = b
NoFlush-append (meta rec now_ms ∷ is) js a b = NoFlush-append is js a b
NoFlush-append (tick now_ms ∷ is) js a b = NoFlush-append is js a b
NoFlush-append (finish ∷ is) js a b = absurd a
