-- ===== src/StreamMerge/Loop/Reached.antt =====
-- The state that the loop of applets/stream_merge/stream_merge.c has reached, as a run of the clip
-- state machine on the records of the complete lines so far and the idle checks between them.
use mathlib.Core.Path.{subst}
use stream_data_pipline.Buffer.{size_max}
use stream_data_pipline.Prelude.{
  not, ◌<◌, ◌≡◌, refl, sym, ap, ◌∙◌, Bool, true, false, ◌&&◌, Option, none, some, List, [], ◌∷◌,
  ◌++◌, arith, length, append_assoc, append-nil, if◌then◌else◌, Bool-cases, inl, inr,
}
use stream_data_pipline.Prelude.Bytes.{Bytes, codes, str_eq}
use stream_data_pipline.Paths.{slash}
use stream_data_pipline.Watch.{c_string}
use stream_data_pipline.StreamMerge.Events.{EventSet, no_events}
use stream_data_pipline.StreamMerge.Events.Json.{events_text}
use stream_data_pipline.StreamMerge.Fsm.{
  MetaRecord, ClipRecord, Action, nothing, reject_late, emit_complete, emit_partial, reset,
}
use stream_data_pipline.StreamMerge.Fsm.Runs.{Input, meta, Emitted, run, step, emissions, emission}
use stream_data_pipline.StreamMerge.Output.{Env, clip_name, handle_action, emit_clip, and_then}
use stream_data_pipline.StreamMerge.Output.Lines.{
  Ready, clip_result, IsShort, clip_line, clip_path_fits, emit_clip-clip_result,
}
use stream_data_pipline.StreamMerge.Reader.{parse_line, parse_line-plain}
use stream_data_pipline.StreamMerge.Drain.{Machine, settle, take_record, take_line, clock_read}
use stream_data_pipline.StreamMerge.Drain.Lines.{feed}
use stream_data_pipline.StreamMerge.Loop.Inputs.{
  emitted_after, run-append, IsPlain, step-IsPlain, metas, metas-append, NoFlush, NoFlush-append,
}

-- A call that went well.
abbrev well : {S : Type 0} → S → Bool × S
well s = (true, s)

abbrev pub wanted : Option MetaRecord → List MetaRecord
wanted none = []
wanted (some rec) = if rec.valid && str_eq rec.kind (codes "data") then rec ∷ [] else []

module _ {I D : Type 0} (e : Env I D) where
  -- The records of kind "data" among the lines of a text; an empty line and one that cannot be read
  -- have none.
  abbrev pub line_records : List Bytes → List MetaRecord
  line_records [] = []
  line_records ([] ∷ lines) = line_records lines
  line_records ((x ∷ line) ∷ lines) =
      wanted (parse_line e.cjson e.double (c_string (x ∷ line))) ++ line_records lines

module _ {I D : Type 0} (e : Env I D) (quoted : Bytes → Bytes) where
  -- The text that is printed for a sequence of clips.
  abbrev pub clip_lines : List Emitted → Bytes
  clip_lines [] = []
  clip_lines (x ∷ es) =
      clip_line quoted e.session (e.src ++ slash ∷ clip_name e.session x.clip.start_ts_ms) x.clip
        x.complete
      ++ clip_lines es

  clip_lines-append :
      (es fs : List Emitted) → clip_lines (es ++ fs) ≡ clip_lines es ++ clip_lines fs
  clip_lines-append [] fs = refl
  clip_lines-append (x ∷ es) fs =
      let l =
        clip_line quoted e.session (e.src ++ slash ∷ clip_name e.session x.clip.start_ts_ms) x.clip
          x.complete in
      ap (λ t. l ++ t) (clip_lines-append es fs)
      ∙ sym (append_assoc l (clip_lines es) (clip_lines fs))

  -- The machine has made the inputs `is` since it was new, and printed what they emitted.
  pub record Reached (is : List Input) (k : Machine) : Type 0 where
    pub fsm : k.fsm ≡ (run e.clip_ms e.idle_ms reset is).0
    pub printed : k.printed ≡ clip_lines (run e.clip_ms e.idle_ms reset is).1
    pub plain : k.fsm.events ≡ no_events

  -- A part of the loop that went well, having handed over these records.
  pub record Fed (is : List Input) (recs : List MetaRecord) (q : Bool × Machine) : Type 0 where
    pub done : q.0 ≡ true
    pub inputs : List Input
    pub reached : Reached (is ++ inputs) q.1
    pub same : metas inputs ≡ recs
    pub unflushed : NoFlush inputs

  pub clock_read-Reached :
      (is : List Input) (k : Machine) → Reached is k → Reached is (clock_read k)
  clock_read-Reached is k r = record { fsm = r.fsm; printed = r.printed; plain = r.plain }

  nothing-Fed : (is : List Input) (k : Machine) → Reached is k → Fed is [] (true, k)
  nothing-Fed is k r = record {
    done = refl;
    inputs = [];
    reached = subst (λ (l : List Input). Reached l k) (sym (append-nil is)) r;
    same = refl;
    unflushed = tt;
  }

  module _ (ready : Ready e quoted) (short : IsShort e) where
    emission_if :
        (a : Bool) (x : Emitted) (out : Bytes)
        → (if a then well (out ++ clip_lines (x ∷ [])) else well out)
          ≡ well (out ++ clip_lines (if not a then [] else x ∷ []))
    emission_if true x out = refl
    emission_if false x out = ap (well {S = Bytes}) (sym (append-nil out))

    emit_clip-emission :
        (clip : ClipRecord) (complete : Bool) (out : Bytes)
        → clip.events ≡ no_events
        → emit_clip e clip complete out ≡ (true, out ++ clip_lines (emission clip complete))
    unfolding emission
    emit_clip-emission clip complete out p =
        let text =
          clip_line quoted e.session (e.src ++ slash ∷ clip_name e.session clip.start_ts_ms) clip
            complete in
        emit_clip-clip_result e quoted ready clip complete out
          (subst (λ (s : EventSet). length (events_text quoted s) < size_max) (sym p) (omega arith))
        ∙ ap (λ p. if clip.active then clip_result e quoted p clip complete out else (true, out))
            (clip_path_fits e clip.start_ts_ms short)
        ∙ ap (λ t. if clip.active then well (out ++ t) else well out) (sym (append-nil text))
        ∙ emission_if clip.active (record { clip = clip; complete = complete }) out

    handle_action-emissions :
        (action : Action) (clip : ClipRecord) (out : Bytes)
        → clip.events ≡ no_events
        → handle_action e action clip out ≡ (true, out ++ clip_lines (emissions action clip))
    unfolding handle_action emissions
    handle_action-emissions emit_complete clip out p = emit_clip-emission clip true out p
    handle_action-emissions emit_partial clip out p = emit_clip-emission clip false out p
    handle_action-emissions reject_late clip out p = ap (well {S = Bytes}) (sym (append-nil out))
    handle_action-emissions nothing clip out p = ap (well {S = Bytes}) (sym (append-nil out))

    -- One call of the state machine with its action handled is one more input.
    pub settle-Reached :
        (is : List Input) (i : Input) (k : Machine)
        → Reached is k
        → IsPlain i
        → let q = settle e (step e.clip_ms e.idle_ms k.fsm i) k in
          (q.0 ≡ true) × Reached (is ++ i ∷ []) q.1
    unfolding settle run
    settle-Reached is i k r p =
        let s = step e.clip_ms e.idle_ms k.fsm i in
        let (plain, out_plain) = step-IsPlain e.clip_ms e.idle_ms k.fsm i r.plain p in
        let h = handle_action-emissions s.action s.out k.printed out_plain in
        let k' : Machine = record {
          fsm = s.fsm;
          printed = k.printed ++ clip_lines (emissions s.action s.out);
          readings = k.readings;
        } in
        let same : settle e s k ≡ well k' =
          ap (λ p. (p.0, record { fsm = s.fsm; printed = p.1; readings = k.readings })) h in
        let es = (run e.clip_ms e.idle_ms reset is).1 in
        let em = emissions s.action s.out in
        let whole : run e.clip_ms e.idle_ms reset (is ++ i ∷ []) ≡ (s.fsm, es ++ (em ++ [])) =
          run-append e.clip_ms e.idle_ms reset is (i ∷ [])
          ∙ ap (λ f. emitted_after es (run e.clip_ms e.idle_ms f (i ∷ []))) (sym r.fsm) in
        subst (λ (q : Bool × Machine). (q.0 ≡ true) × Reached (is ++ i ∷ []) q.1) (sym same)
          (
            refl,
            record {
              fsm = sym (ap (λ p. p.0) whole);
              printed =
                  ap (λ (t : Bytes). t ++ clip_lines em) r.printed
                  ∙ sym (clip_lines-append es em)
                  ∙ ap (λ l. clip_lines (es ++ l)) (sym (append-nil em))
                  ∙ sym (ap (λ p. clip_lines p.1) whole);
              plain = plain;
            },
          )

    take_record-Fed :
        (is : List Input) (k : Machine) (o : Option MetaRecord)
        → Reached is k
        → ((rec : MetaRecord) → o ≡ some rec → rec.events ≡ no_events)
        → Fed is (wanted o) (take_record e o k)
    unfolding take_record step
    take_record-Fed is k none r p = nothing-Fed is k r
    take_record-Fed is k (some rec) r p =
        elim (Bool-cases (rec.valid && str_eq rec.kind (codes "data"))) [
          | inl t ↦
              let i = meta rec (e.clock k.readings) in
              let (done, reached) =
                settle-Reached is i (clock_read k) (clock_read-Reached is k r) (p rec refl) in
              rw t (record {
                done = done;
                inputs = i ∷ [];
                reached = reached;
                same = refl;
                unflushed = tt;
              })
          | inr f ↦ rw f (nothing-Fed is k r)
        ]

    -- The work on one line.
    take_line-Fed :
        (is : List Input) (line : Bytes) (k : Machine)
        → Reached is k
        → Fed is (line_records e (line ∷ [])) (take_line e line k)
    unfolding take_line
    take_line-Fed is [] k r = nothing-Fed is k r
    take_line-Fed is (x ∷ line) k r =
        subst (λ rs. Fed is rs (take_line e (x ∷ line) k))
          (sym (append-nil (wanted (parse_line e.cjson e.double (c_string (x ∷ line))))))
          (take_record-Fed is k (parse_line e.cjson e.double (c_string (x ∷ line))) r
            (λ rec h. parse_line-plain e.cjson e.double (c_string (x ∷ line)) rec h))

    -- One part behind another.
    then-Fed :
        (is : List Input) (recs more : List MetaRecord) (q : Bool × Machine)
        (next : Machine → Bool × Machine)
        → Fed is recs q
        → ((js : List Input) (k : Machine) → Reached js k → Fed js more (next k))
        → Fed is (recs ++ more) (and_then q next)
    then-Fed is recs more (true, k) next f go =
        let n = go (is ++ f.inputs) k f.reached in
        record {
          done = n.done;
          inputs = f.inputs ++ n.inputs;
          reached =
              subst (λ (l : List Input). Reached l (next k).1) (append_assoc is f.inputs n.inputs)
                n.reached;
          same =
              metas-append f.inputs n.inputs
              ∙ ap (λ l. l ++ metas n.inputs) f.same
              ∙ ap (λ l. recs ++ l) n.same;
          unflushed = NoFlush-append f.inputs n.inputs f.unflushed n.unflushed;
        }
    then-Fed is recs more (false, k) next f go = let d = f.done in cc

    line_records-first :
        (line : Bytes) (lines : List Bytes)
        → line_records e (line ∷ lines) ≡ line_records e (line ∷ []) ++ line_records e lines
    line_records-first [] lines = refl
    line_records-first (x ∷ line) lines =
        ap (λ l. l ++ line_records e lines)
          (sym (append-nil (wanted (parse_line e.cjson e.double (c_string (x ∷ line))))))

    pub feed-Fed :
        (lines : List Bytes) (is : List Input) (k : Machine)
        → Reached is k
        → Fed is (line_records e lines) (feed e lines k)
    unfolding feed
    feed-Fed [] is k r = nothing-Fed is k r
    feed-Fed (line ∷ lines) is k r =
        subst (λ rs. Fed is rs (feed e (line ∷ lines) k)) (sym (line_records-first line lines))
          (then-Fed is (line_records e (line ∷ [])) (line_records e lines) (take_line e line k)
            (feed e lines) (take_line-Fed is line k r) (feed-Fed lines))
