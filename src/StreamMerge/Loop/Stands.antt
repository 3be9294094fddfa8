-- ===== src/StreamMerge/Loop/Stands.antt =====
-- What the parts of the loop of applets/stream_merge/stream_merge.c leave, by the text read so far.
use mathlib.Core.Path.{subst}
use stream_data_pipline.Prelude.{
  ◌+◌, ◌<◌, ◌≡◌, ◌≢◌, refl, sym, ap, ◌∙◌, Bool, true, false, List, [], ◌∷◌, ◌++◌, arith, length,
  append_assoc, append-nil, if◌then◌else◌,
}
use stream_data_pipline.Prelude.Bytes.{Bytes}
use stream_data_pipline.Prelude.Int.{ℤ}
use stream_data_pipline.Buffer.{Buffer, size_max}
use stream_data_pipline.Buffer.Steps.{Holds}
use stream_data_pipline.StreamMerge.Reader.{parse_line}
use stream_data_pipline.Watch.{c_string, Answer}
use stream_data_pipline.StreamMerge.Fsm.Runs.{Input, tick, step}
use stream_data_pipline.StreamMerge.Output.{Env}
use stream_data_pipline.StreamMerge.Output.Lines.{Ready, IsShort}
use stream_data_pipline.StreamMerge.Drain.{Machine, clock_read, drain_meta, idle_check}
use stream_data_pipline.StreamMerge.Drain.Cut.{length-cut, cut, cut-append}
use stream_data_pipline.StreamMerge.Drain.Feed.{read_text, reads_well}
use stream_data_pipline.StreamMerge.Drain.Lines.{drain_meta-Drained}
use stream_data_pipline.StreamMerge.Loop.{
  Poll, broken, signalled, polled, Turn, Next, go, stop, poll_timeout, turn_end, turn_on, turn_step,
  behind_idle,
}
use stream_data_pipline.StreamMerge.Loop.Inputs.{metas, metas-append, NoFlush, NoFlush-append}
use stream_data_pipline.StreamMerge.Loop.Reached.{
  wanted, Reached, Fed, line_records, feed-Fed, settle-Reached, clock_read-Reached,
}

-- The text that a turn reads, by what `poll` answers.
abbrev pub polled_text : List Answer → Poll → Bytes
polled_text chunks broken = []
polled_text chunks signalled = []
polled_text chunks (polled meta_ready dir_ready) = if meta_ready then read_text chunks else []

-- No error of `poll` or `read`.
pub record IsCalm (t : Turn) : Type 0 where
  pub polls : (ms : ℤ) → t.poll ms ≢ broken
  pub reads : reads_well t.chunks ≡ true

module _ {I D : Type 0} (e : Env I D) where
  -- What `poll` answers in a turn.
  abbrev pub poll_answer : Turn → Machine → Poll
  poll_answer t k = t.poll (poll_timeout k.fsm e.idle_ms (e.clock k.readings))

module _ {I D : Type 0} (e : Env I D) (quoted : Bytes → Bytes) where
  -- The loop has read this text: its complete lines are with the machine, the rest is in the buffer.
  pub record Stands (text : Bytes) (k : Machine) (b : Buffer) : Type 0 where
    pub inputs : List Input
    pub reached : Reached e quoted inputs k
    pub same : metas inputs ≡ line_records e (cut text).0
    pub unflushed : NoFlush inputs
    pub held : Holds (cut text).1 b

  pub record Drains (text : Bytes) (r : Bool × Machine × Buffer) : Type 0 where
    pub done : r.0 ≡ true
    pub stands : Stands text r.1 r.2

  line_records-append :
      (ls ms : List Bytes) → line_records e (ls ++ ms) ≡ line_records e ls ++ line_records e ms
  line_records-append [] ms = refl
  line_records-append ([] ∷ ls) ms = line_records-append ls ms
  line_records-append ((x ∷ l) ∷ ls) ms =
      let w = wanted (parse_line e.cjson e.double (c_string (x ∷ l))) in
      ap (λ r. w ++ r) (line_records-append ls ms)
      ∙ sym (append_assoc w (line_records e ls) (line_records e ms))

  module _ (ready : Ready e quoted) (short : IsShort e) where
    pub drain_meta-Stands :
        (answers : List Answer) (text : Bytes) (k : Machine) (b : Buffer)
        → Stands text k b
        → reads_well answers ≡ true
        → length text + length (read_text answers) < size_max
        → Drains (text ++ read_text answers) (drain_meta e answers k b)
    drain_meta-Stands answers text k b s w fits =
        let more = read_text answers in
        let c = cut-append text more in
        let d =
          (drain_meta-Drained e answers (cut text).1 k b ready.grants s.held
              (omega (arith, length-cut text))).0
            w in
        let f = feed-Fed e quoted ready short (cut ((cut text).1 ++ more)).0 s.inputs k s.reached in
        let r = drain_meta e answers k b in
        let f' : Fed e quoted s.inputs (line_records e (cut ((cut text).1 ++ more)).0) (r.0, r.1) =
          subst (λ q. Fed e quoted s.inputs (line_records e (cut ((cut text).1 ++ more)).0) q)
            (sym d.same) f in
        record {
          done = f'.done;
          stands = record {
            inputs = s.inputs ++ f'.inputs;
            reached = f'.reached;
            same =
                metas-append s.inputs f'.inputs
                ∙ ap (λ l. l ++ metas f'.inputs) s.same
                ∙ ap (λ l. line_records e (cut text).0 ++ l) f'.same
                ∙ sym (line_records-append (cut text).0 (cut ((cut text).1 ++ more)).0)
                ∙ ap (λ p. line_records e p.0) (sym c);
            unflushed = NoFlush-append s.inputs f'.inputs s.unflushed f'.unflushed;
            held = subst (λ (p : List Bytes × Bytes). Holds p.1 r.2) (sym c) (d.left f'.done);
          };
        }

    tick-Stands :
        (text : Bytes) (k : Machine) (b : Buffer)
        → Stands text k b
        → ((idle_check e k).0 ≡ true) × Stands text (idle_check e k).1 b
    unfolding idle_check step
    tick-Stands text k b s =
        let i = tick (e.clock k.readings) in
        let (done, reached) =
          settle-Reached e quoted ready short s.inputs i (clock_read k)
            (clock_read-Reached e quoted s.inputs k s.reached) tt in
        (
          done,
          record {
            inputs = s.inputs ++ i ∷ [];
            reached = reached;
            same = metas-append s.inputs (i ∷ []) ∙ append-nil (metas s.inputs) ∙ s.same;
            unflushed = NoFlush-append s.inputs (i ∷ []) s.unflushed tt;
            held = s.held;
          },
        )

    clock_read-Stands :
        (text : Bytes) (k : Machine) (b : Buffer) → Stands text k b → Stands text (clock_read k) b
    clock_read-Stands text k b s = record {
      inputs = s.inputs;
      reached = clock_read-Reached e quoted s.inputs k s.reached;
      same = s.same;
      unflushed = s.unflushed;
      held = s.held;
    }

  -- A turn after which the loop goes on, with this text read.
  abbrev pub GoesOn : Bytes → Next → Type 0
  GoesOn text (go k b saw) = Stands text k b
  GoesOn text (stop k) = ⊥

  module _ (ready : Ready e quoted) (short : IsShort e) where
    idle-GoesOn :
        (text : Bytes) (q : Bool × Machine) (b : Buffer) (saw : Bool)
        → (q.0 ≡ true) × Stands text q.1 b
        → GoesOn text (behind_idle e q b saw)
    idle-GoesOn text (true, k) b saw (done, s) = s
    idle-GoesOn text (false, k) b saw (done, s) = cc

    turn_end-GoesOn :
        (t : Turn) (d : Bool) (text : Bytes) (r : Bool × Machine × Buffer) (saw : Bool)
        → Drains text r
        → GoesOn text (turn_end e t d r saw)
    turn_end-GoesOn t d text (true, k, b) saw s =
        idle-GoesOn text (idle_check e k) b _ (tick-Stands ready short text k b s.stands)
    turn_end-GoesOn t d text (false, k, b) saw s = let x = s.done in cc

    turn_on-GoesOn :
        (t : Turn) (text : Bytes) (k : Machine) (b : Buffer) (saw : Bool) (p : Poll)
        → Stands text k b
        → reads_well t.chunks ≡ true
        → p ≢ broken
        → length text + length (polled_text t.chunks p) < size_max
        → GoesOn (text ++ polled_text t.chunks p) (turn_on e t k b saw p)
    turn_on-GoesOn t text k b saw broken s w ne fits = absurd (ne refl)
    turn_on-GoesOn t text k b saw signalled s w ne fits =
        subst (λ (u : Bytes). Stands u k b) (sym (append-nil text)) s
    turn_on-GoesOn t text k b saw (polled true d) s w ne fits =
        turn_end-GoesOn t d (text ++ read_text t.chunks) (drain_meta e t.chunks k b) saw
          (drain_meta-Stands ready short t.chunks text k b s w fits)
    turn_on-GoesOn t text k b saw (polled false d) s w ne fits =
        turn_end-GoesOn t d (text ++ []) (true, k, b) saw
          (record {
            done = refl;
            stands = subst (λ (u : Bytes). Stands u k b) (sym (append-nil text)) s;
          })

    -- A turn without an error reads its text and lets the loop go on.
    pub turn_step-GoesOn :
        (t : Turn) (text : Bytes) (k : Machine) (b : Buffer) (saw : Bool)
        → Stands text k b
        → IsCalm t
        → length text + length (polled_text t.chunks (poll_answer e t k)) < size_max
        → GoesOn (text ++ polled_text t.chunks (poll_answer e t k)) (turn_step e t k b saw)
    unfolding turn_step
    turn_step-GoesOn t text k b saw s calm fits =
        turn_on-GoesOn t text (clock_read k) b saw (poll_answer e t k)
          (clock_read-Stands ready short text k b s) calm.reads (calm.polls _) fits
