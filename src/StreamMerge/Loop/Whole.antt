-- ===== src/StreamMerge/Loop/Whole.antt =====
-- Whole runs of applets/stream_merge/stream_merge.c from the opened metadata file to the exit code:
-- what is printed depends only on the text of the file and on when the clips were found idle.
use mathlib.Core.Path.{subst}
use stream_data_pipline.Prelude.{
  ℕ, ◌+◌, ◌<◌, ◌≡◌, refl, sym, Bool, true, false, List, [], ◌∷◌, ◌++◌, arith, length, length-append,
  append_assoc, append-nil,
}
use stream_data_pipline.Prelude.Bytes.{Bytes}
use stream_data_pipline.Buffer.{Buffer, size_max}
use stream_data_pipline.Watch.{Answer}
use stream_data_pipline.StreamMerge.Fsm.{reset, flush_final}
use stream_data_pipline.StreamMerge.Fsm.Runs.{Input, finish, step, run, zero_clip}
use stream_data_pipline.StreamMerge.Fsm.Sessions.{session}
use stream_data_pipline.StreamMerge.Output.{Env}
use stream_data_pipline.StreamMerge.Output.Lines.{Ready, IsShort}
use stream_data_pipline.StreamMerge.Drain.{Machine, settle, drain_meta}
use stream_data_pipline.StreamMerge.Drain.Cut.{cut}
use stream_data_pipline.StreamMerge.Drain.Feed.{read_text, reads_well}
use stream_data_pipline.StreamMerge.Loop.{
  Turn, Next, go, stop, Loop, left, stopped, waiting, Run, exits, waits, turn_step, merge_loop,
  loop_on, flushed, last_clip, behind_loop, behind_first,
}
use stream_data_pipline.StreamMerge.Loop.Inputs.{metas, NoFlush}
use stream_data_pipline.StreamMerge.Loop.Reached.{Reached, settle-Reached, clip_lines, line_records}
use stream_data_pipline.StreamMerge.Loop.Stands.{
  Stands, Drains, GoesOn, IsCalm, polled_text, poll_answer, drain_meta-Stands, turn_step-GoesOn,
}

abbrev pub AreCalm : List Turn → Type 0
AreCalm [] = Unit
AreCalm (t ∷ turns) = IsCalm t × AreCalm turns

module _ {I D : Type 0} (e : Env I D) where
  abbrev text_on : Next → (Machine → Buffer → Bool → Bytes) → Bytes
  text_on (go k b saw) next = next k b saw
  text_on (stop k) next = []

  -- The text that the turns of the loop read.
  unfoldable pub loop_text : List Turn → Machine → Buffer → Bool → Bytes
  loop_text turns k b true = []
  loop_text [] k b false = []
  loop_text (t ∷ turns) k b false =
      polled_text t.chunks (poll_answer e t k)
      ++ text_on (turn_step e t k b false) (loop_text turns)

module _ {I D : Type 0} (e : Env I D) (quoted : Bytes → Bytes) where
  -- A loop that was left or still waits, with this text read.
  abbrev pub LoopStands : Bytes → Loop → Type 0
  LoopStands text (left k b) = Stands e quoted text k b
  LoopStands text (waiting k) = Unit
  LoopStands text (stopped k) = ⊥

  -- What is printed for this text: the clips of the records of its complete lines, with the idle
  -- checks that were made between them and the flush at the end.
  pub record Merged (text : Bytes) (k : Machine) : Type 0 where
    pub inputs : List Input
    pub same : metas inputs ≡ line_records e (cut text).0
    pub unflushed : NoFlush inputs
    pub printed :
        k.printed
        ≡ clip_lines e quoted (run e.clip_ms e.idle_ms reset (session e.clip_ms e.idle_ms inputs)).1

  -- A run that ends, ends with code 0, once the clips of the whole text are printed.
  abbrev pub RunMerged : Bytes → Run → Type 0
  RunMerged text (exits code k) = (code ≡ 0) × Merged text k
  RunMerged text (waits k) = Unit

  module _ (ready : Ready e quoted) (short : IsShort e) where
    loop_on-Stands :
        (text : Bytes) (turns : List Turn) (n : Next) (last : ℕ)
        → GoesOn e quoted text n
        → length text + length (text_on e n (loop_text e turns)) + last < size_max
        → ((k : Machine) (b : Buffer) (saw : Bool)
            → Stands e quoted text k b
            → length text + length (loop_text e turns k b saw) + last < size_max
            → LoopStands (text ++ loop_text e turns k b saw) (merge_loop e turns k b saw))
        → LoopStands (text ++ text_on e n (loop_text e turns)) (loop_on e n (merge_loop e turns))
    loop_on-Stands text turns (go k b saw) last g fits next = next k b saw g fits
    loop_on-Stands text turns (stop k) last g fits next = absurd g

    merge_loop-Stands :
        (turns : List Turn) (text : Bytes) (k : Machine) (b : Buffer) (saw : Bool) (last : ℕ)
        → Stands e quoted text k b
        → AreCalm turns
        → length text + length (loop_text e turns k b saw) + last < size_max
        → LoopStands (text ++ loop_text e turns k b saw) (merge_loop e turns k b saw)
    unfolding merge_loop loop_text
    merge_loop-Stands [] text k b true last s calm fits =
        subst (λ (u : Bytes). Stands e quoted u k b) (sym (append-nil text)) s
    merge_loop-Stands (t ∷ turns) text k b true last s calm fits =
        subst (λ (u : Bytes). Stands e quoted u k b) (sym (append-nil text)) s
    merge_loop-Stands [] text k b false last s calm fits = tt
    merge_loop-Stands (t ∷ turns) text k b false last s calm fits =
        let now = polled_text t.chunks (poll_answer e t k) in
        let n = turn_step e t k b false in
        let later = text_on e n (loop_text e turns) in
        let l = length-append now later in
        let l' = length-append text now in
        subst (λ (u : Bytes). LoopStands u (loop_on e n (merge_loop e turns)))
          (append_assoc text now later)
          (loop_on-Stands (text ++ now) turns n last
            (turn_step-GoesOn e quoted ready short t text k b false s calm.0 (omega (arith, l)))
            (omega (arith, l, l'))
            (λ k' b' saw' s' fits'.
              merge_loop-Stands turns (text ++ now) k' b' saw' last s' calm.1 fits'))

    flushed-Merged :
        (text : Bytes) (is : List Input) (q : Bool × Machine)
        → metas is ≡ line_records e (cut text).0
        → NoFlush is
        → (q.0 ≡ true) × Reached e quoted (is ++ finish ∷ []) q.1
        → RunMerged text (flushed e q)
    flushed-Merged text is (true, k) same un (done, reached) =
        (refl, record { inputs = is; same = same; unflushed = un; printed = reached.printed })
    flushed-Merged text is (false, k) same un (done, reached) = cc

    last_clip-Merged :
        (text : Bytes) (r : Bool × Machine × Buffer)
        → Drains e quoted text r
        → RunMerged text (last_clip e r)
    unfolding step
    last_clip-Merged text (true, k, b) d =
        let s = d.stands in
        flushed-Merged text s.inputs (settle e (flush_final k.fsm zero_clip) k) s.same s.unflushed
          (settle-Reached e quoted ready short s.inputs finish k s.reached tt)
    last_clip-Merged text (false, k, b) d = let x = d.done in cc

    behind_loop-Merged :
        (text : Bytes) (last : List Answer) (l : Loop)
        → LoopStands text l
        → reads_well last ≡ true
        → length text + length (read_text last) < size_max
        → RunMerged (text ++ read_text last) (behind_loop e last l)
    behind_loop-Merged text last (left k b) s w fits =
        last_clip-Merged (text ++ read_text last) (drain_meta e last k b)
          (drain_meta-Stands e quoted ready short last text k b s w fits)
    behind_loop-Merged text last (waiting k) s w fits = tt
    behind_loop-Merged text last (stopped k) s w fits = absurd s

    pub behind_first-Merged :
        (text : Bytes) (turns : List Turn) (last : List Answer) (saw : Bool)
        (r : Bool × Machine × Buffer)
        → Drains e quoted text r
        → AreCalm turns
        → reads_well last ≡ true
        → length text + length (loop_text e turns r.1 r.2 saw) + length (read_text last) < size_max
        → RunMerged
            ((text ++ loop_text e turns r.1 r.2 saw) ++ read_text last)
            (behind_first e turns last saw r)
    behind_first-Merged text turns last saw (true, k, b) d calm w fits =
        let more = loop_text e turns k b saw in
        behind_loop-Merged (text ++ more) last (merge_loop e turns k b saw)
          (merge_loop-Stands turns text k b saw (length (read_text last)) d.stands calm fits) w
          (omega (arith, length-append text more))
    behind_first-Merged text turns last saw (false, k, b) d calm w fits = let x = d.done in cc
