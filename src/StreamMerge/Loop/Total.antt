-- ===== src/StreamMerge/Loop/Total.antt =====
-- A run of applets/stream_merge/stream_merge.c ends when the sentinel is there, and what it has
-- printed then.
use stream_data_pipline.Prelude.{
  ℕ, ◌<◌, ◌≡◌, refl, ap, Bool, true, false, some, List, [], ◌∷◌, ◌++◌, arith, length, length-append,
}
use stream_data_pipline.Prelude.Bytes.{Bytes}
use stream_data_pipline.Prelude.Int.{ℤ}
use stream_data_pipline.Paths.{lp_build_artifact_path, slash, pipeline_sentinel_name}
use stream_data_pipline.Buffer.{Buffer, size_max, empty}
use stream_data_pipline.Buffer.Steps.{empty-Holds}
use stream_data_pipline.Watch.{Answer}
use stream_data_pipline.StreamMerge.Fsm.{flush_final}
use stream_data_pipline.StreamMerge.Fsm.Runs.{run, zero_clip}
use stream_data_pipline.StreamMerge.Output.{Env, path_max}
use stream_data_pipline.StreamMerge.Output.Lines.{Ready, IsShort}
use stream_data_pipline.StreamMerge.Drain.{Machine, settle, drain_meta, idle_check}
use stream_data_pipline.StreamMerge.Drain.Cut.{cut}
use stream_data_pipline.StreamMerge.Drain.Feed.{read_text, reads_well}
use stream_data_pipline.StreamMerge.Loop.{
  polled, Turn, Next, go, stop, Loop, left, stopped, waiting, Run, exits, waits, sentinel_exists,
  turn_end, turn_step, behind_idle, merge_loop, loop_on, last_clip, flushed, behind_loop,
  behind_first, merge, start, poll_timeout, accessed,
}
use stream_data_pipline.StreamMerge.Loop.Stands.{Stands, drain_meta-Stands}
use stream_data_pipline.StreamMerge.Loop.Whole.{
  AreCalm, loop_text, RunMerged, Merged, behind_first-Merged,
}

-- The last turn is polled, and the sentinel is there.
abbrev pub Ends : List Turn → Type 0
Ends [] = ⊥
Ends (t ∷ []) =
    ((ms : ℤ) → (m : Bool) × (d : Bool) × (t.poll ms ≡ polled m d)) × (t.sentinel_there ≡ true)
Ends (t ∷ t' ∷ turns) = Ends (t' ∷ turns)

abbrev SawIt : Next → Type 0
SawIt (go k b saw) = saw ≡ true
SawIt (stop k) = Unit

abbrev IsOver : Loop → Type 0
IsOver (left k b) = Unit
IsOver (stopped k) = Unit
IsOver (waiting k) = ⊥

-- The run has ended.
abbrev pub HasExited : Run → Type 0
HasExited (exits code k) = Unit
HasExited (waits k) = ⊥

module _ {I D : Type 0} (e : Env I D) (short : IsShort e) where
  -- The path of the sentinel fits wherever those of the clips do.
  sentinel_exists-there : (there : Bool) → sentinel_exists e there ≡ there
  unfolding sentinel_exists lp_build_artifact_path
  sentinel_exists-there there =
      let l = length-append e.src (slash ∷ pipeline_sentinel_name) in
      let fits : lp_build_artifact_path path_max e.src pipeline_sentinel_name
          ≡ some (e.src ++ slash ∷ pipeline_sentinel_name) =
        ground (arith, l) in
      ap (accessed e there) fits

  idle-SawIt :
      (q : Bool × Machine) (b : Buffer) (saw : Bool) → saw ≡ true → SawIt (behind_idle e q b saw)
  idle-SawIt (true, k) b saw h = h
  idle-SawIt (false, k) b saw h = tt

  turn_end-SawIt :
      (t : Turn) (d : Bool) (r : Bool × Machine × Buffer) (saw : Bool)
      → t.sentinel_there ≡ true
      → SawIt (turn_end e t d r saw)
  turn_end-SawIt t d (true, k, b) saw h =
      idle-SawIt (idle_check e k) b _ (ground (arith, sentinel_exists-there t.sentinel_there))
  turn_end-SawIt t d (false, k, b) saw h = tt

  turn_step-SawIt :
      (t : Turn) (k : Machine) (b : Buffer) (saw : Bool)
      → Ends (t ∷ [])
      → SawIt (turn_step e t k b saw)
  unfolding turn_step
  turn_step-SawIt t k b saw (polls, h) =
      let (m, d, p) = polls (poll_timeout k.fsm e.idle_ms (e.clock k.readings)) in
      rw p (turn_end-SawIt t d _ saw h)

  left_at_once :
      (turns : List Turn) (k : Machine) (b : Buffer) (saw : Bool)
      → saw ≡ true
      → IsOver (merge_loop e turns k b saw)
  unfolding merge_loop
  left_at_once turns k b true h = tt
  left_at_once turns k b false h = cc

  last-IsOver : (n : Next) → SawIt n → IsOver (loop_on e n (merge_loop e []))
  last-IsOver (go k b saw) h = left_at_once [] k b saw h
  last-IsOver (stop k) h = tt

  loop_on-IsOver :
      (n : Next) (turns : List Turn)
      → ((k : Machine) (b : Buffer) (saw : Bool) → IsOver (merge_loop e turns k b saw))
      → IsOver (loop_on e n (merge_loop e turns))
  loop_on-IsOver (go k b saw) turns next = next k b saw
  loop_on-IsOver (stop k) turns next = tt

  merge_loop-IsOver :
      (turns : List Turn) (k : Machine) (b : Buffer) (saw : Bool)
      → Ends turns
      → IsOver (merge_loop e turns k b saw)
  unfolding merge_loop
  merge_loop-IsOver turns k b true ends = tt
  merge_loop-IsOver [] k b false ends = absurd ends
  merge_loop-IsOver (t ∷ []) k b false ends =
      last-IsOver (turn_step e t k b false) (turn_step-SawIt t k b false ends)
  merge_loop-IsOver (t ∷ t' ∷ turns) k b false ends =
      loop_on-IsOver (turn_step e t k b false) (t' ∷ turns)
        (λ k' b' saw'. merge_loop-IsOver (t' ∷ turns) k' b' saw' ends)

  flushed-HasExited : (q : Bool × Machine) → HasExited (flushed e q)
  flushed-HasExited (true, k) = tt
  flushed-HasExited (false, k) = tt

  last_clip-HasExited : (r : Bool × Machine × Buffer) → HasExited (last_clip e r)
  last_clip-HasExited (true, k, b) = flushed-HasExited (settle e (flush_final k.fsm zero_clip) k)
  last_clip-HasExited (false, k, b) = tt

  behind_loop-HasExited :
      (last : List Answer) (l : Loop) → IsOver l → HasExited (behind_loop e last l)
  behind_loop-HasExited last (left k b) o = last_clip-HasExited (drain_meta e last k b)
  behind_loop-HasExited last (stopped k) o = tt
  behind_loop-HasExited last (waiting k) o = absurd o

  behind_first-HasExited :
      (turns : List Turn) (last : List Answer) (saw : Bool) (r : Bool × Machine × Buffer)
      → Ends turns
      → HasExited (behind_first e turns last saw r)
  behind_first-HasExited turns last saw (true, k, b) ends =
      behind_loop-HasExited last (merge_loop e turns k b saw) (merge_loop-IsOver turns k b saw ends)
  behind_first-HasExited turns last saw (false, k, b) ends = tt

  -- A run ends, with whatever code, if the sentinel is seen at last.
  pub merge-HasExited :
      (first : List Answer) (turns : List Turn) (last : List Answer) (readings : ℕ) (saw : Bool)
      → Ends turns
      → HasExited (merge e first turns last readings saw)
  unfolding merge
  merge-HasExited first turns last readings saw ends =
      behind_first-HasExited turns last saw (drain_meta e first (start readings) empty) ends

module _ {I D : Type 0} (e : Env I D) where
  -- The text that a run reads in all.
  abbrev pub merge_text : List Answer → List Turn → List Answer → ℕ → Bool → Bytes
  merge_text first turns last readings saw =
      let r = drain_meta e first (start readings) empty in
      (read_text first ++ loop_text e turns r.1 r.2 saw) ++ read_text last

module _ {I D : Type 0} (e : Env I D) (quoted : Bytes → Bytes) where
  exited :
      (text : Bytes) (r : Run)
      → RunMerged e quoted text r
      → HasExited r
      → (k : Machine) × (r ≡ exits 0 k) × Merged e quoted text k
  exited text (exits code k) m h = (k, ap (λ c. exits c k) m.0, m.1)
  exited text (waits k) m h = absurd h

  new-Stands : (readings : ℕ) → Stands e quoted [] (start readings) empty
  unfolding run cut
  new-Stands readings = record {
    inputs = [];
    reached = record { fsm = refl; printed = refl; plain = refl };
    same = refl;
    unflushed = tt;
    held = empty-Holds e.alloc;
  }

  -- When no call of the operating system, of stdio or of an allocator fails, the names leave room for
  -- the paths, and the sentinel is there in the last turn, then the run exits with code 0, and what it
  -- has printed is, for the text that it read in all, in whatever pieces: one line for every clip that
  -- the state machine cuts out of the records of the complete lines, with some idle checks between
  -- them and the flush at the end.
  pub merge-Merged :
      Ready e quoted
      → IsShort e
      → (first : List Answer) (turns : List Turn) (last : List Answer) (readings : ℕ) (saw : Bool)
      → reads_well first ≡ true
      → AreCalm turns
      → reads_well last ≡ true
      → Ends turns
      → length (merge_text e first turns last readings saw) < size_max
      → (k : Machine) × (merge e first turns last readings saw ≡ exits 0 k)
        × Merged e quoted (merge_text e first turns last readings saw) k
  unfolding merge
  merge-Merged ready short first turns last readings saw wf calm wl ends fits =
      let r = drain_meta e first (start readings) empty in
      let more = loop_text e turns r.1 r.2 saw in
      let l = length-append (read_text first) more in
      let l' = length-append (read_text first ++ more) (read_text last) in
      exited (merge_text e first turns last readings saw) _
        (behind_first-Merged e quoted ready short (read_text first) turns last saw r
          (drain_meta-Stands e quoted ready short first [] (start readings) empty
            (new-Stands readings) wf (omega (arith, l, l')))
          calm wl (omega (arith, l, l')))
        (merge-HasExited e short first turns last readings saw ends)
