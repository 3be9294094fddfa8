-- ===== src/Pipeline/Stored.antt =====
-- What the whole pipeline leaves in the database: from the lines of the metadata file that stream_merge
-- reads to the rows that clip_store appends.
use mathlib.Core.Path.{subst}
use stream_data_pipline.Prelude.{
  ℕ, ◌^◌, ◌≤◌, ◌<◌, ◌≡◌, refl, sym, ap, ◌∙◌, Bool, true, false, some, List, [], ◌∷◌, map, arith,
  append-nil, length, length-map,
}
use stream_data_pipline.Prelude.Bytes.{Bytes}
use stream_data_pipline.Prelude.Int.{ℤ}
use stream_data_pipline.Json.Numbers.{IsIeee}
use stream_data_pipline.Buffer.{size_max}
use stream_data_pipline.Watch.{Answer}
use stream_data_pipline.StreamMerge.Events.{no_events}
use stream_data_pipline.StreamMerge.Fsm.{MetaRecord, reset}
use stream_data_pipline.StreamMerge.Fsm.Runs.{Input, finish, Emitted, run}
use stream_data_pipline.StreamMerge.Fsm.Sessions.{session}
use stream_data_pipline.StreamMerge.Output.{Env}
use stream_data_pipline.StreamMerge.Output.Lines.{Ready}
use stream_data_pipline.StreamMerge.Drain.{Machine}
use stream_data_pipline.StreamMerge.Drain.Cut.{cut}
use stream_data_pipline.StreamMerge.Drain.Feed.{reads_well}
use stream_data_pipline.StreamMerge.Loop.{Turn, exits, merge}
use stream_data_pipline.StreamMerge.Loop.Inputs.{metas, metas-append, NoFlush}
use stream_data_pipline.StreamMerge.Loop.Reached.{line_records}
use stream_data_pipline.StreamMerge.Loop.Whole.{AreCalm}
use stream_data_pipline.StreamMerge.Loop.Total.{Ends, merge_text, merge-Merged}
use stream_data_pipline.LogParse.Main as LogMain
use stream_data_pipline.ClipStore.Load.{Platform}
use stream_data_pipline.ClipStore.Load.Laws.{latest}
use stream_data_pipline.ClipStore.Compact.{Directory}
use stream_data_pipline.ClipStore.Compact.Lines.{unlines, AreClean}
use stream_data_pipline.ClipStore.Main as StoreMain
use stream_data_pipline.ClipStore.Main.Store.{stored_row}
use stream_data_pipline.ClipStore.Main.Granted.{GoesWell, HasStored, stores_rows}
use stream_data_pipline.Pipeline.{getlines, printed_by, Ended}
use stream_data_pipline.Pipeline.Emissions.{AllAt, AllBegin, new_run-AllBegin}
use stream_data_pipline.Pipeline.Clips.{
  ended_line, AreLines, getlines-unlines, clip_text, ArePlain, clip_lines-unlines,
  contains-clip_text,
}
use stream_data_pipline.Pipeline.Passes.{default_opts, log_parse_main-passes}
use stream_data_pipline.Pipeline.Reads.{
  AreNames, IsTaken, AllTaken, stored_clips, AllTaken-AllPassed, lines_taken, AllTimes,
  line_records-AllAt, line_records_few,
}

module _ {I D : Type 0} (e : Env I D) (lp : LogMain.Host I D) (p : Platform)
    (cs : StoreMain.Host I D) (life : ℤ) where
  -- Whatever clip without events begins then can be taken by the stages behind stream_merge.
  abbrev pub IsTime : ℤ → Type 0
  IsTime ts_ms =
      (x : Emitted)
      → x.clip.start_ts_ms ≡ ts_ms
      → x.clip.events ≡ no_events
      → IsTaken e life cs.time p lp.cjson cs.cjson cs.double x

  -- The clips that a session with these inputs emits.
  abbrev pub clips_of : List Input → List Emitted
  clips_of is = (run e.clip_ms e.idle_ms reset (session e.clip_ms e.idle_ms is)).1

  -- The stages have ended for this text, and the database stands for the map it stood for before with
  -- the clips of the text put in.
  pub record IsDelivered (text : Bytes) (dir : Directory) (r : Ended) : Type 0 where
    pub inputs : List Input
    pub same : metas inputs ≡ line_records e (cut text).0
    pub unflushed : NoFlush inputs
    pub machine : Machine
    pub merged : r.merge_run ≡ exits 0 machine
    pub printed : machine.printed ≡ unlines (map (clip_text e) (clips_of inputs))
    pub passed : r.parse_run ≡ (0, machine.printed)
    pub db : Bytes
    pub ended : r.store_run ≡ some (StoreMain.ended 0 (record dir { db = db }) [])
    pub stores :
        (key : Bytes)
        → stored_row p db key
          ≡ latest (stored_row p dir.db key) (stored_clips e life cs.time (clips_of inputs) 1) key

module _ {I D : Type 0} (e : Env I D) (names : AreNames e) where
  texts-AreLines : (es : List Emitted) → AreLines (map (clip_text e) es)
  texts-AreLines [] = tt
  texts-AreLines (x ∷ es) = (
    contains-clip_text e 10 x (omega arith) names.session_clean.2 names.src_clean.2,
    texts-AreLines es,
  )

  getlines-texts :
      (es : List Emitted)
      → getlines (unlines (map (clip_text e) es)) ≡ map ended_line (map (clip_text e) es)
  getlines-texts es = getlines-unlines (map (clip_text e) es) (texts-AreLines es)

module _ {I D : Type 0} (e : Env I D) (names : AreNames e) (lp : LogMain.Host I D) (p : Platform)
    (cs : StoreMain.Host I D) (life : ℤ) where
  begun-ArePlain : (es : List Emitted) → AllBegin (IsTime e lp p cs life) es → ArePlain e es
  begun-ArePlain [] h = tt
  begun-ArePlain (x ∷ es) h = (h.0.1, begun-ArePlain es h.1)

  -- The clips that begin at such times can be taken.
  begun-AllTaken :
      (ieee : IsIeee cs.double) (es : List Emitted)
      → AllBegin (IsTime e lp p cs life) es
      → AllTaken e names p lp.cjson cs ieee life es
  begun-AllTaken ieee [] h = tt
  begun-AllTaken ieee (x ∷ es) h = (h.0.0 x refl h.0.1, begun-AllTaken ieee es h.1)

  -- The clips of a session can be taken, if the records have such times; there are few of them.
  session-AllBegin :
      (is : List Input) (lines : List Bytes)
      → metas is ≡ line_records e lines
      → AllTimes e (IsTime e lp p cs life) (line_records e lines)
      → AllBegin (IsTime e lp p cs life) (clips_of e lp p cs life is)
        × (length (clips_of e lp p cs life is) ≤ length (line_records e lines))
  session-AllBegin is lines same times =
      let at = line_records-AllAt e (IsTime e lp p cs life) lines times in
      let all : metas (session e.clip_ms e.idle_ms is) ≡ line_records e lines =
        metas-append is (finish ∷ []) ∙ append-nil (metas is) ∙ same in
      let (begin, few) =
        new_run-AllBegin (IsTime e lp p cs life) e.clip_ms e.idle_ms
          (session e.clip_ms e.idle_ms is) (subst (AllAt (IsTime e lp p cs life)) (sym all) at) in
      (begin, omega (arith, few, ap (λ (l : List MetaRecord). length l) all))

  -- log_parse passes the text of such clips on.
  passes_clips :
      (es : List Emitted) (text : Bytes)
      → IsIeee cs.double
      → AllBegin (IsTime e lp p cs life) es
      → length es < 2 ^ 64
      → lp.read_error ≡ false
      → text ≡ unlines (map (clip_text e) es)
      → LogMain.log_parse_main (record lp { input = getlines text }) default_opts
        ≡ (0, unlines (map (clip_text e) es))
  passes_clips es text ieee begin few fine printed =
      ap (λ t. LogMain.log_parse_main (record lp { input = t }) default_opts)
        (ap getlines printed ∙ getlines-texts e names es)
      ∙ log_parse_main-passes lp (map (clip_text e) es)
          (AllTaken-AllPassed e names p lp.cjson cs ieee life es (begun-AllTaken ieee es begin))
          (omega (arith, few, length-map es (clip_text e))) fine

module _ {I D : Type 0} (e : Env I D) (names : AreNames e) (lp : LogMain.Host I D) (p : Platform)
    (cs : StoreMain.Host I D) (life : ℤ) where
  -- clip_store puts the rows of such clips in.
  stores_clips :
      (es : List Emitted) (text : Bytes)
      → IsIeee cs.double
      → GoesWell cs
      → AllBegin (IsTime e lp p cs life) es
      → text ≡ unlines (map (clip_text e) es)
      → (path_len : ℕ) (dir : Directory) (ls : List Bytes) → dir.db ≡ unlines ls
      → AreClean ls
      → HasStored p (stored_clips e life cs.time es 1) dir (
          StoreMain.run_mode p
            (record cs { input = getlines text })
            StoreMain.mode_append
            life
            path_len
            dir)
  stores_clips es text ieee well begin printed path_len dir ls whole clean =
      let lines = map ended_line (map (clip_text e) es) in
      let host = record cs { input = lines } in
      let taken = begun-AllTaken e names lp p host life ieee es begin in
      let goes : GoesWell host = record {
        seeks = well.seeks;
        prints = well.prints;
        grants = well.grants;
        flushes = well.flushes;
      } in
      subst
        (λ t.
          HasStored p (stored_clips e life cs.time es 1) dir (
            StoreMain.run_mode p (record cs { input = t }) StoreMain.mode_append life path_len dir))
        (sym (ap getlines printed ∙ getlines-texts e names es))
        (stores_rows p host life _ path_len dir ls whole clean goes
          (lines_taken e names p lp.cjson host ieee life es 1 taken))

  -- The three stages one behind the other.
  pub stages-IsDelivered :
      (quoted : Bytes → Bytes) (ls : List Bytes)
      → Ready e quoted
      → IsIeee cs.double
      → GoesWell cs
      → lp.read_error ≡ false
      → (first : List Answer) (turns : List Turn) (last : List Answer) (readings : ℕ) (saw : Bool)
      → reads_well first ≡ true
      → AreCalm turns
      → reads_well last ≡ true
      → Ends turns
      → length (merge_text e first turns last readings saw) < size_max
      → AllTimes e
          (IsTime e lp p cs life)
          (line_records e (cut (merge_text e first turns last readings saw)).0)
      → (path_len : ℕ) (dir : Directory) → dir.db ≡ unlines ls
      → AreClean ls
      → (r : Ended) → r.merge_run ≡ merge e first turns last readings saw
      → r.parse_run
        ≡ LogMain.log_parse_main
            (record lp { input = getlines (printed_by r.merge_run) })
            default_opts
      → r.store_run
        ≡ StoreMain.run_mode p
            (record cs { input = getlines (r.parse_run).1 })
            StoreMain.mode_append
            life
            path_len
            dir
      → IsDelivered e lp p cs life (merge_text e first turns last readings saw) dir r
  stages-IsDelivered quoted ls ready ieee well fine first turns last readings saw wf calm wl ends
        fits times path_len dir whole clean r merging parsing storing =
      let text = merge_text e first turns last readings saw in
      let (k, run, m) =
        merge-Merged e quoted ready names.short first turns last readings saw wf calm wl ends
          fits in
      let es = clips_of e lp p cs life m.inputs in
      let (begin, few) = session-AllBegin e names lp p cs life m.inputs (cut text).0 m.same times in
      let plain = begun-ArePlain e names lp p cs life es begin in
      let printed = m.printed ∙ clip_lines-unlines e quoted es plain in
      let merged = merging ∙ run in
      let passed =
        parsing
        ∙ passes_clips e names lp p cs life es _ ieee begin
            (omega (arith, few, fits, line_records_few e text)) fine
            (ap printed_by merged ∙ printed) in
      let stored =
        stores_clips es _ ieee well begin (ap (λ (q : ℕ × Bytes). q.1) passed) path_len dir ls whole
          clean in
      record {
        inputs = m.inputs;
        same = m.same;
        unflushed = m.unflushed;
        machine = k;
        merged = merged;
        printed = printed;
        passed = passed ∙ ap (λ (t : Bytes). (0, t)) (sym printed);
        db = stored.text;
        ended = storing ∙ stored.ends;
        stores = stored.puts;
      }
