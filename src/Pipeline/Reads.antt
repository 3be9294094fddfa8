-- ===== src/Pipeline/Reads.antt =====
-- What clip_store reads on the lines that stream_merge prints, and the records of the metadata file
-- that the lines are printed for.
use mathlib.Core.Path.{subst}
use stream_data_pipline.Prelude.{
  ℕ, suc, ◌≤◌, ◌<◌, ◌≡◌, refl, sym, ap, ◌∙◌, Bool, true, false, ◌&&◌, Option, none, some, List, [],
  ◌∷◌, ◌++◌, map, arith, if◌then◌else◌, length, length-append,
}
use stream_data_pipline.Prelude.Bytes.{Bytes, codes, contains, contains-append, is_empty, str_eq}
use stream_data_pipline.Prelude.Int.{ℤ}
use stream_data_pipline.Prelude.Decimal.{print_long, length-print_long}
use stream_data_pipline.Paths.{slash}
use stream_data_pipline.Watch.{c_string}
use stream_data_pipline.Json.{Cjson, number}
use stream_data_pipline.Json.Numbers.{Double, IsSafe, IsIeee}
use stream_data_pipline.Json.Laws.{IsInteger, get_int64-IsInteger, get_string_iff}
use stream_data_pipline.StreamMerge.Events.{no_events}
use stream_data_pipline.StreamMerge.Fsm.{MetaRecord}
use stream_data_pipline.StreamMerge.Fsm.Runs.{Emitted}
use stream_data_pipline.StreamMerge.Reader.{parse_line, parse_line-plain}
use stream_data_pipline.StreamMerge.Output.{Env, ts_sec, clip_name}
use stream_data_pipline.StreamMerge.Output.Lines.{IsShort}
use stream_data_pipline.StreamMerge.Drain.Cut.{cut, in_front}
use stream_data_pipline.StreamMerge.Loop.Reached.{wanted, line_records}
use stream_data_pipline.ClipStore.Row.{Row}
use stream_data_pipline.ClipStore.Load.{Platform}
use stream_data_pipline.ClipStore.Compact.Lines.{IsClean}
use stream_data_pipline.ClipStore.Compact.Written.{IsKept}
use stream_data_pipline.ClipStore.Main.{Host, clip_of, expiry}
use stream_data_pipline.ClipStore.Main.Piped.{
  clip_key, clip_rows, row_before, AreStorable, StorableBefore,
}
use stream_data_pipline.Pipeline.Emissions.{AllAt}
use stream_data_pipline.Pipeline.Clips.{
  ended_line, path_at, clip_text, contains-clip_text, clip_text-braces,
}
use stream_data_pipline.Pipeline.Passes.{
  IsObject, HasView, HasText, field-HasView, c_string_same, IsPassed, AllPassed,
}

-- cJSON finds a number there that equals this integer.
pub record HasInteger {I D : Type 0} (c : Cjson I D) (d : Double D) (root : I) (key : Bytes) (z : ℤ)
    : Type 0 where
  pub value : D
  pub stands : HasView c root key (number value)
  pub same : d.same (d.of_ℤ z) value ≡ true
  pub safe : IsSafe z

-- What the session is called and where its files are, as the stages can take it.
pub record AreNames {I D : Type 0} (e : Env I D) : Type 0 where
  pub session_clean : IsClean e.session
  pub src_clean : IsClean e.src
  pub session_small : length e.session < 128
  pub short : IsShort e

module _ {I D : Type 0} (e : Env I D) (life : ℤ) (time : ℕ → ℤ) where
  -- The row of a clip, when the clock was read `times` times before.
  abbrev pub stored_clip : Emitted → ℕ → Row
  stored_clip x times = record {
    key = clip_key e.session (ts_sec x.clip.start_ts_ms);
    value = path_at e x.clip.start_ts_ms;
    expire_at = expiry life (time times);
  }

  -- The rows of the clips in their order.
  abbrev pub stored_clips : List Emitted → ℕ → List Row
  stored_clips [] times = []
  stored_clips (x ∷ es) times = stored_clip x times ∷ stored_clips es (suc times)

  -- The two copies of cJSON read the line of the clip as the object that it shows, the number of
  -- seconds is safe, and the row can be written and read back.
  pub record IsTaken (p : Platform) (lc sc : Cjson I D) (d : Double D) (x : Emitted) : Type 0 where
    pub parsed : IsObject lc (clip_text e x)
    pub kind : HasText lc parsed.root (codes "type") (codes "clip")
    pub read : IsObject sc (ended_line (clip_text e x))
    pub session : HasText sc read.root (codes "session_id") e.session
    pub seconds : HasInteger sc d read.root (codes "ts") (ts_sec x.clip.start_ts_ms)
    pub path : HasText sc read.root (codes "path") (path_at e x.clip.start_ts_ms)
    pub kept : (times : ℕ) → IsKept p (stored_clip x times)

module _ {I D : Type 0} (e : Env I D) (names : AreNames e) where
  line_clean : (x : Emitted) → contains 0 (ended_line (clip_text e x)) ≡ false
  unfolding contains
  line_clean x =
      contains-append 0 (clip_text e x) (10 ∷ [])
      ∙ rw (contains-clip_text e 0 x (omega arith) names.session_clean.0 names.src_clean.0) refl

  path_small : (ts_ms : ℤ) → length (path_at e ts_ms) < 4096
  path_small ts_ms =
      let secs = print_long (ts_sec ts_ms) in
      omega (
        arith,
        names.short,
        length-print_long (ts_sec ts_ms),
        length-append e.session (b'_' ∷ (secs ++ codes ".bin")),
        length-append secs (codes ".bin"),
        length-append e.src (slash ∷ clip_name e.session ts_ms),
      )

  not_empty : (s t : Bytes) → is_empty (s ++ slash ∷ t) ≡ false
  not_empty [] t = refl
  not_empty (x ∷ s) t = refl

  module _ (p : Platform) (lc : Cjson I D) (cs : Host I D) (ieee : IsIeee cs.double)
      (life : ℤ) where
    abbrev Taken : Emitted → Type 0
    Taken x = IsTaken e life cs.time p lc cs.cjson cs.double x

    passed : (x : Emitted) → Taken x → IsPassed lc (clip_text e x)
    passed x t = record {
      middle = (clip_text-braces e x).0;
      braces = (clip_text-braces e x).1;
      clean = line_clean x;
      is_object = t.parsed;
      kind = t.kind;
    }

    reads_clip :
        (x : Emitted)
        → Taken x
        → clip_of p cs (ended_line (clip_text e x))
          ≡ some (e.session, ts_sec x.clip.start_ts_ms, path_at e x.clip.start_ts_ms)
    unfolding clip_of
    reads_clip x t =
        let line = ended_line (clip_text e x) in
        let c = cs.cjson in
        let d = cs.double in
        let secs = ts_sec x.clip.start_ts_ms in
        let text_at = λ (key value : Bytes) (h : HasText c t.read.root key value).
          field-HasView c line t.read key _ h in
        let whole = c_string_same line (line_clean x) in
        let s =
          (get_string_iff c line (codes "session_id") 128 e.session).1
            (text_at _ _ t.session, names.session_small) in
        let q =
          (get_string_iff c line (codes "path") 4096 (path_at e x.clip.start_ts_ms)).1
            (text_at _ _ t.path, path_small x.clip.start_ts_ms) in
        let n = ((get_int64-IsInteger c d ieee line (codes "ts")).0 secs).1 (
          subst (λ w. IsInteger d w secs)
            (sym
              (field-HasView c line t.read (codes "ts") (number t.seconds.value) t.seconds.stands))
            (t.seconds.same, t.seconds.safe)) in
        rw (whole, s, n, q) refl

    abbrev pub AllTaken : List Emitted → Type 0
    AllTaken [] = Unit
    AllTaken (x ∷ es) = Taken x × AllTaken es

    pub AllTaken-AllPassed : (es : List Emitted) → AllTaken es → AllPassed lc (map (clip_text e) es)
    AllTaken-AllPassed [] h = tt
    AllTaken-AllPassed (x ∷ es) h = (passed x h.0, AllTaken-AllPassed es h.1)

    -- The lines of the clips can all be stored, as these rows.
    pub lines_taken :
        (es : List Emitted) (times : ℕ)
        → AllTaken es
        → AreStorable p cs life (map ended_line (map (clip_text e) es)) times
          × (clip_rows p cs life (map ended_line (map (clip_text e) es)) times
              ≡ stored_clips e life cs.time es times)
    unfolding clip_rows
    lines_taken [] times h = (tt, refl)
    lines_taken (x ∷ es) times h =
        let (storable, rows) = lines_taken es (suc times) h.1 in
        let more = map ended_line (map (clip_text e) es) in
        let full = not_empty e.src (clip_name e.session x.clip.start_ts_ms) in
        let reads = reads_clip x h.0 in
        (
          subst (λ o. StorableBefore p cs life o times (AreStorable p cs life more)) (sym reads)
              (omega (arith, names.session_small), h.0.kept times, full, storable),
          ap (λ o. row_before p cs life o times (clip_rows p cs life more)) reads
              ∙ ap (λ rs. stored_clip e life cs.time x times ∷ rs) rows,
        )

module _ {I D : Type 0} (e : Env I D) (At : ℤ → Type 0) where
  -- The records have such times.
  abbrev pub AllTimes : List MetaRecord → Type 0
  AllTimes [] = Unit
  AllTimes (rec ∷ recs) = At rec.ts_ms × AllTimes recs

  wanted-AllAt :
      (o : Option MetaRecord) (recs : List MetaRecord)
      → ((rec : MetaRecord) → o ≡ some rec → rec.events ≡ no_events)
      → (AllTimes recs → AllAt At recs)
      → AllTimes (wanted o ++ recs)
      → AllAt At (wanted o ++ recs)
  wanted-AllAt none recs plain rest h = rest h
  wanted-AllAt (some rec) recs plain rest h = taken (rec.valid && str_eq rec.kind (codes "data")) h
    where
      taken :
          (b : Bool)
          → AllTimes ((if b then rec ∷ [] else []) ++ recs)
          → AllAt At ((if b then rec ∷ [] else []) ++ recs)
      taken true h = ((h.0, plain rec refl), rest h.1)
      taken false h = rest h

  -- The reader leaves the events of its records empty.
  pub line_records-AllAt :
      (lines : List Bytes) → AllTimes (line_records e lines) → AllAt At (line_records e lines)
  line_records-AllAt [] h = tt
  line_records-AllAt ([] ∷ lines) h = line_records-AllAt lines h
  line_records-AllAt ((x ∷ line) ∷ lines) h =
      wanted-AllAt _ _ (parse_line-plain e.cjson e.double (c_string (x ∷ line)))
        (line_records-AllAt lines) h

module _ {I D : Type 0} (e : Env I D) where
  length-wanted : (o : Option MetaRecord) → length (wanted o) ≤ 1
  length-wanted none = omega arith
  length-wanted (some rec) = ground arith

  length-line_records : (lines : List Bytes) → length (line_records e lines) ≤ length lines
  length-line_records [] = omega arith
  length-line_records ([] ∷ lines) = omega (arith, length-line_records lines)
  length-line_records ((x ∷ line) ∷ lines) =
      let o = parse_line e.cjson e.double (c_string (x ∷ line)) in
      omega (
        arith,
        length-line_records lines,
        length-wanted o,
        length-append (wanted o) (line_records e lines),
      )

length-in_front : (x : ℕ) (q : List Bytes × Bytes) → length (in_front x q).0 ≡ length q.0
length-in_front x ([], rest) = refl
length-in_front x (line ∷ lines, rest) = refl

length-cut_lines : (s : Bytes) → length (cut s).0 ≤ length s
unfolding cut
length-cut_lines [] = omega arith
length-cut_lines (x ∷ s) = ground (arith, length-cut_lines s, length-in_front x (cut s))

-- A text has at most as many records as bytes.
pub line_records_few :
    {I D : Type 0} (e : Env I D) (s : Bytes) → length (line_records e (cut s).0) ≤ length s
line_records_few e s = omega (arith, length-line_records e (cut s).0, length-cut_lines s)
