-- ===== src/StreamMerge/Output/Lines.antt =====
-- The lines that `emit_clip` of applets/stream_merge/stream_merge.c prints.
use stream_data_pipline.Prelude.{
  ℕ, ◌+◌, ◌<◌, ◌≡◌, refl, ap, ◌∙◌, Bool, true, false, Option, none, some, [], ◌∷◌, ◌++◌, arith,
  length, length-append, append_assoc, append-nil, if◌then◌else◌, not,
}
use stream_data_pipline.Prelude.Bytes.{Bytes, codes}
use stream_data_pipline.Prelude.Decimal.{print_long, length-print_long}
use stream_data_pipline.Prelude.Int.{ℤ}
use stream_data_pipline.Paths.{slash, lp_build_artifact_path}
use stream_data_pipline.Buffer.{size_max, empty}
use stream_data_pipline.Buffer.Steps.{printed-Adds, empty-Holds}
use stream_data_pipline.Json.Strings.{Prints}
use stream_data_pipline.StreamMerge.Events.{EventSet}
use stream_data_pipline.StreamMerge.Events.Json.{events_text, append_json-Adds}
use stream_data_pipline.StreamMerge.Fsm.{ClipRecord}
use stream_data_pipline.StreamMerge.Output.{
  Env, clip_head, clip_path, clip_name, path_max, ts_sec, emit_events, emit_clip, emit_at,
  print_events, and_then, finish_clip, close_line, flush_all,
}

-- The member `events` of a clip that has some.
unfoldable pub events_member : (Bytes → Bytes) → EventSet → Bytes
events_member quoted [] = []
events_member quoted (tag ∷ set) = codes ",\"events\":" ++ events_text quoted (tag ∷ set)

-- The line of a clip whose file has this path.
unfoldable pub clip_line : (Bytes → Bytes) → Bytes → Bytes → ClipRecord → Bool → Bytes
clip_line quoted session path clip complete =
    clip_head session path clip complete ++ (events_member quoted clip.events ++ b'}' ∷ 10 ∷ [])

-- The standard output takes everything, cJSON prints each string as `quoted`, and memory is there.
pub record Ready {I D : Type 0} (e : Env I D) (quoted : Bytes → Bytes) : Type 0 where
  pub prints : (out text : Bytes) → e.stdout.print out text ≡ (true, out ++ text)
  pub flushes : (out : Bytes) → e.stdout.flush out ≡ true
  pub quotes : Prints e.cjson quoted
  pub grants : (n : ℕ) → e.alloc.grants n ≡ true

module _ {I D : Type 0} (e : Env I D) where
  -- The directory and the session name leave room for the rest of a path.
  abbrev pub IsShort : Type 0
  IsShort = length e.src + length e.session + 27 < path_max

  -- With room for the rest every clip has a path.
  pub clip_path_fits :
      (ts_ms : ℤ)
      → IsShort
      → clip_path e.session e.src ts_ms ≡ some (e.src ++ slash ∷ clip_name e.session ts_ms)
  unfolding clip_path lp_build_artifact_path
  clip_path_fits ts_ms short =
      let secs = print_long (ts_sec ts_ms) in
      ground (
        arith,
        length-print_long (ts_sec ts_ms),
        length-append e.session (b'_' ∷ (secs ++ codes ".bin")),
        length-append secs (codes ".bin"),
        length-append e.src (slash ∷ clip_name e.session ts_ms),
      )

module _ {I D : Type 0} (e : Env I D) (quoted : Bytes → Bytes) where
  -- What `emit_clip` leaves for an active clip, by its path.
  abbrev pub clip_result : Option Bytes → ClipRecord → Bool → Bytes → Bool × Bytes
  clip_result none clip complete out = (false, out)
  clip_result (some path) clip complete out =
      (true, out ++ clip_line quoted e.session path clip complete)

if_not :
    {A : Type 0} (x : A) {y y' : A} (a : Bool)
    → y ≡ y'
    → (if not a then x else y) ≡ (if a then y' else x)
if_not x true e = e
if_not x false e = refl

module _ {I D : Type 0} (e : Env I D) (quoted : Bytes → Bytes) (ready : Ready e quoted) where
  emit_events-member :
      (set : EventSet) (out : Bytes)
      → length (events_text quoted set) < size_max
      → emit_events e set out ≡ (true, out ++ events_member quoted set)
  unfolding emit_events events_member
  emit_events-member [] out fits = rw append-nil refl
  emit_events-member (tag ∷ set) out fits =
      let text = events_text quoted (tag ∷ set) in
      let adds =
        append_json-Adds e.cjson quoted ready.quotes e.alloc (tag ∷ set) [] empty
          (empty-Holds e.alloc) (omega arith) in
      ap (λ t. print_events e t out) ((printed-Adds e.alloc text _ adds).1 ready.grants)
      ∙ ready.prints out (codes ",\"events\":" ++ text)

  -- What is printed for a clip whose path fits.
  emit_at-line :
      (path : Bytes) (clip : ClipRecord) (complete : Bool) (out : Bytes)
      → length (events_text quoted clip.events) < size_max
      → emit_at e (some path) clip complete out
        ≡ (true, out ++ clip_line quoted e.session path clip complete)
  unfolding clip_line
  emit_at-line path clip complete out fits =
      let head = clip_head e.session path clip complete in
      let tags = events_member quoted clip.events in
      let rest = b'}' ∷ 10 ∷ [] in
      ap (λ r. and_then r (finish_clip e clip.events)) (ready.prints out head)
      ∙ ap (λ r. and_then r (close_line e)) (emit_events-member clip.events (out ++ head) fits)
      ∙ ap (λ r. and_then r (flush_all e)) (ready.prints (out ++ head ++ tags) rest)
      ∙ ap (λ b. (b, out ++ head ++ tags ++ rest)) (ready.flushes (out ++ head ++ tags ++ rest))
      ∙ ap (λ t. (true, t))
          (append_assoc (out ++ head) tags rest ∙ append_assoc out head (tags ++ rest))

  emit_at-clip_result :
      (path : Option Bytes) (clip : ClipRecord) (complete : Bool) (out : Bytes)
      → length (events_text quoted clip.events) < size_max
      → emit_at e path clip complete out ≡ clip_result e quoted path clip complete out
  emit_at-clip_result none clip complete out fits = refl
  emit_at-clip_result (some path) clip complete out fits = emit_at-line path clip complete out fits

  pub emit_clip-clip_result :
      (clip : ClipRecord) (complete : Bool) (out : Bytes)
      → length (events_text quoted clip.events) < size_max
      → emit_clip e clip complete out ≡ (
          if clip.active
          then clip_result e quoted (clip_path e.session e.src clip.start_ts_ms) clip complete out
          else (true, out))
  unfolding emit_clip
  emit_clip-clip_result clip complete out fits =
      if_not (true, out) clip.active
        (emit_at-clip_result (clip_path e.session e.src clip.start_ts_ms) clip complete out fits)
