-- ===== src/Pipeline/Clips.antt =====
-- The text that stream_merge prints for clips without events, as lines for the next stage.
use stream_data_pipline.Prelude.{
  ℕ, ◌<◌, ◌≡◌, refl, sym, ap, ◌∙◌, Bool, true, false, ◌&&◌, List, [], ◌∷◌, ◌++◌, map, arith,
  append_assoc, if◌then◌else◌, leb, drop,
}
use stream_data_pipline.Prelude.Bytes.{Bytes, codes, contains, contains-append}
use stream_data_pipline.Prelude.Int.{ℤ, pos}
use stream_data_pipline.Prelude.Decimal.{print_long, print_ℕ, contains-print_long}
use stream_data_pipline.Paths.{slash}
use stream_data_pipline.StreamMerge.Events.{no_events}
use stream_data_pipline.StreamMerge.Fsm.Runs.{Emitted}
use stream_data_pipline.StreamMerge.Output.{Env, clip_head, clip_name, ts_sec}
use stream_data_pipline.StreamMerge.Output.Lines.{events_member, clip_line}
use stream_data_pipline.StreamMerge.Loop.Reached.{clip_lines}
use stream_data_pipline.ClipStore.Format.{newline}
use stream_data_pipline.ClipStore.Compact.Lines.{unlines}
use stream_data_pipline.Pipeline.{getlines}

-- A line with its end.
abbrev pub ended_line : Bytes → Bytes
ended_line l = l ++ newline ∷ []

getlines-line :
    (l rest : Bytes)
    → contains newline l ≡ false
    → getlines (l ++ newline ∷ rest) ≡ ended_line l ∷ getlines rest
unfolding getlines contains
getlines-line [] rest h = refl
getlines-line (c ∷ l) rest h = ground (arith, getlines-line l rest)

abbrev pub AreLines : List Bytes → Type 0
AreLines [] = Unit
AreLines (l ∷ ls) = (contains newline l ≡ false) × AreLines ls

pub getlines-unlines : (ls : List Bytes) → AreLines ls → getlines (unlines ls) ≡ map ended_line ls
unfolding getlines
getlines-unlines [] h = refl
getlines-unlines (l ∷ ls) h =
    getlines-line l (unlines ls) h.0
    ∙ ap (λ (t : List Bytes). ended_line l ∷ t) (getlines-unlines ls h.1)

-- No byte below `n`.
abbrev from : ℕ → Bytes → Bool
from n [] = true
from n (x ∷ s) = leb n x && from n s

from-contains : (c n : ℕ) (s : Bytes) → c < n → from n s ≡ true → contains c s ≡ false
unfolding contains
from-contains c n [] l h = refl
from-contains c n (x ∷ s) l h = ground (arith, from-contains c n s l)

both :
    (c : ℕ) (a b : Bytes)
    → contains c a ≡ false
    → contains c b ≡ false
    → contains c (a ++ b) ≡ false
both c a b h k = contains-append c a b ∙ rw (h, k) refl

abbrev AllFree : ℕ → List Bytes → Type 0
AllFree c [] = Unit
AllFree c (s ∷ ss) = (contains c s ≡ false) × AllFree c ss

abbrev joined : List Bytes → Bytes → Bytes
joined [] last = last
joined (s ∷ ss) last = s ++ joined ss last

joined_free :
    (c : ℕ) (ss : List Bytes) (last : Bytes)
    → AllFree c ss
    → contains c last ≡ false
    → contains c (joined ss last) ≡ false
joined_free c [] last h k = k
joined_free c (s ∷ ss) last h k = both c s (joined ss last) h.0 (joined_free c ss last h.1 k)

truth_free :
    (c : ℕ) (b : Bool) → c < 32 → contains c (if b then codes "true" else codes "false") ≡ false
truth_free c true h = from-contains c 32 (codes "true") h refl
truth_free c false h = from-contains c 32 (codes "false") h refl

module _ {I D : Type 0} (e : Env I D) where
  abbrev pub path_at : ℤ → Bytes
  path_at ts_ms = e.src ++ slash ∷ clip_name e.session ts_ms

  -- The line of a clip without events, without its end.
  unfoldable pub clip_text : Emitted → Bytes
  clip_text x = clip_head e.session (path_at x.clip.start_ts_ms) x.clip x.complete ++ b'}' ∷ []

  abbrev pub ArePlain : List Emitted → Type 0
  ArePlain [] = Unit
  ArePlain (x ∷ es) = (x.clip.events ≡ no_events) × ArePlain es

  clip_line-clip_text :
      (quoted : Bytes → Bytes) (x : Emitted)
      → x.clip.events ≡ no_events
      → clip_line quoted e.session (path_at x.clip.start_ts_ms) x.clip x.complete
        ≡ ended_line (clip_text x)
  unfolding clip_line clip_text events_member
  clip_line-clip_text quoted x plain =
      let head = clip_head e.session (path_at x.clip.start_ts_ms) x.clip x.complete in
      ap (λ s. head ++ (events_member quoted s ++ b'}' ∷ 10 ∷ [])) plain
      ∙ sym (append_assoc head (b'}' ∷ []) (newline ∷ []))

  -- What is printed for the clips consists of their lines.
  pub clip_lines-unlines :
      (quoted : Bytes → Bytes) (es : List Emitted)
      → ArePlain es
      → clip_lines e quoted es ≡ unlines (map clip_text es)
  clip_lines-unlines quoted [] h = refl
  clip_lines-unlines quoted (x ∷ es) h =
      ap (λ t. t ++ clip_lines e quoted es) (clip_line-clip_text quoted x h.0)
      ∙ ap (λ t. ended_line (clip_text x) ++ t) (clip_lines-unlines quoted es h.1)
      ∙ append_assoc (clip_text x) (newline ∷ []) (unlines (map clip_text es))

  -- A byte below '+' is nowhere in the line, if it is not in the names.
  pub contains-clip_text :
      (c : ℕ) (x : Emitted)
      → c < 32
      → contains c e.session ≡ false
      → contains c e.src ≡ false
      → contains c (clip_text x) ≡ false
  unfolding clip_text clip_head print_long
  contains-clip_text c x small session src =
      let plain = λ (s : Bytes) (h : from 32 s ≡ true). from-contains c 32 s small h in
      let number = λ (z : ℤ). contains-print_long c z (omega arith) in
      let secs = number (ts_sec x.clip.start_ts_ms) in
      let path =
        joined_free c
          (e.src
            ∷ (slash ∷ [])
            ∷ e.session
            ∷ (b'_' ∷ [])
            ∷ print_long (ts_sec x.clip.start_ts_ms)
            ∷ [])
          (codes ".bin")
          (src, (plain (slash ∷ []) refl, (session, (plain (b'_' ∷ []) refl, (secs, tt)))))
          (plain (codes ".bin") refl) in
      let head =
        joined_free c
          (codes "{\"type\":\"clip\",\"session_id\":\""
            ∷ e.session
            ∷ codes "\",\"ts\":"
            ∷ print_long (ts_sec x.clip.start_ts_ms)
            ∷ codes ",\"path\":\""
            ∷ path_at x.clip.start_ts_ms
            ∷ codes "\",\"offset\":"
            ∷ print_ℕ x.clip.start_offset
            ∷ codes ",\"length\":"
            ∷ print_ℕ x.clip.total_length
            ∷ codes ",\"complete\":"
            ∷ [])
          (if x.complete then codes "true" else codes "false")
          (
            plain _ refl,
            (
              session,
              (
                plain _ refl,
                (
                  secs,
                  (
                    plain _ refl,
                    (
                      path,
                      (
                        plain _ refl,
                        (
                          number (pos x.clip.start_offset),
                          (plain _ refl, (number (pos x.clip.total_length), (plain _ refl, tt))),
                        ),
                      ),
                    ),
                  ),
                ),
              ),
            ),
          )
          (truth_free c x.complete small) in
      both c (clip_head e.session (path_at x.clip.start_ts_ms) x.clip x.complete) (b'}' ∷ []) head
        (plain (b'}' ∷ []) refl)

  -- It begins with a brace and ends with one.
  pub clip_text-braces :
      (x : Emitted) → (middle : Bytes) × (clip_text x ≡ b'{' ∷ (middle ++ b'}' ∷ []))
  unfolding clip_text clip_head
  clip_text-braces x =
      (drop 1 (clip_head e.session (path_at x.clip.start_ts_ms) x.clip x.complete), refl)
