-- ===== src/Paths.antt =====
-- lib/libpipeline.c: the names of files, and `lp_strndup`; and the choice of the applet in
-- applets/main.c. A NULL argument is `none`.
pub mod Laws
mod Tests
use stream_data_pipline.Prelude.{
  ℕ, zero, suc, ◌+◌, ◌-◌, ◌^◌, ◌<◌, Bool, true, false, not, ◌||◌, Option, none, some, List, [], ◌∷◌,
  ◌++◌, ltb, ◌==◌, if◌then◌else◌, length, take,
}
use stream_data_pipline.Prelude.Bytes.{Bytes, codes, str_eq}

abbrev pub slash : ℕ
slash = b'/'

-- The text behind the last slash, or none: `strrchr(s, '/')`.
unfoldable pub behind_slash : Bytes → Option Bytes
behind_slash [] = none
behind_slash (c ∷ s) = elim (behind_slash s) [
  | some t ↦ some t
  | none ↦ if c == slash then some s else none
]

abbrev pub or_whole : Bytes → Option Bytes → Bytes
or_whole s none = s
or_whole s (some t) = t

abbrev pub base_name : Bytes → Bytes
base_name s = or_whole s (behind_slash s)

-- PIPELINE_SENTINEL_NAME
abbrev pub pipeline_sentinel_name : Bytes
pipeline_sentinel_name = codes ".pipeline_end"

-- `lp_is_completed_session`
unfoldable pub lp_is_completed_session : Option Bytes → Bool
lp_is_completed_session none = false
lp_is_completed_session (some filename) = str_eq (base_name filename) pipeline_sentinel_name

-- `lp_build_artifact_path` into a buffer of `sz` bytes, with `none` for -1; an `int` holds the length
-- that `snprintf` returns.
unfoldable pub lp_build_artifact_path : ℕ → Bytes → Bytes → Option Bytes
lp_build_artifact_path sz dir name =
    let text = dir ++ slash ∷ name in
    if not (ltb (length text) (2 ^ 31))
    then none
    else if ltb (length text) sz
    then some text
    else none

-- `lp_strndup` of a source with at least `len` bytes.
unfoldable pub lp_strndup : (ℕ → Bool) → Option Bytes → ℕ → Option Bytes
lp_strndup malloc_ok none len = none
lp_strndup malloc_ok (some src) len =
    if ltb (2 ^ 64 - 2) len then none else if malloc_ok (len + 1) then some (take len src) else none

-- What `main` goes on with: an applet with its arguments, or an exit code.
pub data Choice : Type 0 where
  pipeline_dispatcher stream_merge log_parse clip_store : List Bytes → Choice
  exits : ℕ → Choice

abbrev pub choose : Bytes → List Bytes → Choice
choose name argv =
    if str_eq name (codes "pipeline_dispatcher")
    then pipeline_dispatcher argv
    else if str_eq name (codes "stream_merge")
    then stream_merge argv
    else if str_eq name (codes "log_parse")
    then log_parse argv
    else if str_eq name (codes "clip_store")
    then clip_store argv
    else exits 127

abbrev pub is_box : Bytes → Bool
is_box name = str_eq name (codes "box") || str_eq name (codes "busybox")

-- `main`
unfoldable pub main : List Bytes → Choice
main [] = exits 1
main (argv0 ∷ []) =
    if is_box (base_name argv0) then exits 1 else choose (base_name argv0) (argv0 ∷ [])
main (argv0 ∷ argv1 ∷ rest) =
    if is_box (base_name argv0)
    then choose argv1 (argv1 ∷ rest)
    else choose (base_name argv0) (argv0 ∷ argv1 ∷ rest)
