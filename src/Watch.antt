-- ===== src/Watch.antt =====
-- lib/libpipeline.c: watching files, and the clock. What a `read` of a descriptor that does not block gives is a list
-- of answers, the first one first; the kernel's calls that set a watch up are the parameter `Kernel`.
-- `struct inotify_event` has a header of 16 bytes, whose last four are the length of the name behind
-- it, lowest byte first.
pub mod Events
mod Tests
use stream_data_pipline.Prelude.{
  ℕ, zero, suc, ◌+◌, ◌*◌, ◌/◌, ◌^◌, ◌<◌, Bool, true, false, ◌&&◌, ◌||◌, Option, none, some, List,
  [], ◌∷◌, ◌==◌, ltb, length, drop, get_elem?, if◌then◌else◌,
}
use stream_data_pipline.Prelude.Bytes.{Bytes}
use stream_data_pipline.Prelude.Int.{ℤ, pos}
use stream_data_pipline.Paths.{lp_is_completed_session}

-- An answer of `read`; EINTR, EAGAIN and the other errors are apart.
pub data Answer : Type 0 where
  got : Bytes → Answer
  interrupted again failed : Answer

-- `pipeline_get_monotonic_time_ms` on the seconds and nanoseconds that `clock_gettime` gives, or on its
-- failure.
abbrev pub pipeline_get_monotonic_time_ms : Option (ℕ × ℕ) → ℤ
pipeline_get_monotonic_time_ms none = pos 0
pipeline_get_monotonic_time_ms (some (seconds, nanoseconds)) =
    pos (seconds * 1000 + nanoseconds / 1000000)

-- The text that a C string has in these bytes.
abbrev pub c_string : Bytes → Bytes
c_string [] = []
c_string (x ∷ s) = if x == 0 then [] else x ∷ c_string s

-- sizeof(struct inotify_event)
abbrev pub header_size : ℕ
header_size = 16

-- A byte of an event; the code reads none behind what it got.
abbrev pub byte_at : Bytes → ℕ → ℕ
byte_at buf i = elim (get_elem? buf i) [ none ↦ 0 | some x ↦ x ]

-- `ev->len`
abbrev pub name_len : Bytes → ℕ
name_len buf =
    byte_at buf 12 + byte_at buf 13 * 2 ^ 8 + byte_at buf 14 * 2 ^ 16 + byte_at buf 15 * 2 ^ 24

-- The test of one event: it has a name, and that is the sentinel's.
abbrev pub is_sentinel_event : Bytes → Bool
is_sentinel_event buf =
    ltb 0 (name_len buf) && lp_is_completed_session (some (c_string (drop header_size buf)))

-- The loop over the events of one `read`, on fuel; `buf` is what is behind `off`.
unfoldable pub walk_events : ℕ → Bytes → Bool → Bool
walk_events zero buf saw = saw
walk_events (suc fuel) buf saw =
    let rest =
      walk_events fuel (drop (header_size + name_len buf) buf) (saw || is_sentinel_event buf) in
    if ltb (length buf) header_size then saw else rest

-- `lp_consume_inotify_events`: whether it returned 0, and `*saw_sentinel`. Every event takes at least
-- its header from the buffer.
unfoldable pub lp_consume_inotify_events : List Answer → Bool → Bool × Bool
unfolding walk_events
lp_consume_inotify_events [] saw = (true, saw)
lp_consume_inotify_events (got [] ∷ answers) saw = (true, saw)
lp_consume_inotify_events (got (x ∷ buf) ∷ answers) saw =
    lp_consume_inotify_events answers (walk_events (length (x ∷ buf)) (x ∷ buf) saw)
lp_consume_inotify_events (again ∷ answers) saw = (true, saw)
lp_consume_inotify_events (interrupted ∷ answers) saw = (false, saw)
lp_consume_inotify_events (failed ∷ answers) saw = (false, saw)

-- `inotify_init1` and `inotify_add_watch`: a descriptor, or none for -1.
pub record Kernel : Type 0 where
  pub init : Option ℕ
  pub add_watch : ℕ → Bytes → ℕ → Option ℕ

-- What setting a watch up leaves: the descriptors returned, if it went well, and those closed.
pub record Watch : Type 0 where
  pub result : Option (ℕ × ℕ)
  pub closed : List ℕ

abbrev pub add_or_close : ℕ → Option ℕ → Watch
add_or_close fd none = record { result = none; closed = fd ∷ [] }
add_or_close fd (some wd) = record { result = some (fd, wd); closed = [] }

abbrev pub watch : Kernel → Bytes → ℕ → Option ℕ → Watch
watch os path mask none = record { result = none; closed = [] }
watch os path mask (some fd) = add_or_close fd (os.add_watch fd path mask)

-- IN_CLOSE_WRITE | IN_MOVED_TO
abbrev pub dir_mask : ℕ
dir_mask = 8 + 128

-- IN_MODIFY | IN_CLOSE_WRITE | IN_MOVE_SELF | IN_DELETE_SELF
abbrev pub file_mask : ℕ
file_mask = 2 + 8 + 2048 + 1024

-- `lp_watch_dir`
unfoldable pub lp_watch_dir : Kernel → Bytes → Watch
lp_watch_dir os path = watch os path dir_mask os.init

-- `lp_watch_file`
unfoldable pub lp_watch_file : Kernel → Bytes → Watch
lp_watch_file os path = watch os path file_mask os.init
