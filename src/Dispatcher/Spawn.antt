-- ===== src/Dispatcher/Spawn.antt =====
-- applets/pipeline_dispatcher/pd_spawn.c: what a child of `pd_spawn_child` does before `execv`, on its
-- table of descriptors, with the descriptors that pd_pipeline.c gives it.
use stream_data_pipline.Prelude.{
  ℕ, ◌≡◌, refl, Bool, true, false, Option, none, some, List, [], ◌∷◌, ◌==◌, if◌then◌else◌, arith,
  ◌<◌,
}

-- The open file behind each descriptor.
abbrev pub Table : Type 0
Table = ℕ → Option ℕ

-- STDIN_FILENO and STDOUT_FILENO
abbrev pub stdin_fileno : ℕ
stdin_fileno = 0

abbrev pub stdout_fileno : ℕ
stdout_fileno = 1

abbrev pub set_fd : ℕ → Option ℕ → Table → Table
set_fd fd file table i = if i == fd then file else table i

-- `dup2` unless the descriptor is in its place; `ok` is whether the call succeeds.
abbrev pub moved_fd : Bool → ℕ → ℕ → Table → Option Table
moved_fd ok fd target table =
    if fd == target then some table else if ok then some (set_fd target (table fd) table) else none

-- The loop over the descriptors that are not needed.
pub close_all : List ℕ → Table → Table
close_all [] table = table
close_all (fd ∷ fds) table = close_all fds (set_fd fd none table)

abbrev pub closed_behind : List ℕ → Option Table → Option Table
closed_behind fds none = none
closed_behind fds (some table) = some (close_all fds table)

abbrev pub moved_out : Bool → ℕ → List ℕ → Option Table → Option Table
moved_out ok fd fds none = none
moved_out ok fd fds (some table) = closed_behind fds (moved_fd ok fd stdout_fileno table)

-- The table with which `execv` is called, or `none` where the child exits before.
unfoldable pub child_table : Bool → Bool → ℕ → ℕ → List ℕ → Table → Option Table
unfolding close_all
child_table in_ok out_ok stdin_fd stdout_fd fds table =
    moved_out out_ok stdout_fd fds (moved_fd in_ok stdin_fd stdin_fileno table)

-- The descriptors that `pd_pipeline_run` gives to its three children.
abbrev pub stream_merge_fds : ℕ × ℕ → ℕ × ℕ → ℕ × ℕ
stream_merge_fds (r1, w1) (r2, w2) = (stdin_fileno, w1)

abbrev pub log_parse_fds : ℕ × ℕ → ℕ × ℕ → ℕ × ℕ
log_parse_fds (r1, w1) (r2, w2) = (r1, w2)

abbrev pub clip_store_fds : ℕ × ℕ → ℕ × ℕ → ℕ × ℕ
clip_store_fds (r1, w1) (r2, w2) = (r2, stdout_fileno)

abbrev pub all_pipes : ℕ × ℕ → ℕ × ℕ → List ℕ
all_pipes (r1, w1) (r2, w2) = r1 ∷ w1 ∷ r2 ∷ w2 ∷ []

-- A table in which the two standard descriptors are these files, and no descriptor of the pipes is
-- open.
pub record Wired (stdin stdout : Option ℕ) (r1 w1 r2 w2 : ℕ) (table : Table) : Type 0 where
  pub stdin_is : table stdin_fileno ≡ stdin
  pub stdout_is : table stdout_fileno ≡ stdout
  pub first_closed : (table r1 ≡ none) × (table w1 ≡ none)
  pub second_closed : (table r2 ≡ none) × (table w2 ≡ none)

-- The table of a child, whose calls of `dup2` succeed.
abbrev pub child : ℕ → ℕ → ℕ → ℕ → Table → ℕ × ℕ → Option Table
child r1 w1 r2 w2 table (stdin_fd, stdout_fd) =
    child_table true true stdin_fd stdout_fd (all_pipes (r1, w1) (r2, w2)) table

module _ (r1 w1 r2 w2 : ℕ) (table : Table) (a : 1 < r1) (b : 1 < w1) (c : 1 < r2) (d : 1 < w2) where
  wired :
      (after : Table) (stdin stdout : Option ℕ)
      → after stdin_fileno ≡ stdin
      → after stdout_fileno ≡ stdout
      → Wired stdin stdout r1 w1 r2 w2 (close_all (all_pipes (r1, w1) (r2, w2)) after)
  unfolding close_all
  wired after stdin stdout e f = record {
    stdin_is = ground (arith, e);
    stdout_is = ground (arith, f);
    first_closed = (ground arith, ground arith);
    second_closed = (ground arith, ground arith);
  }

  -- If the calls of `dup2` succeed and the descriptors of the two pipes are apart from the standard ones,
  -- each child reaches `execv` with its standard descriptors on the right files: stream_merge writes to
  -- the first pipe, log_parse reads from it and writes to the second, clip_store reads from that; the
  -- ends stay what they were in the dispatcher; and no child holds any other descriptor of the pipes.
  pub child_table-Wired :
      ((t : Table) × (child r1 w1 r2 w2 table (stream_merge_fds (r1, w1) (r2, w2)) ≡ some t)
        × Wired (table 0) (table w1) r1 w1 r2 w2 t)
      × ((t : Table) × (child r1 w1 r2 w2 table (log_parse_fds (r1, w1) (r2, w2)) ≡ some t)
          × Wired (table r1) (table w2) r1 w1 r2 w2 t)
      × ((t : Table) × (child r1 w1 r2 w2 table (clip_store_fds (r1, w1) (r2, w2)) ≡ some t)
          × Wired (table r2) (table 1) r1 w1 r2 w2 t)
  unfolding child_table
  child_table-Wired =
      let p : (r1 == 0) ≡ false = ground arith in
      let q : (w1 == 1) ≡ false = ground arith in
      let r : (w2 == 1) ≡ false = ground arith in
      let s : (r2 == 0) ≡ false = ground arith in
      (
        (_, rw q refl, wired (set_fd 1 (table w1) table) _ _ refl refl),
        (
          _,
          rw (p, r) refl,
          wired (set_fd 1 (set_fd 0 (table r1) table w2) (set_fd 0 (table r1) table)) _ _ refl
              (ground arith),
        ),
        (_, rw s refl, wired (set_fd 0 (table r2) table) _ _ refl refl),
      )
