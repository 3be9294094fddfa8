-- ===== src/ClipStore/Compact.antt =====
-- applets/clip_store/db_compact.c, and the listing of rows in clip_store.c: both walk over the buckets
-- of the index that was loaded from the file. What the calls of the operating system answer is a
-- parameter; a directory with the database and its temporary file is the state.
pub mod Laws
pub mod Lines
pub mod Written
pub mod Preserves
pub mod Listings
use stream_data_pipline.Prelude.{
  ℕ, ◌+◌, Bool, true, false, not, Option, none, some, List, [], ◌∷◌, ◌++◌, leb, if◌then◌else◌,
}
use stream_data_pipline.Prelude.Bytes.{Bytes, starts_with}
use stream_data_pipline.Prelude.Int.{ℤ}
use stream_data_pipline.ClipStore.Row.{Row, is_live}
use stream_data_pipline.ClipStore.Index.{RowIndex, zero_index}
use stream_data_pipline.ClipStore.Format.{Stdio, append_db_row, tab, newline}
use stream_data_pipline.ClipStore.Load.{File, Platform, Loaded, loaded, aborted, load_latest_rows}

-- The directory of the database.
pub record Directory : Type 0 where
  pub db : Bytes
  pub tmp : Option Bytes

-- The calls on the temporary file.
pub record Calls : Type 0 where
  pub open_ok : Bool
  pub fdopen_ok : Bool
  pub io : Stdio
  pub sync_ok : Bool
  pub rename_ok : Bool

abbrev pub path_max : ℕ
path_max = 4096

-- The loop that writes the live rows: whether all calls succeeded, and the temporary file.
pub write_live : Platform → Stdio → ℤ → List (Option Row) → Bytes → Bool × Bytes
write_live p io now [] tmp = (true, tmp)
write_live p io now (none ∷ slots) tmp = write_live p io now slots tmp
write_live p io now (some row ∷ slots) tmp =
    let (ok, tmp') = append_db_row p.heap p.zlib io tmp row.key row.value row.expire_at in
    if not (is_live row now)
    then write_live p io now slots tmp
    else if ok
    then write_live p io now slots tmp'
    else (false, tmp')

-- `fflush`, `fsync`, `rename`, and the `unlink` where one of them fails.
abbrev pub publish : Calls → Bool × Bytes → Directory → Bool × Directory
publish calls (false, tmp) dir = (false, record dir { tmp = none })
publish calls (true, tmp) dir =
    if not calls.sync_ok
    then (false, record dir { tmp = none })
    else if not calls.rename_ok
    then (false, record dir { tmp = none })
    else (true, record { db = tmp; tmp = none })

abbrev pub rewrite : Platform → Calls → ℤ → ℕ → List (Option Row) → Directory → Bool × Directory
rewrite p calls now path_len slots dir =
    if leb path_max (path_len + 4)
    then (false, dir)
    else if not calls.open_ok
    then (false, dir)
    else if not calls.fdopen_ok
    then (false, record dir { tmp = none })
    else publish calls (write_live p calls.io now slots []) dir

-- What `db_rewrite_compact` leaves: whether it returned 0, and the directory.
pub data Compacted : Type 0 where
  compacted : Bool → Directory → Compacted
  overran : Compacted

abbrev pub rewrite_loaded : Platform → Calls → ℤ → ℕ → Directory → Option Loaded → Option Compacted
rewrite_loaded p calls now path_len dir none = none
rewrite_loaded p calls now path_len dir (some aborted) = some overran
rewrite_loaded p calls now path_len dir (some (loaded false index)) = some (compacted false dir)
rewrite_loaded p calls now path_len dir (some (loaded true index)) =
    let (ok, dir') = rewrite p calls now path_len index.slots dir in some (compacted ok dir')

-- `db_rewrite_compact` on a path of `path_len` bytes; `error` is whether reading the database fails.
unfoldable pub db_rewrite_compact : Platform → Calls → ℤ → ℕ → Bool → Directory → Option Compacted
db_rewrite_compact p calls now path_len error dir =
    rewrite_loaded p calls now path_len dir
      (load_latest_rows p (record { text = dir.db; error = error }) zero_index)

-- `strncmp(key, prefix, strlen(prefix)) != 0`, where there is a prefix.
abbrev pub passes : Option Bytes → Bytes → Bool
passes none key = true
passes (some prefix) key = starts_with prefix key

-- The loop of `print_rows`: the text on the standard output.
abbrev pub print_slots : Option Bytes → ℤ → List (Option Row) → Bytes
print_slots prefix now [] = []
print_slots prefix now (none ∷ slots) = print_slots prefix now slots
print_slots prefix now (some row ∷ slots) =
    let rest = print_slots prefix now slots in
    if not (is_live row now)
    then rest
    else if not (passes prefix row.key)
    then rest
    else row.key ++ tab ∷ (row.value ++ newline ∷ rest)

-- What `print_rows` leaves: -1, or the text that it printed.
pub data Listing : Type 0 where
  listed : Bytes → Listing
  refused : Listing
  cut_off : Listing

abbrev pub list_loaded : Option Bytes → ℤ → Option Loaded → Option Listing
list_loaded prefix now none = none
list_loaded prefix now (some aborted) = some cut_off
list_loaded prefix now (some (loaded false index)) = some refused
list_loaded prefix now (some (loaded true index)) =
    some (listed (print_slots prefix now index.slots))

-- `print_rows`
unfoldable pub print_rows : Platform → File → Option Bytes → ℤ → Option Listing
print_rows p file prefix now = list_loaded prefix now (load_latest_rows p file zero_index)
