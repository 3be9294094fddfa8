-- ===== src/ClipStore/Load.antt =====
-- applets/clip_store/db_query.c: building the index from the lines of the database file, and looking
-- up one key. A file is what `getline` delivers from it and whether reading it ended in an error.
pub mod Laws
use stream_data_pipline.Prelude.{
  ℕ, ◌≡◌, Bool, true, false, not, ◌||◌, Option, none, some, List, [], ◌∷◌, ◌==◌, if◌then◌else◌,
}
use stream_data_pipline.Prelude.Bytes.{Bytes}
use stream_data_pipline.ClipStore.Row.{Row}
use stream_data_pipline.ClipStore.Index.{RowIndex, Memory, put, get, copies, zero_index}
use stream_data_pipline.ClipStore.Format.{
  Heap, Zlib, Parsed, parsed, rejected, crashed, newline, parse_db_row,
}

pub record File : Type 0 where
  pub text : Bytes
  pub error : Bool

-- The environment of the database functions.
pub record Platform : Type 0 where
  pub heap : Heap
  pub zlib : Zlib
  pub memory : Memory

abbrev first_of : ℕ → List Bytes → List Bytes
first_of c [] = (c ∷ []) ∷ []
first_of c (l ∷ ls) = (c ∷ l) ∷ ls

-- What the calls of `getline` deliver, without the line ends.
unfoldable pub lines_of : Bytes → List Bytes
lines_of [] = []
lines_of (c ∷ s) = if c == newline then [] ∷ lines_of s else first_of c (lines_of s)

-- `line[strcspn(line, "\r\n")] = '\0'`
unfoldable pub chop : Bytes → Bytes
chop [] = []
chop (c ∷ s) = if c == 0 || c == 13 || c == newline then [] else c ∷ chop s

-- What `load_latest_rows` leaves: whether it returned 0, and the index; or it wrote behind a buffer.
pub data Loaded : Type 0 where
  loaded : Bool → RowIndex → Loaded
  aborted : Loaded

abbrev pub put_then : Option (Bool × RowIndex) → (RowIndex → Option Loaded) → Option Loaded
put_then none next = none
put_then (some (true, index)) next = next index
put_then (some (false, index)) next = some (loaded false index)

-- A round of the loop on what `parse_db_row` gave, and the rounds after it.
abbrev pub take_in : Memory → Option Parsed → (RowIndex → Option Loaded) → RowIndex → Option Loaded
take_in m none next index = none
take_in m (some rejected) next index = next index
take_in m (some crashed) next index = some aborted
take_in m (some (parsed row)) next index = put_then (put m index row) next

pub load_lines : Platform → List Bytes → RowIndex → Option Loaded
load_lines p [] index = some (loaded true index)
load_lines p (line ∷ lines) index =
    take_in p.memory (parse_db_row p.heap p.zlib (chop line)) (load_lines p lines) index

abbrev pub check_error : Bool → Option Loaded → Option Loaded
check_error error none = none
check_error error (some aborted) = some aborted
check_error error (some (loaded false index)) = some (loaded false index)
check_error error (some (loaded true index)) = some (loaded (not error) index)

-- `load_latest_rows`
unfoldable pub load_latest_rows : Platform → File → RowIndex → Option Loaded
load_latest_rows p file index = check_error file.error (load_lines p (lines_of file.text) index)

-- What `load_latest_row` returns: -1, 0, or 1 with the row.
pub data Found : Type 0 where
  failed : Found
  missing : Found
  found : Row → Found
  overran : Found

abbrev pub copy_found : Memory → Option (Option Row) → Option Found
copy_found m none = none
copy_found m (some none) = some missing
copy_found m (some (some row)) = some (if copies m row then found row else failed)

abbrev pub look_up : Memory → Bytes → Option Loaded → Option Found
look_up m key none = none
look_up m key (some aborted) = some overran
look_up m key (some (loaded false index)) = some failed
look_up m key (some (loaded true index)) = copy_found m (get index key)

-- `load_latest_row`
unfoldable pub load_latest_row : Platform → File → Bytes → Option Found
load_latest_row p file key = look_up p.memory key (load_latest_rows p file zero_index)
