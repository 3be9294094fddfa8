-- ===== src/ClipStore/Main.antt =====
-- applets/clip_store/clip_store.c: `clip_store_main` on the directory of its database. `getopt_long`
-- is a parameter: the options are a list. What the operating system, the clock, and the standard input
-- give is in `Host`. Usage texts and logs leave no trace.
pub mod Store
pub mod Updates
pub mod Reading
pub mod Piped
pub mod Granted
pub mod Clips
use stream_data_pipline.Prelude.{
  ℕ, suc, ◌+◌, ◌<◌, Bool, true, false, not, ◌||◌, Option, none, some, List, [], ◌∷◌, ◌++◌,
  if◌then◌else◌, length,
}
use stream_data_pipline.Prelude.Bytes.{Bytes, codes, is_empty, split_at}
use stream_data_pipline.Prelude.Decimal.{strtol, print_long}
use stream_data_pipline.Prelude.Int.{ℤ, pos, ◌+ℤ◌, ltb_ℤ}
use stream_data_pipline.Buffer.{Buffer, Allocator, empty, append_str, append_char}
use stream_data_pipline.Buffer.Steps.{try_dbuf, printed}
use stream_data_pipline.Json.{Cjson, get_string, get_int64}
use stream_data_pipline.Json.Numbers.{Double}
use stream_data_pipline.Watch.{c_string}
use stream_data_pipline.ClipStore.Row.{Row, is_zero_ℤ, is_live}
use stream_data_pipline.ClipStore.Format.{Stdio, append_db_row, newline}
use stream_data_pipline.ClipStore.Load.{
  File, Platform, Found, failed, missing, found, overran, load_latest_row,
}
use stream_data_pipline.ClipStore.Compact as Compact
use stream_data_pipline.ClipStore.Compact.{
  Directory, Calls, Compacted, compacted, db_rewrite_compact, Listing, listed, refused, cut_off,
  print_rows,
}

-- What `getopt_long` gives for one option.
pub data Opt : Type 0 where
  opt_db opt_ttl opt_set opt_get opt_prefix opt_delete : Bytes → Opt
  opt_list opt_compact opt_help opt_unknown : Opt

-- `clip_mode_t`, with the argument that is set with the mode.
pub data Mode : Type 0 where
  mode_append mode_list mode_compact : Mode
  mode_set mode_get mode_delete mode_prefix : Bytes → Mode

pub record Settings : Type 0 where
  pub db : Option Bytes
  pub ttl_arg : Bytes
  pub mode : Mode

-- What the options lead to: an exit code at once, or the settings.
pub data Options : Type 0 where
  leaves : ℕ → Options
  settings : Settings → Options

-- The loop over the options.
unfoldable pub parse_options : List Opt → Settings → Options
parse_options [] s = settings s
parse_options (opt_db path ∷ opts) s = parse_options opts (record s { db = some path })
parse_options (opt_ttl arg ∷ opts) s = parse_options opts (record s { ttl_arg = arg })
parse_options (opt_set arg ∷ opts) s = parse_options opts (record s { mode = mode_set arg })
parse_options (opt_get key ∷ opts) s = parse_options opts (record s { mode = mode_get key })
parse_options (opt_list ∷ opts) s = parse_options opts (record s { mode = mode_list })
parse_options (opt_prefix text ∷ opts) s = parse_options opts (record s { mode = mode_prefix text })
parse_options (opt_delete key ∷ opts) s = parse_options opts (record s { mode = mode_delete key })
parse_options (opt_compact ∷ opts) s = parse_options opts (record s { mode = mode_compact })
parse_options (opt_help ∷ opts) s = leaves 0
parse_options (opt_unknown ∷ opts) s = leaves 1

abbrev pub defaults : Settings
defaults = record { db = none; ttl_arg = codes "3600"; mode = mode_append }

-- The database is the option or else the first argument.
abbrev pub database : Option Bytes → List Bytes → Option Bytes
database (some path) arguments = some path
database none [] = none
database none (path ∷ arguments) = some path

-- The time to live: a whole decimal number that is not negative.
unfoldable pub parse_ttl : Bytes → Option ℤ
parse_ttl arg = elim (strtol arg) [
  | none ↦ none
  | some (n, end) ↦ if not (is_empty end) then none else if ltb_ℤ n (pos 0) then none else some n
]

-- `parse_set_expr`: the key may not be empty.
unfoldable pub parse_set_expr : Bytes → Option (Bytes × Bytes)
parse_set_expr arg = elim (split_at b'=' arg) [
  | none ↦ none
  | some (key, value) ↦ if is_empty key then none else some (key, value)
]

-- `ttl == 0 ? 0 : now + ttl`
abbrev pub expiry : ℤ → ℤ → ℤ
expiry ttl now = if is_zero_ℤ ttl then pos 0 else now +ℤ ttl

-- What the process is given; `time` is by how often it was called before. `fclose` gives what the file
-- has in the end, of what it had before and the text of the stream: the buffered part may be lost.
pub record Host (I D : Type 0) : Type 0 where
  pub opens : Bool
  pub locks : Bool
  pub streams : Bool
  pub read_error : Bool
  pub io : Stdio
  pub fclose : Bytes → Bytes → Bytes
  pub calls : Calls
  pub time : ℕ → ℤ
  pub input : List Bytes
  pub alloc : Allocator
  pub cjson : Cjson I D
  pub double : Double D

-- How a run ends: with an exit code, the directory and what is printed, or with a write behind a
-- buffer.
pub data Exit : Type 0 where
  ended : ℕ → Directory → Bytes → Exit
  crashed : Exit

abbrev pub exit_code : Bool → ℕ
exit_code true = 0
exit_code false = 1

-- The end of a mode that appends to the database: `fclose` flushes the stream, and whether it can does
-- not count. A stream that was only read has nothing to flush.
abbrev pub stored : (Bytes → Bytes → Bytes) → Directory → Bool × Bytes → Exit
stored fclose dir (done, text) = ended (exit_code done) (record dir { db = fclose dir.db text }) []

-- MODE_GET: a row that is not live is not printed.
abbrev pub show_found : Directory → ℤ → Option Found → Option Exit
show_found dir now none = none
show_found dir now (some failed) = some (ended 1 dir [])
show_found dir now (some missing) = some (ended 0 dir [])
show_found dir now (some (found row)) =
    some (ended 0 dir (if is_live row now then row.value ++ newline ∷ [] else []))
show_found dir now (some overran) = some crashed

-- MODE_LIST and MODE_PREFIX
abbrev pub show_listing : Directory → Option Listing → Option Exit
show_listing dir none = none
show_listing dir (some (listed text)) = some (ended 0 dir text)
show_listing dir (some refused) = some (ended 1 dir [])
show_listing dir (some cut_off) = some crashed

-- MODE_COMPACT
abbrev pub show_compacted : Option Compacted → Option Exit
show_compacted none = none
show_compacted (some (compacted done dir)) = some (ended (exit_code done) dir [])
show_compacted (some Compact.overran) = some crashed

module _ {I D : Type 0} (p : Platform) (host : Host I D) where
  -- A clip with its three fields.
  abbrev pub fields : Option Bytes → Option ℤ → Option Bytes → Option (Bytes × ℤ × Bytes)
  fields (some session) (some ts) (some path) = some (session, ts, path)
  fields _ _ _ = none

  -- The fields that are taken from a line of the standard input.
  unfoldable pub clip_of : Bytes → Option (Bytes × ℤ × Bytes)
  clip_of line =
      let text = c_string line in
      fields (get_string host.cjson text (codes "session_id") 128)
        (get_int64 host.cjson host.double text (codes "ts"))
        (get_string host.cjson text (codes "path") 4096)

  -- The key "session_id:ts", built in a buffer.
  unfoldable pub key_of : Bytes → ℤ → Option Bytes
  key_of session ts = printed (
      try_dbuf (append_str host.alloc empty (some session)) (λ b.
        try_dbuf (append_char host.alloc b b':')
          (λ b'. append_str host.alloc b' (some (print_long ts)))))

  abbrev pub append_key : Option Bytes → Bytes → ℤ → Bytes → Bool × Bytes
  append_key none path expire_at file = (false, file)
  append_key (some key) path expire_at file =
      append_db_row p.heap p.zlib host.io file key path expire_at

  abbrev pub behind_row : Bool × Bytes → (Bytes → Bool × Bytes) → Bool × Bytes
  behind_row (true, file) next = next file
  behind_row (false, file) next = (false, file)

  -- A round of the loop over the lines, and the rounds after it.
  abbrev pub append_clip :
      ℤ → Option (Bytes × ℤ × Bytes) → ℕ → Bytes → (ℕ → Bytes → Bool × Bytes) → Bool × Bytes
  append_clip ttl none times file next = next times file
  append_clip ttl (some (session, ts, path)) times file next =
      behind_row (append_key (key_of session ts) path (expiry ttl (host.time times)) file)
        (next (suc times))

  -- The loop of MODE_APPEND: a line that is no clip is passed over.
  unfoldable pub append_lines : ℤ → List Bytes → ℕ → Bytes → Bool × Bytes
  unfolding clip_of key_of
  append_lines ttl [] times file = (true, file)
  append_lines ttl (line ∷ lines) times file =
      append_clip ttl (clip_of line) times file (append_lines ttl lines)

  abbrev pub set_pair : ℤ → Option (Bytes × Bytes) → Directory → Exit
  set_pair ttl none dir = ended 1 dir []
  set_pair ttl (some (key, value)) dir =
      let r = append_db_row p.heap p.zlib host.io dir.db key value (expiry ttl (host.time 0)) in
      if is_empty value then ended 1 dir [] else stored host.fclose dir r

  abbrev pub file_of : Directory → File
  file_of dir = record { text = dir.db; error = host.read_error }

  -- The work of one mode on the opened database, whose path has `path_len` bytes.
  unfoldable pub run_mode : Mode → ℤ → ℕ → Directory → Option Exit
  unfolding append_lines parse_set_expr
  run_mode (mode_get key) ttl path_len dir =
      show_found dir (host.time 0) (load_latest_row p (file_of dir) key)
  run_mode (mode_set arg) ttl path_len dir = some (set_pair ttl (parse_set_expr arg) dir)
  run_mode (mode_delete key) ttl path_len dir =
      let r = append_db_row p.heap p.zlib host.io dir.db key [] (pos 0) in
      some (if is_empty key then ended 1 dir [] else stored host.fclose dir r)
  run_mode mode_list ttl path_len dir =
      show_listing dir (print_rows p (file_of dir) none (host.time 0))
  run_mode (mode_prefix text) ttl path_len dir =
      show_listing dir (print_rows p (file_of dir) (some text) (host.time 0))
  run_mode mode_compact ttl path_len dir =
      show_compacted (db_rewrite_compact p host.calls (host.time 0) path_len host.read_error dir)
  run_mode mode_append ttl path_len dir =
      some (stored host.fclose dir (append_lines ttl host.input 1 dir.db))

  abbrev pub with_ttl : Mode → Option ℤ → Bytes → Directory → Option Exit
  with_ttl mode none path dir = some (ended 1 dir [])
  with_ttl mode (some ttl) path dir =
      let r = run_mode mode ttl (length path) dir in
      if not host.opens
      then some (ended 1 dir [])
      else if not host.locks
      then some (ended 1 dir [])
      else if not host.streams
      then some (ended 1 dir [])
      else r

  abbrev pub with_database : Settings → Option Bytes → Directory → Option Exit
  with_database s none dir = some (ended 1 dir [])
  with_database s (some path) dir = with_ttl s.mode (parse_ttl s.ttl_arg) path dir

  abbrev pub with_settings : Options → List Bytes → Directory → Option Exit
  with_settings (leaves code) arguments dir = some (ended code dir [])
  with_settings (settings s) arguments dir = with_database s (database s.db arguments) dir

  -- `clip_store_main`; the arguments are those behind the options.
  unfoldable pub clip_store_main : List Opt → List Bytes → Directory → Option Exit
  unfolding parse_options parse_ttl run_mode
  clip_store_main opts arguments dir = with_settings (parse_options opts defaults) arguments dir
