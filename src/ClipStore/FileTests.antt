-- ===== src/ClipStore/FileTests.antt =====
-- Runs of the clip database on small files, and its theorems at them. The compressor of these runs
-- stores a text behind one byte.
use mathlib.Core.Path.{subst}
use stream_data_pipline.Prelude.{
  ℕ, ◌+◌, ◌*◌, ◌^◌, ◌≡◌, ◌≢◌, refl, sym, ap, ◌∙◌, Bool, true, false, some, none, inl, inr, [], ◌∷◌,
  ◌++◌, arith, ltb, leb, leb→le, ltb→lt, Option, if◌then◌else◌, length, Bool-cases,
}
use stream_data_pipline.Prelude.Bytes.{Bytes, codes, str_eq, split_at, contains, starts_with}
use stream_data_pipline.Prelude.Int.{pos}
use stream_data_pipline.Prelude.Decimal.{strtol}
use stream_data_pipline.Base64.RoundTrip.{AreBytes}
use stream_data_pipline.ClipStore.Row.{Row, is_live}
use stream_data_pipline.ClipStore.Index.{RowIndex, Memory, zero_index, size_max}
use stream_data_pipline.ClipStore.Format.{
  Heap, Zlib, Stdio, Inflated, inflated, short, corrupt, Parsed, parsed, crashed, append_db_row,
  parse_db_row, parse_fields, tab,
}
use stream_data_pipline.ClipStore.Format.Inflate.{Compresses}
use stream_data_pipline.ClipStore.Format.Reads as FormatReads
use stream_data_pipline.ClipStore.Format.RoundTrip as FormatRoundTrip
use stream_data_pipline.ClipStore.Format.Total as FormatTotal
use stream_data_pipline.ClipStore.Load.{
  File, Platform, loaded, lines_of, chop, load_latest_rows, load_latest_row, failed,
}
use stream_data_pipline.ClipStore.Load.Laws as LoadLaws
use stream_data_pipline.ClipStore.Compact.{
  Directory, Calls, compacted, db_rewrite_compact, listed, refused, print_rows,
}
use stream_data_pipline.ClipStore.Compact.Listings as CompactListings
use stream_data_pipline.ClipStore.Compact.Preserves as CompactPreserves
use stream_data_pipline.ClipStore.Compact.Written as CompactWritten

abbrev pub ample_heap : Heap
ample_heap = record { malloc_ok = λ n. ltb n (2 ^ 63); malloc_bound = λ n e. ltb→lt n (2 ^ 63) e }

abbrev unstored : Bytes → ℕ → Inflated
unstored [] n = corrupt
unstored (c ∷ s) n = if leb (length s) n then inflated s else short

abbrev pub store : Zlib
store = record {
  compress_bound = λ n. n + 1;
  compress = λ v n. some (1 ∷ v);
  uncompress = unstored;
}

abbrev pub appending : Stdio
appending = record {
  seek_ok = λ file. true;
  print = λ file text. (true, file ++ text);
  print_adds = λ file text ok. refl;
}

abbrev pub plenty : Memory
plenty = record {
  calloc_ok = λ n. leb (n * 32) size_max;
  calloc_bound = λ n e. leb→le (n * 32) size_max e;
  strdup_ok = λ s. true;
}

abbrev pub platform : Platform
platform = record { heap = ample_heap; zlib = store; memory = plenty }

pub store-Compresses : (v : Bytes) → AreBytes v → Compresses store v (1 ∷ v)
store-Compresses v b = record {
  bytes = (omega arith, b);
  nonempty = cc;
  restores = λ n h. ground arith;
  asks = λ n h. ground arith;
}

abbrev clip_row : Row
clip_row = record { key = codes "k"; value = codes "up"; expire_at = pos 90 }

clip_row-IsStorable : FormatReads.IsStorable ample_heap store clip_row (1 ∷ codes "up")
unfolding contains
clip_row-IsStorable = record {
  ample = λ n h. ground arith;
  bound = omega arith;
  compressed = refl;
  law = store-Compresses (codes "up") (omega arith, (omega arith, tt));
  small = omega arith;
  small_comp = omega arith;
  key_plain = refl;
  value_plain = refl;
  long = omega arith;
}

append_db_row-Stores_example :
    FormatRoundTrip.Stores []
      (append_db_row ample_heap store appending [] (codes "k") (codes "up") (pos 90))
      (λ line. FormatReads.ReadsBack clip_row (1 ∷ codes "up") (parse_db_row ample_heap store line))
append_db_row-Stores_example =
    FormatRoundTrip.append_db_row-Stores ample_heap store appending [] clip_row (1 ∷ codes "up")
      clip_row-IsStorable refl

k_plain : contains tab (codes "k") ≡ false
unfolding contains
k_plain = refl

parse_db_row-Returns_example :
    FormatTotal.Returns (parse_db_row ample_heap store (codes "k\tZ:AXVw\t90"))
parse_db_row-Returns_example =
    FormatTotal.parse_db_row-Returns ample_heap store (codes "k\tZ:AXVw\t90") (omega arith)

-- A file with one plain row.
abbrev small_file : File
small_file = record { text = codes "k\tup\t90\n"; error = false }

abbrev small_line : Bytes
small_line = codes "k\tup\t90"

small_lines : lines_of small_file.text ≡ small_line ∷ []
unfolding lines_of
small_lines = refl

small_parsed : parse_db_row ample_heap store (chop small_line) ≡ some (parsed clip_row)
unfolding parse_db_row chop split_at parse_fields strtol starts_with
small_parsed = refl

small-IsReadable : LoadLaws.IsReadable platform (lines_of small_file.text)
small-IsReadable =
    subst (LoadLaws.IsReadable platform) (sym small_lines)
      (omega arith, (λ e. not_crash (sym small_parsed ∙ e)), tt)
  where
    not_crash : some (parsed clip_row) ≢ some crashed
    not_crash e = cc

load_latest_rows-Loads_example :
    LoadLaws.Loads zero_index
      (LoadLaws.rows_of platform (lines_of small_file.text))
      (load_latest_rows platform small_file zero_index)
load_latest_rows-Loads_example =
    LoadLaws.load_latest_rows-Loads platform small_file zero_index small-IsReadable (inl refl)

load_latest_row-latest_example :
    (done : Bool) × (after : RowIndex) × (load_latest_rows platform small_file zero_index
      ≡ some (loaded done after))
    × (load_latest_row platform small_file (codes "k")
        ≡ some (
            if done
            then LoadLaws.answer plenty (
                LoadLaws.latest none
                  (LoadLaws.rows_of platform (lines_of small_file.text))
                  (codes "k"))
            else failed))
load_latest_row-latest_example =
    LoadLaws.load_latest_row-latest platform small_file (codes "k") small-IsReadable

small_rows : LoadLaws.rows_of platform (lines_of small_file.text) ≡ clip_row ∷ []
unfolding LoadLaws.rows_of
small_rows =
    ap (LoadLaws.rows_of platform) small_lines
    ∙ ap (λ (q : Option Parsed). LoadLaws.row_onto q []) small_parsed

abbrev pub calls : Calls
calls = record {
  open_ok = true;
  fdopen_ok = true;
  io = appending;
  sync_ok = true;
  rename_ok = true;
}

abbrev directory : Directory
directory = record { db = codes "k\tup\t90\n"; tmp = none }

clip_row-IsKept : CompactWritten.IsKept platform clip_row
unfolding contains
clip_row-IsKept = record {
  comp = 1 ∷ codes "up";
  storable = clip_row-IsStorable;
  clean = (refl, refl, refl);
  fits = omega arith;
}

latest_single : (row r : Row) (key : Bytes) → LoadLaws.latest none (r ∷ []) key ≡ some row → row ≡ r
unfolding LoadLaws.latest
latest_single row r key h = elim (Bool-cases (str_eq r.key key)) [
  | inl e ↦ ground arith
  | inr e ↦ ground arith
]

keeps_small :
    (row : Row)
    → is_live row (pos 50) ≡ true
    → LoadLaws.latest none (LoadLaws.rows_of platform (lines_of directory.db)) row.key ≡ some row
    → CompactWritten.IsKept platform row
keeps_small row live h =
    subst (CompactWritten.IsKept platform)
      (sym (
        latest_single row clip_row row.key
          (ap (λ rs. LoadLaws.latest none rs row.key) (sym small_rows) ∙ h)))
      clip_row-IsKept

db_rewrite_compact-preserves_example :
    (done : Bool) × (after : Directory) × (db_rewrite_compact platform calls
        (pos 50)
        6
        false
        directory
      ≡ some (compacted done after))
    × (done ≡ false → after.db ≡ directory.db)
    × (done ≡ true
        → (key : Bytes)
        → LoadLaws.latest none (LoadLaws.rows_of platform (lines_of after.db)) key
          ≡ CompactPreserves.live_only
              (pos 50)
              (LoadLaws.latest none (LoadLaws.rows_of platform (lines_of directory.db)) key))
db_rewrite_compact-preserves_example =
    CompactPreserves.db_rewrite_compact-preserves platform calls (pos 50) directory 6 false
      small-IsReadable keeps_small

print_rows-IsListing_example :
    (done : Bool) × (after : RowIndex) × (load_latest_rows platform small_file zero_index
      ≡ some (loaded done after))
    × (done ≡ false → print_rows platform small_file (some (codes "k")) (pos 50) ≡ some refused)
    × (done ≡ true
        → (text : Bytes) × (print_rows platform small_file (some (codes "k")) (pos 50)
            ≡ some (listed text))
          × CompactListings.IsListing platform small_file (some (codes "k")) (pos 50) text)
print_rows-IsListing_example =
    CompactListings.print_rows-IsListing platform small_file (some (codes "k")) (pos 50)
      small-IsReadable
