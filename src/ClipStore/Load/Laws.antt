-- ===== src/ClipStore/Load/Laws.antt =====
-- Loading the database file (db_query.c) against its description: a key has the row of the last line
-- that names it.
use stream_data_pipline.Prelude.{
  ◌^◌, ◌≤◌, ◌<◌, ◌≡◌, ◌≢◌, refl, ap, ◌∙◌, Bool, true, false, not, Option, none, some, List, [], ◌∷◌,
  arith, inl, inr, Bool-cases, if◌then◌else◌, length,
}
use stream_data_pipline.Prelude.Bytes.{Bytes, str_eq}
use stream_data_pipline.ClipStore.Row.{Row}
use stream_data_pipline.ClipStore.Index.{RowIndex, Memory, zero_index, put, copies}
use stream_data_pipline.ClipStore.Index.Insert.{view}
use stream_data_pipline.ClipStore.Index.Grow.{IsIndex}
use stream_data_pipline.ClipStore.Index.Refine.{Puts, put-Puts, get-view}
use stream_data_pipline.ClipStore.Format.{Parsed, parsed, rejected, crashed, parse_db_row}
use stream_data_pipline.ClipStore.Format.Total.{Returns, parse_db_row-Returns}
use stream_data_pipline.ClipStore.Load.{
  File, Platform, lines_of, chop, Loaded, loaded, put_then, take_in, load_lines, check_error,
  load_latest_rows, Found, failed, missing, found, load_latest_row, look_up, copy_found,
}

abbrev pub row_onto : Option Parsed → List Row → List Row
row_onto none rows = rows
row_onto (some rejected) rows = rows
row_onto (some crashed) rows = rows
row_onto (some (parsed row)) rows = row ∷ rows

-- The rows that stand in the file, in order; a line that is no row is passed over.
unfoldable pub rows_of : Platform → List Bytes → List Row
rows_of p [] = []
rows_of p (line ∷ lines) = row_onto (parse_db_row p.heap p.zlib (chop line)) (rows_of p lines)

-- The last of the rows of a key, or what was there before.
unfoldable pub latest : Option Row → List Row → Bytes → Option Row
latest old [] key = old
latest old (row ∷ rows) key = latest (if str_eq row.key key then some row else old) rows key

-- What a file must be for its loading to be described: no line is monstrous, and no value fills the
-- buffer that it is decompressed into.
abbrev pub IsReadable : Platform → List Bytes → Type 0
IsReadable p [] = Unit
IsReadable p (line ∷ lines) =
    (length line < 2 ^ 61)
    × (parse_db_row p.heap p.zlib (chop line) ≢ some crashed)
    × IsReadable p lines

pub record Loads (t : RowIndex) (rows : List Row) (result : Option Loaded) : Type 0 where
  pub done : Bool
  pub after : RowIndex
  pub returns : result ≡ some (loaded done after)
  pub index : IsIndex after
  pub views :
      done ≡ true → (key : Bytes) → view after.slots key ≡ latest (view t.slots key) rows key

put_then-Loads :
    (m : Memory) (row : Row) (rows : List Row) (next : RowIndex → Option Loaded) (t : RowIndex)
    → Puts t row (put m t row)
    → ((u : RowIndex) → IsIndex u → Loads u rows (next u))
    → Loads t (row ∷ rows) (put_then (put m t row) next)
unfolding latest
put_then-Loads m row rows next t p go = elim (Bool-cases p.done) [
  | inl stored ↦
      let r = go p.after p.index in
      record {
        done = r.done;
        after = r.after;
        returns = rw (p.returns, stored) r.returns;
        index = r.index;
        views = λ ok key.
            r.views ok key ∙ ap (λ (o : Option Row). latest o rows key) (p.stores stored key);
      }
  | inr refused ↦ record {
    done = false;
    after = p.after;
    returns = rw (p.returns, refused) refl;
    index = p.index;
    views = λ x. cc;
  }
]

take_in-Loads :
    (m : Memory) (q : Option Parsed) (rows : List Row) (next : RowIndex → Option Loaded)
    (t : RowIndex)
    → Returns q
    → q ≢ some crashed
    → IsIndex t
    → ((u : RowIndex) → IsIndex u → Loads u rows (next u))
    → Loads t (row_onto q rows) (take_in m q next t)
take_in-Loads m none rows next t r ne it go = absurd r
take_in-Loads m (some rejected) rows next t r ne it go = go t it
take_in-Loads m (some crashed) rows next t r ne it go = absurd (ne refl)
take_in-Loads m (some (parsed row)) rows next t r ne it go =
    put_then-Loads m row rows next t (put-Puts m t row it) go

length-chop : (s : Bytes) → length (chop s) ≤ length s
unfolding chop
length-chop [] = omega arith
length-chop (c ∷ s) = ground (arith, length-chop s)

load_lines-Loads :
    (p : Platform) (lines : List Bytes) (t : RowIndex)
    → IsReadable p lines
    → IsIndex t
    → Loads t (rows_of p lines) (load_lines p lines t)
unfolding load_lines rows_of latest
load_lines-Loads p [] t h it = record {
  done = true;
  after = t;
  returns = refl;
  index = it;
  views = λ x key. refl;
}
load_lines-Loads p (line ∷ lines) t h it =
    take_in-Loads p.memory (parse_db_row p.heap p.zlib (chop line)) (rows_of p lines)
      (load_lines p lines) t
      (parse_db_row-Returns p.heap p.zlib (chop line) (omega (arith, length-chop line))) h.1 it
      (λ u iu. load_lines-Loads p lines u h.2 iu)

-- `load_latest_rows` into a well-formed index returns for a file no line of which has 2^61 bytes, or a
-- value that fills the buffer that it is decompressed into. It leaves a well-formed index, and if it
-- reports success then a key has the row of the last line of the file that names it, or the row it had
-- before.
pub load_latest_rows-Loads :
    (p : Platform) (file : File) (t : RowIndex)
    → IsReadable p (lines_of file.text)
    → IsIndex t
    → Loads t (rows_of p (lines_of file.text)) (load_latest_rows p file t)
unfolding load_latest_rows
load_latest_rows-Loads p file t h it =
    checked file.error (load_lines p (lines_of file.text) t)
      (load_lines-Loads p (lines_of file.text) t h it)
  where
    checked :
        (error : Bool) (result : Option Loaded)
        → Loads t (rows_of p (lines_of file.text)) result
        → Loads t (rows_of p (lines_of file.text)) (check_error error result)
    checked error result l = elim (Bool-cases l.done) [
      | inl ok ↦ record {
        done = not error;
        after = l.after;
        returns = rw (l.returns, ok) refl;
        index = l.index;
        views = λ x. l.views ok;
      }
      | inr bad ↦ record {
        done = false;
        after = l.after;
        returns = rw (l.returns, bad) refl;
        index = l.index;
        views = λ x. cc;
      }
    ]

-- The answer of `load_latest_row` when the index is there: the row is copied for the caller.
abbrev pub answer : Memory → Option Row → Found
answer m none = missing
answer m (some row) = if copies m row then found row else failed

copy_found-answer : (m : Memory) (o : Option Row) → copy_found m (some o) ≡ some (answer m o)
copy_found-answer m none = refl
copy_found-answer m (some row) = refl

-- `load_latest_row` returns for a file no line of which has 2^61 bytes, or a value that fills the buffer
-- that it is decompressed into: -1 if loading fails, and otherwise 0 if no line of the file names the
-- key, and the row of the last line that does, or -1 if that row cannot be copied for the caller.
pub load_latest_row-latest :
    (p : Platform) (file : File) (key : Bytes)
    → IsReadable p (lines_of file.text)
    → (done : Bool) × (after : RowIndex) × (load_latest_rows p file zero_index
        ≡ some (loaded done after))
      × (load_latest_row p file key
          ≡ some (
              if done
              then answer p.memory (latest none (rows_of p (lines_of file.text)) key)
              else failed))
unfolding load_latest_row view
load_latest_row-latest p file key h =
    let l = load_latest_rows-Loads p file zero_index h (inl refl) in
    (l.done, l.after, l.returns, ap (look_up p.memory key) l.returns ∙ answered l)
  where
    answered :
        (l : Loads zero_index (rows_of p (lines_of file.text)) (load_latest_rows p file zero_index))
        → look_up p.memory key (some (loaded l.done l.after))
          ≡ some (
              if l.done
              then answer p.memory (latest none (rows_of p (lines_of file.text)) key)
              else failed)
    answered l = elim (Bool-cases l.done) [
      | inl ok ↦ rw ok (
          ap (copy_found p.memory) (get-view l.after key l.index ∙ ap some (l.views ok key))
          ∙ copy_found-answer p.memory (latest none (rows_of p (lines_of file.text)) key))
      | inr bad ↦ rw bad refl
    ]
