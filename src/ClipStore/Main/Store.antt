-- ===== src/ClipStore/Main/Store.antt =====
-- What a row that is appended to a file of whole lines (applets/clip_store/db_format.c) does to the map
-- that the file stands for: a key has the row of the last line that names it.
use mathlib.Core.Path.{subst}
use stream_data_pipline.Prelude.{
  ◌≡◌, refl, sym, ap, ◌∙◌, Bool, true, false, Option, none, some, List, [], ◌∷◌, ◌++◌, arith,
  append-nil, length, length-append, ◌<◌, ◌^◌, ◌≢◌, append_assoc, if◌then◌else◌,
}
use stream_data_pipline.Prelude.Bytes.{Bytes, str_eq, is_empty, contains}
use stream_data_pipline.Prelude.Int.{pos}
use stream_data_pipline.ClipStore.Row.{Row}
use stream_data_pipline.ClipStore.Format.{
  Stdio, newline, append_db_row, tab, Parsed, parse_db_row, parsed, rejected, crashed,
}
use stream_data_pipline.ClipStore.Compact.{Directory}
use stream_data_pipline.ClipStore.Main.{Host, Exit, ended, exit_code, stored}
use stream_data_pipline.ClipStore.Format.Reads.{line_of}
use stream_data_pipline.ClipStore.Format.RoundTrip.{printed, tombstone_print, tombstone_reads}
use stream_data_pipline.ClipStore.Load.{Platform, lines_of, chop}
use stream_data_pipline.ClipStore.Load.Laws.{rows_of, row_onto, latest, IsReadable}
use stream_data_pipline.Prelude.Decimal.{print_long, print_ℕ, length-print_long}
use stream_data_pipline.Base64.Length.{length-encoded}
use stream_data_pipline.ClipStore.Compact.Lines.{
  unlines, IsClean, AreClean, lines_of-unlines, unlines-append, chop_clean, append-IsClean,
}
use stream_data_pipline.ClipStore.Compact.Written.{
  IsKept, Writes, kept_line, stored_line, packed, line-IsClean, line_reads, one_more,
}

-- The row that a key has in a file.
abbrev pub stored_row : Platform → Bytes → Bytes → Option Row
stored_row p text key = latest none (rows_of p (lines_of text)) key

row_onto-append :
    (o : Option Parsed) (rs ss : List Row) → row_onto o (rs ++ ss) ≡ row_onto o rs ++ ss
row_onto-append none rs ss = refl
row_onto-append (some (parsed row)) rs ss = refl
row_onto-append (some rejected) rs ss = refl
row_onto-append (some crashed) rs ss = refl

rows_of-append :
    (p : Platform) (ls ms : List Bytes) → rows_of p (ls ++ ms) ≡ rows_of p ls ++ rows_of p ms
unfolding rows_of
rows_of-append p [] ms = refl
rows_of-append p (l ∷ ls) ms =
    ap (row_onto (parse_db_row p.heap p.zlib (chop l))) (rows_of-append p ls ms)
    ∙ row_onto-append (parse_db_row p.heap p.zlib (chop l)) (rows_of p ls) (rows_of p ms)

latest-append :
    (old : Option Row) (rs ss : List Row) (key : Bytes)
    → latest old (rs ++ ss) key ≡ latest (latest old rs key) ss key
unfolding latest
latest-append old [] ss key = refl
latest-append old (r ∷ rs) ss key =
    latest-append (if str_eq r.key key then some r else old) rs ss key

append-AreClean : (ls ms : List Bytes) → AreClean ls → AreClean ms → AreClean (ls ++ ms)
append-AreClean [] ms a b = b
append-AreClean (l ∷ ls) ms a b = (a.0, append-AreClean ls ms a.1 b)

-- Whole lines behind a file of whole lines put their rows on top of those of the file.
pub stored_row-Writes :
    (p : Platform) (ls : List Bytes) (rows : List Row) (out key : Bytes)
    → AreClean ls
    → Writes p ls rows out
    → stored_row p out key ≡ latest (stored_row p (unlines ls) key) rows key
stored_row-Writes p ls rows out key clean w =
    ap (λ t. latest none (rows_of p (lines_of t)) key) w.text
    ∙ ap (λ l. latest none (rows_of p l) key)
        (lines_of-unlines (ls ++ w.new) (append-AreClean ls w.new clean w.clean))
    ∙ ap (λ r. latest none r key) (rows_of-append p ls w.new)
    ∙ latest-append none (rows_of p ls) (rows_of p w.new) key
    ∙ ap (λ r. latest (latest none (rows_of p ls) key) r key) w.reads
    ∙ ap (λ l. latest (latest none (rows_of p l) key) rows key) (sym (lines_of-unlines ls clean))

-- A key whose tombstone can be written.
pub record IsKey (key : Bytes) : Type 0 where
  pub plain : contains tab key ≡ false
  pub clean : IsClean key

abbrev pub tombstone : Bytes → Row
tombstone key = record { key = key; value = []; expire_at = pos 0 }

module _ (p : Platform) (io : Stdio) (ls : List Bytes) where
  abbrev pub added : Row → Bool × Bytes
  added row = append_db_row p.heap p.zlib io (unlines ls) row.key row.value row.expire_at

  -- A row that is appended to a file of whole lines is one more row of it.
  pub kept-Writes :
      (row : Row)
      → IsKept p row
      → is_empty row.value ≡ false
      → (added row).0 ≡ true
      → Writes p ls (row ∷ []) (added row).1
  unfolding rows_of
  kept-Writes row k full ok = one_more p io (pos 0) row k ls [] _ (record {
    new = [];
    text = kept_line p io (pos 0) row ls k full ok ∙ ap unlines (sym (append-nil _));
    clean = tt;
    reads = refl;
  })

  zero-IsClean : IsClean (tab ∷ tab ∷ print_long (pos 0))
  unfolding contains print_long print_ℕ
  zero-IsClean = (refl, refl, refl)

  abbrev tombstone_line : Bytes → Bytes
  tombstone_line key = line_of key [] (pos 0)

  tombstone_line-IsClean : (key : Bytes) → IsKey key → IsClean (tombstone_line key)
  tombstone_line-IsClean key k =
      append-IsClean key (tab ∷ tab ∷ print_long (pos 0)) k.clean zero-IsClean

  tombstone_line_reads :
      (key : Bytes)
      → IsKey key
      → parse_db_row p.heap p.zlib (chop (tombstone_line key)) ≡ some (parsed (tombstone key))
  tombstone_line_reads key k =
      ap (parse_db_row p.heap p.zlib)
        (chop_clean (tombstone_line key) (tombstone_line-IsClean key k))
      ∙ tombstone_reads p.heap p.zlib key (pos 0) k.plain (omega arith)

  tombstone-added :
      (key : Bytes)
      → (added (tombstone key)).0 ≡ true
      → (added (tombstone key)).1 ≡ unlines (ls ++ tombstone_line key ∷ [])
  tombstone-added key ok =
      printed io (unlines ls) key [] (pos 0) _
        (tombstone_print p.heap p.zlib io (unlines ls) key (pos 0)) ok
      ∙ append_assoc (unlines ls) (tombstone_line key) (newline ∷ [])
      ∙ sym (unlines-append ls (tombstone_line key ∷ []))

  pub tombstone-Writes :
      (key : Bytes)
      → IsKey key
      → (added (tombstone key)).0 ≡ true
      → Writes p ls (tombstone key ∷ []) (added (tombstone key)).1
  unfolding rows_of
  tombstone-Writes key k ok = record {
    new = tombstone_line key ∷ [];
    text = tombstone-added key ok;
    clean = (tombstone_line-IsClean key k, tt);
    reads = ap (λ q. row_onto q []) (tombstone_line_reads key k);
  }

not_crashed : (row : Row) → some (parsed row) ≢ some crashed
not_crashed row e = cc

IsReadable-append :
    (p : Platform) (ls ms : List Bytes)
    → IsReadable p ls
    → IsReadable p ms
    → IsReadable p (ls ++ ms)
IsReadable-append p [] ms a b = b
IsReadable-append p (l ∷ ls) ms (short, sound, a) b = (short, sound, IsReadable-append p ls ms a b)

-- A file of whole lines stays readable when whole readable lines are written behind it.
more-IsReadable :
    (p : Platform) (ls ms : List Bytes) (out : Bytes)
    → AreClean ls
    → AreClean ms
    → IsReadable p ls
    → IsReadable p ms
    → out ≡ unlines (ls ++ ms)
    → IsReadable p (lines_of out)
more-IsReadable p ls ms out a b r s e =
    subst (IsReadable p)
      (sym (ap lines_of e ∙ lines_of-unlines (ls ++ ms) (append-AreClean ls ms a b)))
      (IsReadable-append p ls ms r s)

module _ (p : Platform) (io : Stdio) (ls : List Bytes) (clean : AreClean ls)
    (readable : IsReadable p ls) where
  pub kept-IsReadable :
      (row : Row)
      → IsKept p row
      → length row.key < 2 ^ 59
      → is_empty row.value ≡ false
      → (added p io ls row).0 ≡ true
      → IsReadable p (lines_of (added p io ls row).1)
  kept-IsReadable row k small full ok =
      let l = length-append row.key (tab ∷ (packed p row k ++ tab ∷ print_long row.expire_at)) in
      let l' = length-append (packed p row k) (tab ∷ print_long row.expire_at) in
      let e = length-encoded k.comp in
      let d = length-print_long row.expire_at in
      let c = k.storable.small_comp in
      more-IsReadable p ls (stored_line p row k ∷ []) _ clean (line-IsClean p row k, tt) readable
        (omega (arith, l, l', e, d, c), (λ h. not_crashed row (sym (line_reads p row k) ∙ h)), tt)
        (kept_line p io (pos 0) row ls k full ok)

  pub tombstone-IsReadable :
      (key : Bytes)
      → IsKey key
      → length key < 2 ^ 59
      → (added p io ls (tombstone key)).0 ≡ true
      → IsReadable p (lines_of (added p io ls (tombstone key)).1)
  tombstone-IsReadable key k small ok =
      let l = length-append key (tab ∷ tab ∷ print_long (pos 0)) in
      let d = length-print_long (pos 0) in
      more-IsReadable p ls (tombstone_line p io ls key ∷ []) _ clean
        (tombstone_line-IsClean p io ls key k, tt) readable
        (
          omega (arith, l, d),
          (λ h. not_crashed (tombstone key) (sym (tombstone_line_reads p io ls key k) ∙ h)),
          tt,
        )
        (tombstone-added p io ls key ok)

-- `fclose` writes everything that is buffered.
abbrev pub Flushes : {I D : Type 0} → Host I D → Type 0
Flushes host = (file text : Bytes) → host.fclose file text ≡ text

-- The end of a mode with the text of the stream in the file.
abbrev pub flushed : Directory → Bool × Bytes → Exit
flushed dir (done, text) = ended (exit_code done) (record dir { db = text }) []

pub stored-flushed :
    {I D : Type 0} (host : Host I D)
    → Flushes host
    → (dir : Directory) (q : Bool × Bytes) → stored host.fclose dir q ≡ flushed dir q
stored-flushed host flush dir (done, text) =
    ap (λ t. ended (exit_code done) (record dir { db = t }) []) (flush dir.db text)
