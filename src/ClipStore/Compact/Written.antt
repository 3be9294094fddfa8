-- ===== src/ClipStore/Compact/Written.antt =====
-- What the loop of a compaction writes (db_compact.c): whole lines, which are read back as the live rows.
use stream_data_pipline.Prelude.{
  ℕ, zero, suc, ◌+◌, ◌*◌, ◌≤◌, ◌<◌, ◌^◌, ◌≡◌, ◌≢◌, refl, sym, ap, ◌∙◌, Bool, true, false, Option,
  none, some, List, [], ◌∷◌, ◌++◌, arith, inl, inr, Bool-cases, if◌then◌else◌, ltb, length,
  append-nil, append_assoc,
}
use stream_data_pipline.Prelude.Bytes.{Bytes, contains, is_empty}
use stream_data_pipline.Prelude.Int.{ℤ}
use stream_data_pipline.Prelude.Decimal.{contains-print_long, print_long}
use stream_data_pipline.Base64.RoundTrip.{encoded}
use stream_data_pipline.Base64.Plain.{contains-encoded}
use stream_data_pipline.ClipStore.Row.{Row, is_live, is_tombstone}
use stream_data_pipline.ClipStore.Format.{
  Stdio, Parsed, parsed, append_db_row, parse_db_row, newline, tab,
}
use stream_data_pipline.ClipStore.Format.Reads.{
  IsStorable, line_of, read_into, reads_back, ReadsBack, pack_eq,
}
use stream_data_pipline.ClipStore.Format.RoundTrip.{printed, appended}
use stream_data_pipline.ClipStore.Format.Inflate.{double_pow}
use stream_data_pipline.ClipStore.Load.{Platform, chop}
use stream_data_pipline.ClipStore.Load.Laws.{rows_of, row_onto}
use stream_data_pipline.ClipStore.Compact.{write_live}
use stream_data_pipline.ClipStore.Compact.Lines.{
  unlines, IsClean, AreClean, unlines-append, chop_clean, append-IsClean,
}

-- A row that can be written and read back: its value leaves room in the first buffer of its reader.
pub record IsKept (p : Platform) (row : Row) : Type 0 where
  pub comp : Bytes
  pub storable : IsStorable p.heap p.zlib row comp
  pub clean : IsClean row.key
  pub fits : length row.value < length comp * 4 + 1024

-- The rows that compaction keeps, in the order of the buckets.
unfoldable pub live_rows : ℤ → List (Option Row) → List Row
live_rows now [] = []
live_rows now (none ∷ s) = live_rows now s
live_rows now (some row ∷ s) = if is_live row now then row ∷ live_rows now s else live_rows now s

abbrev pub AreKept : Platform → ℤ → List (Option Row) → Type 0
AreKept p now [] = Unit
AreKept p now (none ∷ s) = AreKept p now s
AreKept p now (some row ∷ s) = (is_live row now ≡ true → IsKept p row) × AreKept p now s

le_doubled : (size k : ℕ) → size ≤ size * 2 ^ k
le_doubled size zero = omega arith
le_doubled size (suc k) = omega (arith, le_doubled (size * 2) k, double_pow size k)

module _ (p : Platform) (row : Row) (k : IsKept p row) where
  abbrev pub packed : Bytes
  packed = b'Z' ∷ b':' ∷ encoded k.comp

  abbrev pub stored_line : Bytes
  stored_line = line_of row.key packed row.expire_at

  pub number-IsClean : IsClean (print_long row.expire_at)
  number-IsClean = (
    contains-print_long 0 row.expire_at (omega arith),
    contains-print_long 13 row.expire_at (omega arith),
    contains-print_long newline row.expire_at (omega arith),
  )

  packed-IsClean : IsClean packed
  unfolding contains
  packed-IsClean =
      let b = k.storable.law.bytes in
      (
        rw (contains, contains-encoded 0 k.comp b (omega arith)) refl,
        rw (contains, contains-encoded 13 k.comp b (omega arith)) refl,
        rw (contains, contains-encoded newline k.comp b (omega arith)) refl,
      )

  tab-IsClean : IsClean (tab ∷ [])
  unfolding contains
  tab-IsClean = (refl, refl, refl)

  pub line-IsClean : IsClean stored_line
  line-IsClean = append-IsClean row.key _ k.clean (
      append-IsClean (tab ∷ []) _ tab-IsClean (
        append-IsClean packed _ packed-IsClean
          (append-IsClean (tab ∷ []) _ tab-IsClean number-IsClean)))

  pub line_reads : parse_db_row p.heap p.zlib (chop stored_line) ≡ some (parsed row)
  line_reads =
      let r = reads_back p.heap p.zlib row k.comp k.storable in
      ap (parse_db_row p.heap p.zlib) (chop_clean stored_line line-IsClean) ∙ r.returns ∙ roomy r
    where
      roomy :
          (r : ReadsBack row k.comp (parse_db_row p.heap p.zlib stored_line))
          → some (read_into ((length k.comp * 4 + 1024) * 2 ^ r.doublings) row) ≡ some (parsed row)
      roomy r =
          let l : ltb (length row.value) ((length k.comp * 4 + 1024) * 2 ^ r.doublings) ≡ true =
            ground (arith, k.fits, le_doubled (length k.comp * 4 + 1024) r.doublings) in
          rw l refl

live_full : (row : Row) (now : ℤ) → is_live row now ≡ true → is_empty row.value ≡ false
unfolding is_live is_tombstone
live_full row now h = ground arith

-- What the loop of a compaction adds to a file of whole lines.
pub record Writes (p : Platform) (ls : List Bytes) (rows : List Row) (out : Bytes) : Type 0 where
  pub new : List Bytes
  pub text : out ≡ unlines (ls ++ new)
  pub clean : AreClean new
  pub reads : rows_of p new ≡ rows

module _ (p : Platform) (io : Stdio) (now : ℤ) where
  pub kept_line :
      (row : Row) (ls : List Bytes) (k : IsKept p row)
      → is_empty row.value ≡ false
      → (append_db_row p.heap p.zlib io (unlines ls) row.key row.value row.expire_at).0 ≡ true
      → (append_db_row p.heap p.zlib io (unlines ls) row.key row.value row.expire_at).1
        ≡ unlines (ls ++ stored_line p row k ∷ [])
  kept_line row ls k full ok =
      printed io (unlines ls) row.key (packed p row k) row.expire_at _
        (appended p.heap p.zlib io (unlines ls) row.key row.value (packed p row k) row.expire_at
          full (pack_eq p.heap p.zlib row k.comp k.storable))
        ok
      ∙ append_assoc (unlines ls) (stored_line p row k) (newline ∷ [])
      ∙ sym (unlines-append ls (stored_line p row k ∷ []))

  pub one_more :
      (row : Row) (k : IsKept p row) (ls : List Bytes) (rows : List Row) (out : Bytes)
      → Writes p (ls ++ stored_line p row k ∷ []) rows out
      → Writes p ls (row ∷ rows) out
  unfolding rows_of
  one_more row k ls rows out w = record {
    new = stored_line p row k ∷ w.new;
    text = w.text ∙ ap unlines (append_assoc ls (stored_line p row k ∷ []) w.new);
    clean = (line-IsClean p row k, w.clean);
    reads =
        ap (λ (q : Option Parsed). row_onto q (rows_of p w.new)) (line_reads p row k)
        ∙ ap (λ (t : List Row). row ∷ t) w.reads;
  }

  skips :
      (row : Row) (s : List (Option Row)) (tmp : Bytes)
      → is_live row now ≡ false
      → write_live p io now (some row ∷ s) tmp ≡ write_live p io now s tmp
  unfolding write_live
  skips row s tmp dead = rw dead refl

  goes_on :
      (row : Row) (s : List (Option Row)) (tmp : Bytes)
      → is_live row now ≡ true
      → (append_db_row p.heap p.zlib io tmp row.key row.value row.expire_at).0 ≡ true
      → write_live p io now (some row ∷ s) tmp
        ≡ write_live p io now s
            (append_db_row p.heap p.zlib io tmp row.key row.value row.expire_at).1
  unfolding write_live
  goes_on row s tmp live ok = rw (live, ok) refl

  stuck_write :
      (row : Row) (s : List (Option Row)) (tmp out : Bytes)
      → is_live row now ≡ true
      → (append_db_row p.heap p.zlib io tmp row.key row.value row.expire_at).0 ≡ false
      → write_live p io now (some row ∷ s) tmp ≢ (true, out)
  unfolding write_live
  stuck_write row s tmp out live bad e =
      let r = append_db_row p.heap p.zlib io tmp row.key row.value row.expire_at in
      let stops : write_live p io now (some row ∷ s) tmp ≡ (false, r.1) = rw (live, bad) refl in
      let clash : false ≡ true = ap (λ (x : Bool × Bytes). x.0) (sym stops ∙ e) in cc

  pub write_live-Writes :
      (slots : List (Option Row)) (ls : List Bytes) (out : Bytes)
      → AreKept p now slots
      → write_live p io now slots (unlines ls) ≡ (true, out)
      → Writes p ls (live_rows now slots) out
  unfolding write_live live_rows rows_of
  write_live-Writes [] ls out kept e = record {
    new = [];
    text = sym (ap (λ (r : Bool × Bytes). r.1) e) ∙ ap unlines (sym (append-nil ls));
    clean = tt;
    reads = refl;
  }
  write_live-Writes (none ∷ s) ls out kept e = write_live-Writes s ls out kept e
  write_live-Writes (some row ∷ s) ls out kept e = elim (Bool-cases (is_live row now)) [
    | inr dead ↦
        rw dead (write_live-Writes s ls out kept.1 (sym (skips row s (unlines ls) dead) ∙ e))
    | inl live ↦
        let k = kept.0 live in
        elim (Bool-cases
          (append_db_row p.heap p.zlib io (unlines ls) row.key row.value row.expire_at).0) [
            | inr bad ↦ absurd (stuck_write row s (unlines ls) out live bad e)
            | inl ok ↦ rw live (
                one_more row k ls (live_rows now s) out (
                  write_live-Writes s (ls ++ stored_line p row k ∷ []) out kept.1 (
                    ap (write_live p io now s)
                      (sym (kept_line row ls k (live_full row now live) ok))
                    ∙ sym (goes_on row s (unlines ls) live ok)
                    ∙ e)))
          ]
  ]
