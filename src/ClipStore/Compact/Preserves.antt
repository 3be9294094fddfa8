-- ===== src/ClipStore/Compact/Preserves.antt =====
-- Compaction (db_compact.c) keeps what a reader of the database sees.
use mathlib.Core.Path.{subst}
use stream_data_pipline.Prelude.{
  ℕ, ◌≡◌, refl, sym, ap, ◌∙◌, Bool, true, false, Option, none, some, List, [], ◌∷◌, arith, inl, inr,
  Bool-cases, if◌then◌else◌,
}
use stream_data_pipline.Prelude.Bytes.{Bytes, str_eq, str_eq_iff, str_eq_refl}
use stream_data_pipline.Prelude.Int.{ℤ}
use stream_data_pipline.ClipStore.Row.{Row, is_live}
use stream_data_pipline.ClipStore.Index.{RowIndex}
use stream_data_pipline.ClipStore.Index.Grow.{IsIndex}
use stream_data_pipline.ClipStore.Index.Insert.{view}
use stream_data_pipline.ClipStore.Index.Rehash.{Distinct, slots-Distinct}
use stream_data_pipline.ClipStore.Load.{Platform, lines_of}
use stream_data_pipline.ClipStore.Load.Laws.{IsReadable, rows_of, latest}
use stream_data_pipline.ClipStore.Compact.{Directory, Calls, compacted, db_rewrite_compact}
use stream_data_pipline.ClipStore.Compact.Laws.{db_rewrite_compact-Replaces}
use stream_data_pipline.ClipStore.Compact.Lines.{lines_of-unlines}
use stream_data_pipline.ClipStore.Compact.Written.{
  IsKept, live_rows, AreKept, Writes, write_live-Writes,
}

-- What a reader of the database sees of a row.
abbrev pub live_only : ℤ → Option Row → Option Row
live_only now none = none
live_only now (some row) = if is_live row now then some row else none

-- The rows of the buckets, as a reader of the new file finds them.

view_none_key : (s : List (Option Row)) (a b : Bytes) → str_eq a b ≡ true → view s a ≡ view s b
view_none_key s a b e = ap (view s) ((str_eq_iff a b).0 e)

latest_hit :
    (rows : List Row) (row : Row) (old : Option Row) (key : Bytes)
    → str_eq row.key key ≡ true
    → latest old (row ∷ rows) key ≡ latest (some row) rows key
unfolding latest
latest_hit rows row old key same = rw same refl

latest_miss :
    (rows : List Row) (row : Row) (old : Option Row) (key : Bytes)
    → str_eq row.key key ≡ false
    → latest old (row ∷ rows) key ≡ latest old rows key
unfolding latest
latest_miss rows row old key other = rw other refl

latest-live_rows :
    (now : ℤ) (s : List (Option Row)) (old : Option Row) (key : Bytes)
    → Distinct s
    → latest old (live_rows now s) key
      ≡ (elim (view s key) [ none ↦ old | some r ↦ if is_live r now then some r else old ])
unfolding latest live_rows view
latest-live_rows now [] old key d = refl
latest-live_rows now (none ∷ s) old key d = latest-live_rows now s old key d
latest-live_rows now (some row ∷ s) old key d = elim (Bool-cases (str_eq row.key key)) [
  | inr other ↦ elim (Bool-cases (is_live row now)) [
    | inl live ↦
        rw (live, other)
          (latest_miss (live_rows now s) row old key other ∙ latest-live_rows now s old key d.1)
    | inr dead ↦ rw (dead, other) (latest-live_rows now s old key d.1)
  ]
  | inl same ↦
      let absent : view s key ≡ none = sym (view_none_key s row.key key same) ∙ d.0 in
      elim (Bool-cases (is_live row now)) [
        | inl live ↦
            rw (live, same, live)
              (latest_hit (live_rows now s) row old key same
                ∙ latest-live_rows now s (some row) key d.1
                ∙ rw absent refl)
        | inr dead ↦ rw (dead, same, dead) (latest-live_rows now s old key d.1 ∙ rw absent refl)
      ]
]

AreKept-of :
    (p : Platform) (now : ℤ) (s : List (Option Row))
    → Distinct s
    → ((row : Row) → is_live row now ≡ true → view s row.key ≡ some row → IsKept p row)
    → AreKept p now s
unfolding view
AreKept-of p now [] d h = tt
AreKept-of p now (none ∷ s) d h = AreKept-of p now s d h
AreKept-of p now (some r ∷ s) d h = (
  λ live. h r live (rw (str_eq_refl r.key) refl),
  AreKept-of p now s d.1 (λ row live at. elim (Bool-cases (str_eq r.key row.key)) [
    | inr other ↦ h row live (rw other at)
    | inl same ↦
        let gone : none ≡ some row = sym d.0 ∙ view_none_key s r.key row.key same ∙ at in cc
  ]),
)

pub index-Distinct : (t : RowIndex) → IsIndex t → Distinct t.slots
index-Distinct t (inl z) = subst (λ (x : RowIndex). Distinct x.slots) (sym z) tt
index-Distinct t (inr it) = slots-Distinct t it.places (omega (arith, it.load))

live_only_view :
    (now : ℤ) (o : Option Row)
    → (elim o [ none ↦ none | some r ↦ if is_live r now then some r else none ]) ≡ live_only now o
live_only_view now none = refl
live_only_view now (some r) = refl

read_again :
    (p : Platform) (now : ℤ) (rows : List Row) (s : List (Option Row)) (out : Bytes)
    → Distinct s
    → Writes p [] (live_rows now s) out
    → ((key : Bytes) → view s key ≡ latest none rows key)
    → (key : Bytes)
    → latest none (rows_of p (lines_of out)) key ≡ live_only now (latest none rows key)
read_again p now rows s out d w views key =
    ap (λ (t : Bytes). latest none (rows_of p (lines_of t)) key) w.text
    ∙ ap (λ (ls : List Bytes). latest none (rows_of p ls) key) (lines_of-unlines w.new w.clean)
    ∙ ap (λ (rs : List Row). latest none rs key) w.reads
    ∙ latest-live_rows now s none key d
    ∙ live_only_view now (view s key)
    ∙ ap (live_only now) (views key)

-- Compaction of a file no line of which has 2^61 bytes, or a value that fills the buffer that it is
-- decompressed into, returns, if each live row of the file can be written and read back. If it fails
-- the database file is unchanged. If it succeeds, a reader of the new file finds for every key the row
-- that the old file had for it, if that row is live, and none otherwise.
pub db_rewrite_compact-preserves :
    (p : Platform) (calls : Calls) (now : ℤ) (dir : Directory) (path_len : ℕ) (error : Bool)
    → IsReadable p (lines_of dir.db)
    → ((row : Row)
        → is_live row now ≡ true
        → latest none (rows_of p (lines_of dir.db)) row.key ≡ some row
        → IsKept p row)
    → (done : Bool) × (after : Directory) × (db_rewrite_compact p calls now path_len error dir
        ≡ some (compacted done after))
      × (done ≡ false → after.db ≡ dir.db)
      × (done ≡ true
          → (key : Bytes)
          → latest none (rows_of p (lines_of after.db)) key
            ≡ live_only now (latest none (rows_of p (lines_of dir.db)) key))
db_rewrite_compact-preserves p calls now dir path_len error readable keep =
    let r = db_rewrite_compact-Replaces p calls now dir path_len error readable in
    let d = index-Distinct r.index r.formed in
    (
      r.done,
      r.after,
      r.returns,
      r.unchanged,
      λ ok.
          read_again p now (rows_of p (lines_of dir.db)) r.index.slots r.after.db d
            (write_live-Writes p calls.io now r.index.slots [] r.after.db
              (AreKept-of p now r.index.slots d
                (λ row live at. keep row live (sym (r.views ok row.key) ∙ at)))
              (r.wrote ok))
            (r.views ok),
    )
