-- ===== src/ClipStore/Compact/Listings.antt =====
-- The listing of `print_rows` in applets/clip_store/clip_store.c against the map that the file stands
-- for. The order of the lines is that of the buckets and is left open.
use mathlib.Core.Path.{subst}
use stream_data_pipline.Prelude.{
  ◌≡◌, ◌↔◌, ◌⊎◌, refl, sym, ap, ◌∙◌, Bool, true, false, ◌&&◌, Option, none, some, List, [], ◌∷◌,
  ◌++◌, inl, inr, Bool-cases, if◌then◌else◌, arith,
}
use stream_data_pipline.Prelude.Bytes.{Bytes, str_eq, str_eq_iff, str_eq_refl}
use stream_data_pipline.Prelude.Int.{ℤ}
use stream_data_pipline.ClipStore.Row.{Row, is_live}
use stream_data_pipline.ClipStore.Index.{RowIndex, zero_index}
use stream_data_pipline.ClipStore.Index.Insert.{view}
use stream_data_pipline.ClipStore.Index.Rehash.{Distinct}
use stream_data_pipline.ClipStore.Format.{tab, newline}
use stream_data_pipline.ClipStore.Load.{File, Platform, loaded, lines_of, load_latest_rows}
use stream_data_pipline.ClipStore.Load.Laws.{
  IsReadable, Loads, load_latest_rows-Loads, rows_of, latest,
}
use stream_data_pipline.ClipStore.Compact.{
  passes, print_slots, listed, refused, list_loaded, print_rows,
}
use stream_data_pipline.ClipStore.Compact.Preserves.{index-Distinct}

abbrev pub IsAmong : Row → List Row → Type 0
IsAmong row [] = ⊥
IsAmong row (r ∷ rs) = (r ≡ row) ⊎ IsAmong row rs

-- No two of the rows have the same key.
abbrev pub AreUnique : List Row → Type 0
AreUnique [] = Unit
AreUnique (r ∷ rs) = ((x : Row) → IsAmong x rs → str_eq r.key x.key ≡ false) × AreUnique rs

-- The lines of the rows.
abbrev pub row_lines : List Row → Bytes
row_lines [] = []
row_lines (r ∷ rs) = r.key ++ tab ∷ (r.value ++ newline ∷ row_lines rs)

-- A text that lists the live rows of the file whose keys have the prefix, each one once.
pub record IsListing (p : Platform) (file : File) (prefix : Option Bytes) (now : ℤ) (text : Bytes)
    : Type 0 where
  pub rows : List Row
  pub lines : text ≡ row_lines rows
  pub unique : AreUnique rows
  pub holds :
      (row : Row)
      → IsAmong row rows ↔ (
          (latest none (rows_of p (lines_of file.text)) row.key ≡ some row)
          × (is_live row now ≡ true)
          × (passes prefix row.key ≡ true))

-- A row in front, if the test says so.
IsAmong-cases :
    (b : Bool) (r row : Row) (rs : List Row)
    → IsAmong row (if b then r ∷ rs else rs) ↔ (((b ≡ true) × (r ≡ row)) ⊎ IsAmong row rs)
IsAmong-cases true r row rs = (
  λ h. elim h [ inl e ↦ inl (refl, e) | inr i ↦ inr i ],
  λ h. elim h [ inl e ↦ inl e.1 | inr i ↦ inr i ],
)
IsAmong-cases false r row rs = (λ h. inr h, λ h. elim h [ inl e ↦ cc (e.0) | inr i ↦ i ])

module _ (prefix : Option Bytes) (now : ℤ) where
  abbrev is_shown : Row → Bool
  is_shown row = is_live row now && passes prefix row.key

  -- The rows that are printed, in the order of the buckets.
  unfoldable shown_rows : List (Option Row) → List Row
  shown_rows [] = []
  shown_rows (none ∷ s) = shown_rows s
  shown_rows (some r ∷ s) = let rest = shown_rows s in if is_shown r then r ∷ rest else rest

  print_slots-row_lines :
      (s : List (Option Row)) → print_slots prefix now s ≡ row_lines (shown_rows s)
  unfolding shown_rows
  print_slots-row_lines [] = refl
  print_slots-row_lines (none ∷ s) = print_slots-row_lines s
  print_slots-row_lines (some r ∷ s) = elim (Bool-cases (is_live r now)) [
    | inr dead ↦ rw dead (print_slots-row_lines s)
    | inl live ↦ elim (Bool-cases (passes prefix r.key)) [
      | inr other ↦ rw (live, other) (print_slots-row_lines s)
      | inl passed ↦
          rw (live, passed)
            (ap (λ (t : Bytes). r.key ++ tab ∷ (r.value ++ newline ∷ t)) (print_slots-row_lines s))
    ]
  ]

  abbrev Shown : List (Option Row) → Row → Type 0
  Shown s row =
      (view s row.key ≡ some row) × (is_live row now ≡ true) × (passes prefix row.key ≡ true)

  -- A row behind another one has another key.
  behind :
      (r row : Row) (s : List (Option Row))
      → view s r.key ≡ none
      → view s row.key ≡ some row
      → str_eq r.key row.key ≡ false
  behind r row s gone there = elim (Bool-cases (str_eq r.key row.key)) [
    | inr other ↦ other
    | inl same ↦
        let e : none ≡ some row =
          sym gone ∙ ap (view s) ((str_eq_iff r.key row.key).0 same) ∙ there in
        cc
  ]

  IsAmong-Shown :
      (s : List (Option Row)) → Distinct s → (row : Row) → IsAmong row (shown_rows s) → Shown s row
  unfolding shown_rows view
  IsAmong-Shown [] d row h = absurd h
  IsAmong-Shown (none ∷ s) d row h = IsAmong-Shown s d row h
  IsAmong-Shown (some r ∷ s) d row h =
      elim ((IsAmong-cases (is_shown r) r row (shown_rows s)).0 h) [
        | inl e ↦
            subst (Shown (some r ∷ s)) e.1
              (rw (str_eq_refl r.key) refl, ground (arith, e), ground (arith, e))
        | inr later ↦
            let (there, live, passed) = IsAmong-Shown s d.1 row later in
            (rw (behind r row s d.0 there) there, live, passed)
      ]

  Shown-IsAmong :
      (s : List (Option Row)) → Distinct s → (row : Row) → Shown s row → IsAmong row (shown_rows s)
  unfolding shown_rows view
  Shown-IsAmong [] d row h = cc (h.0)
  Shown-IsAmong (none ∷ s) d row h = Shown-IsAmong s d row h
  Shown-IsAmong (some r ∷ s) d row h =
      (IsAmong-cases (is_shown r) r row (shown_rows s)).1
        (elim (Bool-cases (str_eq r.key row.key)) [
          | inl same ↦
              let e : r ≡ row = ground (arith, h.0) in inl (ap is_shown e ∙ rw (h.1, h.2) refl, e)
          | inr other ↦ inr (Shown-IsAmong s d.1 row (ground (arith, h.0), h.1, h.2))
        ])

  shown-AreUnique : (s : List (Option Row)) → Distinct s → AreUnique (shown_rows s)
  unfolding shown_rows
  shown-AreUnique [] d = tt
  shown-AreUnique (none ∷ s) d = shown-AreUnique s d
  shown-AreUnique (some r ∷ s) d = elim (Bool-cases (is_shown r)) [
    | inr hidden ↦ rw hidden (shown-AreUnique s d.1)
    | inl shows ↦
        rw shows (λ x h. behind r x s d.0 (IsAmong-Shown s d.1 x h).0, shown-AreUnique s d.1)
  ]

listed_index :
    (p : Platform) (file : File) (prefix : Option Bytes) (now : ℤ)
    (l : Loads zero_index (rows_of p (lines_of file.text)) (load_latest_rows p file zero_index))
    → l.done ≡ true
    → IsListing p file prefix now (print_slots prefix now l.after.slots)
unfolding view
listed_index p file prefix now l ok =
    let s = l.after.slots in
    let d = index-Distinct l.after l.index in
    record {
      rows = shown_rows prefix now s;
      lines = print_slots-row_lines prefix now s;
      unique = shown-AreUnique prefix now s d;
      holds = λ row. (
        λ h.
            let (there, live, passed) = IsAmong-Shown prefix now s d row h in
            (sym (l.views ok row.key) ∙ there, live, passed),
        λ h. Shown-IsAmong prefix now s d row (l.views ok row.key ∙ h.0, h.1, h.2),
      );
    }

-- `print_rows` always returns. If the file cannot be loaded it is refused, and otherwise what is
-- printed are the lines of rows with different keys, which are exactly the rows of the map that the
-- file stands for that are live and whose key has the prefix, if one is given. No line of the file may
-- have 2^61 bytes or a value that fills the buffer that it is decompressed into.
pub print_rows-IsListing :
    (p : Platform) (file : File) (prefix : Option Bytes) (now : ℤ)
    → IsReadable p (lines_of file.text)
    → (done : Bool) × (after : RowIndex) × (load_latest_rows p file zero_index
        ≡ some (loaded done after))
      × (done ≡ false → print_rows p file prefix now ≡ some refused)
      × (done ≡ true
          → (text : Bytes) × (print_rows p file prefix now ≡ some (listed text))
            × IsListing p file prefix now text)
unfolding print_rows
print_rows-IsListing p file prefix now readable =
    let l = load_latest_rows-Loads p file zero_index readable (inl refl) in
    let run = ap (list_loaded prefix now) l.returns in
    (
      l.done,
      l.after,
      l.returns,
      λ bad. run ∙ ap (λ b. list_loaded prefix now (some (loaded b l.after))) bad,
      λ ok. (
        print_slots prefix now l.after.slots,
        run ∙ ap (λ b. list_loaded prefix now (some (loaded b l.after))) ok,
        listed_index p file prefix now l ok,
      ),
    )
